-- ===== src/Config/Coverage.antt =====
-- `Theme::validate` of crates/ats-config/src/theme.rs against the lookup that the renderers do.
use agent_term_status.Prelude.{
  ◌≤◌, ◌≡◌, refl, arith, some, Bool-cases, Option-cases, inl, inr, List, [], ◌∷◌, ltb, ok, ◌↔◌,
}
use agent_term_status.Core.{AgentState, idle, working, attention, risk, result, error}
use agent_term_status.Config.Theme.{
  Theme, ThemeEntry, resolve, rep_count, validate, validate_states,
}

-- Every state has an entry with two representations.
pub record Covers (theme : Theme) (state : AgentState) : Type 0 where
  pub entry : ThemeEntry
  pub resolved : resolve theme state ≡ some entry
  pub rich : 2 ≤ rep_count entry

validate_states-Covers :
    (theme : Theme) (s : AgentState) (l : List AgentState)
    → validate_states theme (s ∷ l) ≡ ok tt
    → Covers theme s × (validate_states theme l ≡ ok tt)
unfolding validate_states
validate_states-Covers theme s l h = elim (Option-cases (resolve theme s)) [
  | inl e ↦ absurd (cc (rw e at h))
  | inr (x, e) ↦ elim (Bool-cases (ltb (rep_count x) 2)) [
    | inl few ↦ absurd (cc (rw (e, few) at h))
    | inr enough ↦ (record { entry = x; resolved = e; rich = ground arith }, ground arith)
  ]
]

validate_states_of-Covers :
    (theme : Theme) (s : AgentState) (l : List AgentState)
    → Covers theme s
    → validate_states theme l ≡ ok tt
    → validate_states theme (s ∷ l) ≡ ok tt
unfolding validate_states
validate_states_of-Covers theme s l c h = rw c.resolved (ground (arith, c.rich, h))

validate_states-nil : (theme : Theme) → validate_states theme [] ≡ ok tt
unfolding validate_states
validate_states-nil theme = refl

covered : (theme : Theme) → validate theme ≡ ok tt → (s : AgentState) → Covers theme s
unfolding validate
covered theme h =
    let (i, h1) = validate_states-Covers theme _ _ h in
    let (w, h2) = validate_states-Covers theme _ _ h1 in
    let (a, h3) = validate_states-Covers theme _ _ h2 in
    let (r, h4) = validate_states-Covers theme _ _ h3 in
    let (t, h5) = validate_states-Covers theme _ _ h4 in
    let (e, h6) = validate_states-Covers theme _ _ h5 in
    let (u, h7) = validate_states-Covers theme _ _ h6 in
    elim [
      | idle ↦ i
      | working ↦ w
      | attention ↦ a
      | risk ↦ r
      | result ↦ t
      | error ↦ e
      | AgentState.unknown ↦ u
    ]

validated : (theme : Theme) → ((s : AgentState) → Covers theme s) → validate theme ≡ ok tt
unfolding validate
validated theme c =
    let v = λ (s : AgentState) (l : List AgentState). validate_states_of-Covers theme s l (c s) in
    v _ _ (v _ _ (v _ _ (v _ _ (v _ _ (v _ _ (v _ _ (validate_states-nil theme)))))))

-- A theme passes validate exactly when it resolves every state to an entry with at least two of
-- colour, label and symbol.
validate_iff : (theme : Theme) → (validate theme ≡ ok tt) ↔ ((s : AgentState) → Covers theme s)
validate_iff theme = (covered theme, validated theme)
