-- ===== src/Config/Settings/Validation.antt =====
-- `Config::validate` of crates/ats-config/src/config.rs.
use agent_term_status.Prelude.{
  String, true, Option, some, none, List, [], ◌∷◌, ok, ◌≡◌, ◌≢◌, ◌↔◌, refl, All, arith, Bool-cases,
  inl, inr, eq_iff,
}
use agent_term_status.Prelude.HashMap.{HashMap}
use agent_term_status.Config.Settings.{
  Config, StateOverride, validate, check_hours, check_socket, check_states, verdict, before,
  has_empty_color,
}

abbrev pub HasColor : String × StateOverride → Type 0
HasColor entry = entry.1.color ≢ some ""

-- What a configuration that is accepted is.
pub record IsAccepted (config : Config) : Type 0 where
  pub hours :
      (start end : String)
      → config.renderers.notifications.quiet_hours.start ≡ some start
      → config.renderers.notifications.quiet_hours.end ≡ some end
      → before start end ≡ true
  pub socket : config.daemon.socket_path ≢ some ""
  pub colors : All HasColor config.states.states

has_empty_color_iff : (o : Option String) → (has_empty_color o ≡ true) ↔ (o ≡ some "")
has_empty_color_iff none = (λ p. absurd (cc p), λ p. absurd (cc p))
has_empty_color_iff (some c) = ground (arith, eq_iff c "")

check_states-nil : (m : HashMap String StateOverride) → (check_states m ≡ []) ↔ All HasColor m
unfolding check_states
check_states-nil [] = (λ _. tt, λ _. refl)
check_states-nil ((k, e) ∷ m) = ground (arith, has_empty_color_iff e.color, check_states-nil m)

check_socket-nil :
    (o : Option String) (errors : List String)
    → (check_socket o errors ≡ []) ↔ ((o ≢ some "") × (errors ≡ []))
check_socket-nil none errors = ground arith
check_socket-nil (some path) errors = ground (arith, eq_iff path "")

abbrev Ordered : Option String → Option String → Type 0
Ordered o p = (start end : String) → o ≡ some start → p ≡ some end → before start end ≡ true

check_hours-nil :
    (o p : Option String) (errors : List String)
    → (check_hours o p errors ≡ []) ↔ (Ordered o p × (errors ≡ []))
check_hours-nil none p errors = (λ e. (λ s t a b. absurd (cc a), e), λ h. h.1)
check_hours-nil (some s) none errors = (λ e. (λ s' t a b. absurd (cc b), e), λ h. h.1)
check_hours-nil (some s) (some t) errors = elim (Bool-cases (before s t)) [
  | inl fine ↦ rw fine (
    λ e. (λ s' t' a b. let p : s ≡ s' = cc a in let q : t ≡ t' = cc b in rw (p, q) at fine, e),
    λ h. h.1,
  )
  | inr late ↦ rw late (λ e. absurd (cc e), λ h. absurd (cc (late, h.0 s t refl refl)))
]

verdict_iff : (errors : List String) → (verdict errors ≡ ok tt) ↔ (errors ≡ [])
verdict_iff [] = (λ _. refl, λ _. refl)
verdict_iff (e ∷ errors) = (λ p. absurd (cc p), λ p. absurd (cc p))

-- A configuration passes validate exactly when its quiet hours, if both are set, start before they
-- end as texts, its socket path is not empty, and no state's colour is.
pub validate-ok_iff : (config : Config) → (validate config ≡ ok tt) ↔ IsAccepted config
unfolding validate
validate-ok_iff config =
    let hours = config.renderers.notifications.quiet_hours in
    let colors = check_states-nil config.states.states in
    let sockets = check_socket-nil config.daemon.socket_path (check_states config.states.states) in
    let times =
      check_hours-nil hours.start hours.end
        (check_socket config.daemon.socket_path (check_states config.states.states)) in
    let errors =
      check_hours hours.start hours.end
        (check_socket config.daemon.socket_path (check_states config.states.states)) in
    (
      λ v.
          let (ordered, e) = times.0 ((verdict_iff errors).0 v) in
          let (named, e') = sockets.0 e in
          record { hours = ordered; socket = named; colors = colors.0 e' },
      λ a. (verdict_iff errors).1 (times.1 (a.hours, sockets.1 (a.socket, colors.1 a.colors))),
    )
