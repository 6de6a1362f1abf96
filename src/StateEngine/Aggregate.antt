-- ===== src/StateEngine/Aggregate.antt =====
-- `StateEngine::get_aggregated_state` (crates/ats-state-engine/src/engine.rs).
use agent_term_status.Prelude.{
  ◌≤◌, ◌≡◌, refl, arith, ◌⊎◌, ◌≢◌, some, none, String, String_eq, Option-cases, inl, inr, List, [],
  ◌∷◌, str_eq, eq_iff, leb, Bool-cases, test_ne, ◌∙◌, ap, sym,
}
use agent_term_status.Prelude.HashMap.{HashMap, get, Distinct}
use agent_term_status.Core.{AgentState}
use agent_term_status.StateEngine.Priority.{priority}
use agent_term_status.StateEngine.Machine.{SessionState}
use agent_term_status.StateEngine.Engine.{
  StateEngine, children_states, max_by_priority, get_aggregated_state,
}

List-cases {ℓ} : {A : Type ℓ} (l : List A) → (l ≡ []) ⊎ ((x : A) × (xs : List A) × (l ≡ x ∷ xs))
List-cases [] = inl refl
List-cases (x ∷ xs) = inr (x, xs, refl)

-- `child` is a session of the engine whose parent is `parent`, in state `state`.
pub record IsChild (eng : StateEngine) (parent child : String) (s : SessionState) : Type 0 where
  pub session : get child eng.sessions ≡ some s
  pub parented : get child eng.parent_map ≡ some parent

priority-le-max :
    (best : AgentState) (l : List AgentState) → priority best ≤ priority (max_by_priority best l)
unfolding max_by_priority
priority-le-max best [] = omega arith
priority-le-max best (s ∷ l) = ground (arith, priority-le-max s l, priority-le-max best l)

max-cons :
    (best s : AgentState) (l : List AgentState)
    → (max_by_priority best (s ∷ l) ≡ max_by_priority s l)
      ⊎ (max_by_priority best (s ∷ l) ≡ max_by_priority best l)
unfolding max_by_priority
max-cons best s l = elim (Bool-cases (leb (priority best) (priority s))) [
  | inl up ↦ inl (rw up)
  | inr down ↦ inr (rw down)
]

module _ (parent_map : HashMap String String) (parent : String) where
  child-le-max :
      (best : AgentState) (m : HashMap String SessionState) (child : String) (s : SessionState)
      → get child m ≡ some s
      → get child parent_map ≡ some parent
      → priority s.state ≤ priority (max_by_priority best (children_states parent_map parent m))
  unfolding get children_states max_by_priority
  child-le-max best [] child s h p = cc
  child-le-max best ((j, t) ∷ m) child s h p =
      let l = children_states parent_map parent m in
      ground (
        arith,
        eq_iff j child,
        eq_iff parent parent,
        priority-le-max s.state l,
        priority-le-max best l,
        child-le-max best m child s,
        child-le-max t.state m child s,
      )

  -- A child found in the table.
  abbrev Found : HashMap String SessionState → AgentState → Type 0
  Found m a =
      (child : String) × (s : SessionState) × (get child m ≡ some s)
      × (get child parent_map ≡ some parent)
      × (s.state ≡ a)

  Found-later :
      (j : String) (t : SessionState) (m : HashMap String SessionState) (a : AgentState)
      → get j m ≡ none
      → Found m a
      → Found ((j, t) ∷ m) a
  unfolding get
  Found-later j t m a d (child, s, g, p, e) = (child, s, ground (arith, eq_iff j child), p, e)

  children_yes :
      (j : String) (t : SessionState) (m : HashMap String SessionState)
      → get j parent_map ≡ some parent
      → children_states parent_map parent ((j, t) ∷ m)
        ≡ t.state ∷ children_states parent_map parent m
  unfolding children_states
  children_yes j t m h = ground (arith, eq_iff parent parent)

  children_no :
      (j : String) (t : SessionState) (m : HashMap String SessionState)
      → get j parent_map ≢ some parent
      → children_states parent_map parent ((j, t) ∷ m) ≡ children_states parent_map parent m
  unfolding children_states
  children_no j t m h = elim (Option-cases (get j parent_map)) [
    | inl e ↦ rw e
    | inr (p, e) ↦ rw (e, test_ne p parent (λ q. h (e ∙ ap some q)))
  ]

  parent_cases : (j : String) → (get j parent_map ≡ some parent) ⊎ (get j parent_map ≢ some parent)
  parent_cases j = elim (Option-cases (get j parent_map)) [
    | inl e ↦ inr (λ q. cc)
    | inr (p, e) ↦ elim (Bool-cases (str_eq p parent)) [
      | inl same ↦ inl (e ∙ ap some ((eq_iff p parent).0 same))
      | inr other ↦
          inr (λ q. let same : p ≡ parent = cc (sym e ∙ q) in cc ((eq_iff p parent).1 same))
    ]
  ]

  -- The maximum is where the search began or a child's state.
  abbrev Best : HashMap String SessionState → AgentState → AgentState → Type 0
  Best m best a = (a ≡ best) ⊎ Found m a

  max_found :
      (best : AgentState) (m : HashMap String SessionState)
      → Distinct m
      → Best m best (max_by_priority best (children_states parent_map parent m))
  unfolding get
  max_found best [] d = inl (unfold children_states max_by_priority in refl)
  max_found best ((j, t) ∷ m) d =
      let l = children_states parent_map parent m in
      let passed : Best ((j, t) ∷ m) best (max_by_priority best l) = elim (max_found best m d.1) [
        | inl e ↦ inl e
        | inr f ↦ inr (Found-later j t m _ d.0 f)
      ] in
      elim (parent_cases j) [
        | inr other ↦ rw (children_no j t m other) passed
        | inl ours ↦ rw (children_yes j t m ours) (elim (max-cons best t.state l) [
          | inr e ↦ rw e passed
          | inl e ↦ rw e (elim (max_found t.state m d.1) [
            | inl f ↦ inr (j, t, ground (arith, eq_iff j j), ours, sym f)
            | inr f ↦ inr (Found-later j t m _ d.0 f)
          ])
        ])
      ]

  -- The first of the states is a child's.
  first-Found :
      (m : HashMap String SessionState) (a : AgentState) (l : List AgentState)
      → Distinct m
      → children_states parent_map parent m ≡ a ∷ l
      → Found m a
  unfolding get
  first-Found [] a l d h = absurd (unfold children_states in (cc h))
  first-Found ((j, t) ∷ m) a l d h = elim (parent_cases j) [
    | inr other ↦
        Found-later j t m a d.0 (first-Found m a l d.1 (sym (children_no j t m other) ∙ h))
    | inl ours ↦ (j, t, ground (arith, eq_iff j j), ours, cc (children_yes j t m ours, h))
  ]

module _ (parent_map : HashMap String String) (parent : String) where
  child-ne-nil :
      (m : HashMap String SessionState) (child : String) (s : SessionState)
      → get child m ≡ some s
      → get child parent_map ≡ some parent
      → children_states parent_map parent m ≢ []
  unfolding get children_states
  child-ne-nil [] child s h p = cc
  child-ne-nil ((j, t) ∷ m) child s h p =
      ground (arith, eq_iff j child, eq_iff parent parent, child-ne-nil m child s)

-- Starting a maximum at the first element is starting it one place further.
max_first : (s : AgentState) (l : List AgentState) → max_by_priority s (s ∷ l) ≡ max_by_priority s l
unfolding max_by_priority
max_first s l = ground arith

aggregated :
    (eng : StateEngine) (parent : String) (a : AgentState)
    → get_aggregated_state eng parent ≡ some a
    → (s : AgentState) × (l : List AgentState) × (children_states eng.parent_map parent eng.sessions
        ≡ s ∷ l)
      × (a ≡ max_by_priority s (children_states eng.parent_map parent eng.sessions))
unfolding get_aggregated_state
aggregated eng parent a h = elim (List-cases (children_states eng.parent_map parent eng.sessions)) [
  | inl e ↦ absurd (cc (rw e at h))
  | inr (s, l, e) ↦ (s, l, e, rw e (cc (rw e at h, max_first s l)))
]

module _ (eng : StateEngine) (parent : String) (distinct : Distinct eng.sessions) where
  -- The aggregated state is at least as urgent as the state of every child, and is the state of one.
  pub record IsMostUrgent (a : AgentState) : Type 0 where
    pub child : String
    pub session : SessionState
    pub ours : IsChild eng parent child session
    pub shown : session.state ≡ a
    pub highest :
        (other : String) (s : SessionState)
        → IsChild eng parent other s
        → priority s.state ≤ priority a

  Found-IsMostUrgent :
      (a : AgentState)
      → Found eng.parent_map parent eng.sessions a
      → ((other : String) (s : SessionState)
          → IsChild eng parent other s
          → priority s.state ≤ priority a)
      → IsMostUrgent a
  Found-IsMostUrgent a (child, s, g, p, e) top = record {
    child = child;
    session = s;
    ours = record { session = g; parented = p };
    shown = e;
    highest = top;
  }

  -- Where no session has two entries, the state that get_aggregated_state returns is the state of
  -- some child of the parent, and no child of the parent has a state of higher priority.
  pub aggregated-IsMostUrgent :
      (a : AgentState) → get_aggregated_state eng parent ≡ some a → IsMostUrgent a
  aggregated-IsMostUrgent a h =
      let pm = eng.parent_map in
      let (s, l, first, e) = aggregated eng parent a h in
      let top : (other : String) (t : SessionState)
          → IsChild eng parent other t
          → priority t.state ≤ priority a =
        λ other t c. rw e (child-le-max pm parent s eng.sessions other t c.session c.parented) in
      elim (max_found pm parent s eng.sessions distinct) [
        | inl same ↦
            Found-IsMostUrgent a
              (rw (e, same) (first-Found pm parent eng.sessions s l distinct first)) top
        | inr found ↦ Found-IsMostUrgent a (rw e found) top
      ]

  -- It returns `none` only where the parent has no child.
  pub aggregated-none :
      get_aggregated_state eng parent ≡ none
      → (child : String) (s : SessionState) → ¬ IsChild eng parent child s
  unfolding get_aggregated_state
  aggregated-none h child s c =
      elim (List-cases (children_states eng.parent_map parent eng.sessions)) [
        | inl e ↦ child-ne-nil eng.parent_map parent eng.sessions child s c.session c.parented e
        | inr (t, l, e) ↦ absurd (cc (rw e at h))
      ]
