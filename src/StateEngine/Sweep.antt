-- ===== src/StateEngine/Sweep.antt =====
-- `StateEngine::expire_ttls` (crates/ats-state-engine/src/engine.rs): what a sweep does to each
-- session and what it returns.
use agent_term_status.Prelude.{
  ◌≡◌, refl, Bool, false, arith, Option, some, none, String, String_eq, not, ◌&&◌, List, [], ◌∷◌,
  if◌then◌else◌, str_eq, eq_iff,
}
use agent_term_status.Prelude.Time.{DateTime}
use agent_term_status.Prelude.HashMap.{HashMap, get, contains, get-remove, Distinct}
use agent_term_status.Core.{AgentState, idle}
use agent_term_status.Core.Equality.{state_eq}
use agent_term_status.StateEngine.Machine.{SessionState, check_ttl}
use agent_term_status.StateEngine.Engine.{
  StateEngine, StateTransition, is_parent, expire_loop, remove_session, remove_sessions,
  expire_ttls,
}

-- One session after a sweep, as `check_ttl` leaves it: dropped if it became idle and has no child.
abbrev pub swept :
    HashMap String String → String → SessionState × Option AgentState → Option SessionState
swept parent_map id (s', none) = some s'
swept parent_map id (s', some _) =
    if state_eq s'.state idle && not (is_parent id parent_map) then none else some s'

abbrev pub sweep :
    HashMap String String → String → DateTime → Option SessionState → Option SessionState
sweep parent_map id now none = none
sweep parent_map id now (some s) = swept parent_map id (check_ttl s now)

-- The transitions that a sweep returns for one session.
abbrev pub told : String → SessionState → SessionState × Option AgentState → List StateTransition
told id s (s', none) = []
told id s (s', some _) = record { session_id = id; previous = s.state; new = s'.state } ∷ []

abbrev pub tell : String → DateTime → Option SessionState → List StateTransition
tell id now none = []
tell id now (some s) = told id s (check_ttl s now)

pub transitions_of : String → List StateTransition → List StateTransition
transitions_of id [] = []
transitions_of id (t ∷ l) =
    if str_eq t.session_id id then t ∷ transitions_of id l else transitions_of id l

abbrev pub kept : DateTime → Option SessionState → Option SessionState
kept now none = none
kept now (some s) = some (check_ttl s now).0

abbrev drops : HashMap String String → String → SessionState × Option AgentState → Bool
drops parent_map id (s', none) = false
drops parent_map id (s', some _) = state_eq s'.state idle && not (is_parent id parent_map)

abbrev dropped : HashMap String String → String → DateTime → Option SessionState → Bool
dropped parent_map id now none = false
dropped parent_map id now (some s) = drops parent_map id (check_ttl s now)

module _ (parent_map : HashMap String String) (now : DateTime) where
  pub loop_sessions :
      (id : String) (m : HashMap String SessionState)
      → get id (expire_loop parent_map now m).sessions ≡ kept now (get id m)
  unfolding get expire_loop
  loop_sessions id [] = refl
  loop_sessions id ((j, s) ∷ m) = ground (arith, loop_sessions id m)

  loop_transitions :
      (id : String) (m : HashMap String SessionState)
      → Distinct m
      → transitions_of id (expire_loop parent_map now m).transitions ≡ tell id now (get id m)
  unfolding get expire_loop transitions_of
  loop_transitions id [] d = refl
  loop_transitions id ((j, s) ∷ m) d = ground (arith, eq_iff j id, loop_transitions id m d.1)

  loop_expired :
      (id : String) (m : HashMap String SessionState)
      → Distinct m
      → contains id (expire_loop parent_map now m).expired_ids
        ≡ dropped parent_map id now (get id m)
  unfolding get expire_loop contains
  loop_expired id [] d = refl
  loop_expired id ((j, s) ∷ m) d = ground (arith, eq_iff j id, loop_expired id m d.1)

get-remove_sessions :
    (id : String) (eng : StateEngine) (ids : List String)
    → (get id (remove_sessions eng ids).sessions
        ≡ (if contains id ids then none else get id eng.sessions))
      × (get id (remove_sessions eng ids).parent_map
          ≡ (if contains id ids then none else get id eng.parent_map))
unfolding remove_sessions remove_session contains
get-remove_sessions id eng [] = (refl, refl)
get-remove_sessions id eng (j ∷ ids) = ground (
  arith,
  get-remove_sessions id (remove_session eng j).0 ids,
  get-remove j id eng.sessions,
  get-remove j id eng.parent_map,
)

module _ (eng : StateEngine) (now : DateTime) (id : String) (distinct : Distinct eng.sessions) where
  -- A sweep of expire_ttls, on a table in which no key has two entries, does to each session what
  -- check_ttl says, drops it if it has become idle and is no session's parent, and leaves alone a
  -- session that has not expired.
  pub get-expire_ttls :
      get id (expire_ttls eng now).0.sessions ≡ sweep eng.parent_map id now (get id eng.sessions)
  unfolding expire_ttls
  get-expire_ttls =
      let x = expire_loop eng.parent_map now eng.sessions in
      ground (
        arith,
        get-remove_sessions id (record eng { sessions = x.sessions }) x.expired_ids,
        loop_sessions eng.parent_map now id eng.sessions,
        loop_expired eng.parent_map now id eng.sessions distinct,
      )

  -- A sweep of a table in which no key has two entries returns one transition for each session that
  -- expired, with its old and its new state, and none for any other.
  transitions-expire_ttls :
      transitions_of id (expire_ttls eng now).1 ≡ tell id now (get id eng.sessions)
  unfolding expire_ttls
  transitions-expire_ttls = loop_transitions eng.parent_map now id eng.sessions distinct

  -- An idle session is never dropped, and never reported.
  pub idle_stays :
      (s : SessionState)
      → get id eng.sessions ≡ some s
      → s.state ≡ idle
      → (get id (expire_ttls eng now).0.sessions ≡ some s)
        × (transitions_of id (expire_ttls eng now).1 ≡ [])
  unfolding check_ttl
  idle_stays s found h = (
    rw (get-expire_ttls, found) (ground arith),
    rw (transitions-expire_ttls, found) (ground arith),
  )
