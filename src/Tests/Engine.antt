-- ===== src/Tests/Engine.antt =====
-- The state engine on concrete sessions.
use agent_term_status.Prelude.{◌≡◌, refl, some, none, false, String_eq, ℕ_eq}
use agent_term_status.Prelude.HashMap.{get, insert, remove, set_insert, contains}
use agent_term_status.Core.{AgentState, working, attention, agent_started}
use agent_term_status.StateEngine.Priority.{
  priority, ttl_duration, state_from_event, event_is_provider_disconnect,
}
use agent_term_status.StateEngine.Machine
use agent_term_status.StateEngine.Machine.{
  SessionState, forced_transition, resolve_effective_state, apply, check_ttl,
}
use agent_term_status.StateEngine.Engine
use agent_term_status.StateEngine.Engine.{
  StateEngine, StateTransition, note_parent, ingest, expire_loop, expire_ttls, remove_session,
  remove_sessions, get_state, children_states, max_by_priority, get_aggregated_state,
}
use agent_term_status.StateEngine.Transitions.{Applied, apply-Applied}
use agent_term_status.StateEngine.Session.{IsConsistent}
use agent_term_status.StateEngine.Ingest.{ingest_twice, after}
use agent_term_status.StateEngine.Sweep.{sweep, get-expire_ttls}
use agent_term_status.StateEngine.Aggregate.{IsMostUrgent, aggregated-IsMostUrgent}
use agent_term_status.StateEngine.Valid.{IsValid, new-IsValid, ingest-IsValid}
use agent_term_status.Tests.Data.{at, start_a, ask_a, one}

-- What a test computes with.
program : Unit {0}
unfolding get insert remove set_insert contains priority ttl_duration state_from_event
    event_is_provider_disconnect Machine.new forced_transition resolve_effective_state apply
    check_ttl Engine.new note_parent ingest expire_loop expire_ttls remove_session remove_sessions
    get_state children_states max_by_priority get_aggregated_state
program = tt

started : get_state one "a" ≡ some working
unfolding program
started = refl

asked : get_state (ingest one ask_a (at 21)).0 "a" ≡ some attention
unfolding program
asked = refl

abbrev new_session : SessionState
new_session = Machine.new (at 0)

apply-Applied_example :
    Applied new_session 1 agent_started false
      (at 1)
      (apply new_session 1 agent_started false (at 1)).0
apply-Applied_example =
    apply-Applied new_session 1 agent_started false (at 1) (unfold Machine.new contains in refl)

ingest_twice_example :
    let eng = (ingest one ask_a (at 21)).0 in ingest eng ask_a (at 30) ≡ (eng, none)
ingest_twice_example = ingest_twice one ask_a (at 21) (at 30)

one-IsValid : IsValid one
one-IsValid = ingest-IsValid Engine.new start_a (at 11) new-IsValid

abbrev working_a : SessionState
working_a = after Engine.new start_a (at 11)

get-expire_ttls_example :
    get "a" (expire_ttls one (at 5000)).0.sessions
    ≡ sweep one.parent_map "a" (at 5000) (get "a" one.sessions)
get-expire_ttls_example = get-expire_ttls one (at 5000) "a" one-IsValid.distinct

-- WORKING for 30 minutes, then UNKNOWN, then gone.
life_of_a :
    (get_state (expire_ttls one (at 1809)).0 "a" ≡ some working)
    × (get_state (expire_ttls one (at 1810)).0 "a" ≡ some AgentState.unknown)
    × (get_state (expire_ttls (expire_ttls one (at 1810)).0 (at 1840)).0 "a" ≡ none)
unfolding program
life_of_a = (refl, refl, refl)

aggregated-IsMostUrgent_example : IsMostUrgent one "p" one-IsValid.distinct working
unfolding program
aggregated-IsMostUrgent_example = aggregated-IsMostUrgent one "p" one-IsValid.distinct working refl

working_a-IsConsistent : IsConsistent working_a
working_a-IsConsistent = one-IsValid.consistent "a" working_a (unfold program in refl)
