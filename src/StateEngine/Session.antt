-- ===== src/StateEngine/Session.antt =====
-- The invariant of one session, and the operations of crates/ats-state-engine/src/machine.rs.
use agent_term_status.Prelude.{◌≡◌, Bool, true, false, arith, Option, ◌≢◌, some, none, is_some}
use agent_term_status.Prelude.Time.{DateTime}
use agent_term_status.Prelude.HashMap.{set_insert}
use agent_term_status.Core.{AgentState, error, EventType, Uuid}
use agent_term_status.StateEngine.Priority.{
  priority, state_from_event, event_is_provider_disconnect, ttl_duration,
}
use agent_term_status.StateEngine.Machine.{
  SessionState, new, forced_transition, resolve_effective_state, apply, check_ttl, extend_heartbeat,
}

abbrev pub IsErrorCause : Option EventType → Type 0
IsErrorCause none = Unit
IsErrorCause (some e) = (state_from_event e false ≡ error) × (state_from_event e true ≡ error)

pub record IsConsistent (s : SessionState) : Type 0 where
  pub ttl_matches : s.ttl ≡ ttl_duration s.state
  pub error_recorded : s.state ≡ error → is_some s.error_type ≡ true
  pub error_cleared : s.state ≢ error → s.error_type ≡ none
  pub error_cause : IsErrorCause s.error_type

pub new-IsConsistent : (now : DateTime) → IsConsistent (new now)
unfolding new ttl_duration
new-IsConsistent now = ground arith

resolve_error :
    (current : AgentState) (e : Option EventType) (ty : EventType) (is_risk : Bool)
    → current ≢ error
    → resolve_effective_state current (state_from_event ty is_risk) e ty ≡ error
    → IsErrorCause (some ty)
unfolding resolve_effective_state forced_transition event_is_provider_disconnect priority
    state_from_event
resolve_error current e ty is_risk n h = ground arith

pub apply-IsConsistent :
    (s : SessionState) (id : Uuid) (ty : EventType) (is_risk : Bool) (t : DateTime)
    → IsConsistent s
    → IsConsistent (apply s id ty is_risk t).0
unfolding apply set_insert
apply-IsConsistent s id ty is_risk t h =
    ground (arith, resolve_error s.state s.error_type ty is_risk)

pub check_ttl-IsConsistent :
    (s : SessionState) (now : DateTime) → IsConsistent s → IsConsistent (check_ttl s now).0
unfolding check_ttl ttl_duration
check_ttl-IsConsistent s now h = ground arith

pub extend_heartbeat-IsConsistent :
    (s : SessionState) (now : DateTime) → IsConsistent s → IsConsistent (extend_heartbeat s now)
unfolding extend_heartbeat
extend_heartbeat-IsConsistent s now h = ground arith
