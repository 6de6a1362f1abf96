-- ===== src/StateEngine/Machine.antt =====
-- crates/ats-state-engine/src/machine.rs: the state of one session. A method that mutates `self`
-- returns the new record.
use agent_term_status.Prelude.{
  Bool, true, false, ◌&&◌, Option, none, some, [], not, if◌then◌else◌, ◌==◌, ℕ_eq, ltb,
}
use agent_term_status.Prelude.Int.{ltb_ℤ, eqb_ℤ}
use agent_term_status.Prelude.Time.{DateTime, Duration, no_time, signed_duration_since}
use agent_term_status.Prelude.HashMap.{HashSet, set_insert}
use agent_term_status.Core.{
  AgentState, idle, attention, error, EventType, session_failed, agent_failed, tool_failed,
  user_input_received, provider_schema_error, renderer_failed, session_timeout, Uuid,
}
use agent_term_status.Core.Equality.{AgentState_eq}
use agent_term_status.StateEngine.Priority.{
  priority, ttl_duration, state_from_event, event_is_provider_disconnect,
}

pub record SessionState : Type 0 where
  pub state : AgentState
  pub error_type : Option EventType
  pub updated_at : DateTime
  pub ttl : Duration
  pub seen_event_ids : HashSet Uuid

pub data TransitionResult : Type 0 where
  changed : AgentState → AgentState → TransitionResult
  unchanged idempotent : TransitionResult

unfoldable pub new : DateTime → SessionState
new now = record {
  state = idle;
  error_type = none;
  updated_at = now;
  ttl = no_time;
  seen_event_ids = [];
}

unfoldable pub forced_transition : EventType → Bool
forced_transition session_timeout = true
forced_transition agent_failed = true
forced_transition session_failed = true
forced_transition tool_failed = true
forced_transition provider_schema_error = true
forced_transition renderer_failed = true
forced_transition user_input_received = true
forced_transition _ = false

unfoldable pub resolve_effective_state :
    AgentState → AgentState → Option EventType → EventType → AgentState
resolve_effective_state current proposed _current_error_type proposed_event =
    if event_is_provider_disconnect proposed_event && current == attention
    then attention
    else if forced_transition proposed_event
    then proposed
    else if ltb (priority current) (priority proposed)
    then proposed
    else if proposed == current
    then current
    else current

unfoldable pub apply :
    SessionState → Uuid → EventType → Bool → DateTime → SessionState × TransitionResult
apply s event_id event_type is_risk timestamp =
    let (seen, fresh) = set_insert event_id s.seen_event_ids in
    let s1 = record s { seen_event_ids = seen } in
    let proposed = state_from_event event_type is_risk in
    let previous = s.state in
    let effective = resolve_effective_state s.state proposed s.error_type event_type in
    if not fresh
    then (s1, idempotent)
    else if effective == previous
    then (record s1 { updated_at = timestamp; ttl = ttl_duration effective }, unchanged)
    else (
      record s1 {
        state = effective;
        updated_at = timestamp;
        ttl = ttl_duration effective;
        error_type = if effective == error then some event_type else none;
      },
      changed previous effective,
    )

unfoldable pub check_ttl : SessionState → DateTime → SessionState × Option AgentState
check_ttl s now =
    if s.state == idle
    then (s, none)
    else if eqb_ℤ s.ttl no_time
    then (s, none)
    else if ltb_ℤ (signed_duration_since now s.updated_at) s.ttl
    then (s, none)
    else if s.state == AgentState.unknown
    then (record s { state = idle; ttl = no_time; updated_at = now; error_type = none }, some idle)
    else (
      record s {
        state = AgentState.unknown;
        ttl = ttl_duration AgentState.unknown;
        updated_at = now;
        error_type = none;
      },
      some AgentState.unknown,
    )

unfoldable pub extend_heartbeat : SessionState → DateTime → SessionState
extend_heartbeat s now =
    if not (s.state == idle) && not (s.state == AgentState.unknown)
    then record s { updated_at = now; ttl = ttl_duration s.state }
    else s
