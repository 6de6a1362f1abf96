-- ===== src/StateEngine/Priority.antt =====
-- crates/ats-state-engine/src/priority.rs
use agent_term_status.Prelude.{ℕ, Bool, true, false, if◌then◌else◌}
use agent_term_status.Prelude.Time.{Duration, seconds, minutes, hours, no_time}
use agent_term_status.Core.{
  AgentState, idle, working, attention, risk, result, error, EventType, session_started,
  session_stopped, session_failed, session_heartbeat, agent_started, agent_working, agent_waiting,
  agent_completed, agent_failed, tool_started, tool_completed, tool_failed, user_input_required,
  user_approval_required, user_input_received, provider_disconnected, provider_schema_error,
  renderer_failed, session_timeout,
}

unfoldable pub priority : AgentState → ℕ
priority risk = 7
priority attention = 6
priority error = 5
priority result = 4
priority working = 3
priority idle = 2
priority AgentState.unknown = 1

unfoldable pub ttl_duration : AgentState → Duration
ttl_duration working = minutes 30
ttl_duration attention = hours 4
ttl_duration risk = minutes 30
ttl_duration result = seconds 8
ttl_duration error = seconds 60
ttl_duration AgentState.unknown = seconds 30
ttl_duration idle = no_time

unfoldable pub state_from_event : EventType → Bool → AgentState
state_from_event agent_started is_risk = working
state_from_event agent_working is_risk = working
state_from_event agent_waiting is_risk = working
state_from_event agent_completed is_risk = result
state_from_event agent_failed is_risk = error
state_from_event session_started is_risk = idle
state_from_event session_stopped is_risk = idle
state_from_event session_failed is_risk = error
state_from_event session_heartbeat is_risk = working
state_from_event session_timeout is_risk = AgentState.unknown
state_from_event tool_started is_risk = working
state_from_event tool_completed is_risk = working
state_from_event tool_failed is_risk = error
state_from_event user_input_required is_risk = attention
state_from_event user_approval_required is_risk = if is_risk then risk else attention
state_from_event user_input_received is_risk = working
state_from_event provider_disconnected is_risk = error
state_from_event provider_schema_error is_risk = error
state_from_event renderer_failed is_risk = error

unfoldable pub event_is_provider_disconnect : EventType → Bool
event_is_provider_disconnect provider_disconnected = true
event_is_provider_disconnect _ = false
