-- ===== src/Cli/Hooks.antt =====
-- crates/ats-cli/src/hook_commands.rs: the events that the command line makes. The JSON library's
-- functions, the clock and new ids are arguments; what a command does is the payload that it sends.
use agent_term_status.Prelude.{
  ℕ, String, Bool, Option, some, none, List, if◌then◌else◌, str_eq, nat_eq, ◌≡◌, ◌↔◌, ◌⊎◌, arith,
}
use agent_term_status.Prelude.Time.{DateTime}
use agent_term_status.Core.{
  AgentState, idle, working, attention, risk, result, error, EventType, session_stopped,
  agent_working, agent_waiting, agent_completed, agent_failed, Activity, ActivityCategory,
  TerminalContext, NormalizedEvent, Uuid,
}
use agent_term_status.Core.Label
use agent_term_status.Provider.{and_then}
use agent_term_status.StateEngine.Priority.{state_from_event}

unfoldable pub state_to_event_type : AgentState → EventType
state_to_event_type working = agent_working
state_to_event_type attention = agent_waiting
state_to_event_type risk = agent_failed
state_to_event_type result = agent_completed
state_to_event_type error = agent_failed
state_to_event_type AgentState.unknown = agent_failed
state_to_event_type idle = session_stopped

abbrev or_default : Option String → String
or_default none = "default"
or_default (some id) = id

abbrev labelled : Option String → Option Activity
labelled none = none
labelled (some text) = some (record {
  category = ActivityCategory.unknown;
  label = some (Label.new text);
  tool_name = none;
  risk = none;
})

abbrev stamped : {M : Type 0} → Uuid → NormalizedEvent M → NormalizedEvent M
stamped fresh event =
    let event1 = if nat_eq event.event_id 0 then record event { event_id = fresh } else event in
    if str_eq event1.schema_version "" then record event1 { schema_version = "1.0" } else event1

module _ {M : Type 0} where
  abbrev built : String → Uuid → Option (NormalizedEvent M) → Option (NormalizedEvent M)
  built provider fresh none = none
  built provider fresh (some event) = some (stamped fresh (record event { provider = provider }))

  unfoldable pub build_manual_event :
      M
      → Uuid
      → DateTime
      → TerminalContext
      → AgentState
      → Option String
      → Option String
      → NormalizedEvent M
  build_manual_event no_metadata id now terminal state activity_label session_id = record {
    schema_version = "1.0";
    event_id = id;
    timestamp = now;
    provider = "cli";
    provider_version = none;
    event_type = state_to_event_type state;
    session = record {
      id = or_default session_id;
      parent_id = none;
      workspace = none;
      terminal = some terminal;
    };
    activity = labelled activity_label;
    metadata = no_metadata;
  }

module _ {Value M : Type 0} where
  unfoldable pub build_event :
      (Value → Option (NormalizedEvent M)) → String → Uuid → Value → Option (NormalizedEvent M)
  build_event from_value provider fresh value = built provider fresh (from_value value)

  -- What is sent to the daemon of at most 65536 bytes of the standard input, `none` where reading it
  -- failed.
  unfoldable pub run_ingest :
      (String → Option Value)
      → (Value → Option (NormalizedEvent M))
      → (NormalizedEvent M → Option (List ℕ))
      → String
      → Uuid
      → Option String
      → Option (List ℕ)
  run_ingest from_str from_value to_vec provider fresh input =
      and_then (and_then (and_then input from_str) (build_event from_value provider fresh)) to_vec

-- The event type by which the command line reports a state means that state to the engine exactly
-- for WORKING, RESULT, ERROR and IDLE, whatever the risk.
state_to_event_type_lem :
    (s : AgentState) (is_risk : Bool)
    → (state_from_event (state_to_event_type s) is_risk ≡ s)
      ↔ ((s ≡ working) ⊎ ((s ≡ result) ⊎ ((s ≡ error) ⊎ (s ≡ idle))))
unfolding state_to_event_type state_from_event
state_to_event_type_lem s is_risk = ground arith
