-- ===== src/Cli/Manual.antt =====
-- `run_event` and `run_reset` of crates/ats-cli/src/hook_commands.rs. Sending is an argument: whether
-- the daemon took the payload. So are serde's functions, the clock, a new id and the environment.
use agent_term_status.Prelude.{ℕ, String, Bool, Option, some, none, List, if◌then◌else◌, ◌⧺◌}
use agent_term_status.Prelude.Time.{DateTime}
use agent_term_status.Core.{
  AgentState, EventType, ActivityCategory, TerminalContext, NormalizedEvent, Uuid,
}
use agent_term_status.Core.Label
use agent_term_status.Cli.EventPrototype
use agent_term_status.Cli.Hooks.{build_manual_event}
use agent_term_status.Cli.Themes.{state_name}
use agent_term_status.Host.{Run, pure, println, eprintln}

module _ {M : Type 0} (no_metadata : M) (id : Uuid) (now : DateTime)
    (to_vec : NormalizedEvent M → Option (List ℕ)) (sends : List ℕ → Bool) where
  unfoldable pub reset_event : String → NormalizedEvent M
  reset_event target = record {
    schema_version = "1.0";
    event_id = id;
    timestamp = now;
    provider = "cli";
    provider_version = none;
    event_type = EventType.session_timeout;
    session = record { id = target; parent_id = none; workspace = none; terminal = none };
    activity = some (record {
      category = ActivityCategory.unknown;
      label = some (Label.new "reset");
      tool_name = none;
      risk = none;
    });
    metadata = no_metadata;
  }

  abbrev reset_sent : String → Option (List ℕ) → Run (Unit {0})
  reset_sent target none = pure tt
  reset_sent target (some payload) =
      if sends payload
      then println ("Reset sent: " ⧺ target)
      else eprintln "Daemon not reachable. Nothing to reset."

  abbrev reset_of : Option String → Run (Unit {0})
  reset_of none = eprintln "Specify --all or --session <id>"
  reset_of (some target) = reset_sent target (to_vec (reset_event target))

  -- The target of `--all` is a session of that name.
  unfoldable pub run_reset : Bool → Option String → Run (Unit {0})
  run_reset all session_id = reset_of (if all then some "all" else session_id)

  module _ (from_name : String → Option AgentState) (debug trim to_lowercase : String → String)
      (terminal : TerminalContext) where
    -- The label is not drawn.
    unfoldable pub run_standalone_render : AgentState → Run (Unit {0})
    run_standalone_render state =
        EventPrototype.run from_name debug trim terminal.tmux_pane (state_name state)

    abbrev event_sent : AgentState → Option (List ℕ) → Run (Unit {0})
    event_sent state none = pure tt
    event_sent state (some payload) = if sends payload then pure tt else run_standalone_render state

    abbrev event_of : String → Option String → Option String → Option AgentState → Run (Unit {0})
    event_of state_str label session_id none = eprintln ("unknown state: " ⧺ state_str)
    event_of state_str label session_id (some state) =
        event_sent state
          (to_vec (build_manual_event no_metadata id now terminal state label session_id))

    unfoldable pub run_event : String → Option String → Option String → Run (Unit {0})
    run_event state_str label session_id =
        event_of state_str label session_id (from_name (to_lowercase state_str))
