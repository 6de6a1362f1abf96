-- ===== src/Claude/Adapter.antt =====
-- crates/ats-provider-claude/src/adapter.rs. The environment's variables, the clock and the new ids
-- are arguments; the JSON library, `str::to_lowercase` and the `Display` of a UUID are parameters.
pub mod Parsing
pub mod Panics
pub mod Sessions
use Prim.Native.String.{len}
use text.Mathlib.Text.{get?}
use agent_term_status.Prelude.{
  ℕ, String, Bool, true, false, ◌||◌, Option, some, none, List, [], ◌∷◌, Result, ok, err,
  if◌then◌else◌, str_eq, leb, is_some, any, ◌⧺◌, not,
}
use agent_term_status.Prelude.Time.{DateTime}
use agent_term_status.Core.{
  EventType, session_started, session_stopped, agent_started, agent_completed, tool_started,
  tool_completed, tool_failed, user_input_required, user_approval_required, provider_schema_error,
  Activity, ActivityCategory, thinking, reading, editing, shell, network, ActivityLabel, RiskLevel,
  SessionIdentity, NormalizedEvent, Uuid, schema_version_1,
}
use agent_term_status.Core.Label
use agent_term_status.Provider.{
  Json, ProviderError, missing_required_field, malformed, ValidationResult, valid, invalid,
  and_then, ProviderAdapter,
}
use agent_term_status.Claude.Hooks.{
  Hook, session_start, user_prompt_submit, pre_tool_use, post_tool_use, post_tool_use_failure,
  notification, stop, session_end, unknown, hook_of, categorize_tool, valid_hooks,
  classify_notification,
}
use agent_term_status.Claude.Risk
use agent_term_status.Claude.Risk.{RiskClassifier, classify, contains}

abbrev pub provider_name : String
provider_name = "claude"

pub record ClaudeAdapter : Type 0 where
  pub version : String
  pub risk_classifier : RiskClassifier

unfoldable pub new : String → ClaudeAdapter
new version = record { version = version; risk_classifier = Risk.new }

-- What the functions read from the process: variables, the clock, and a new id for each call of
-- `new_event_id`, the one of `derive_session` first.
pub record Process : Type 0 where
  pub tmux_pane : Option String
  pub tty : Option String
  pub ssh_tty : Option String
  pub term_program : Option String
  pub fallback_id : Uuid
  pub now_utc : DateTime
  pub new_event_id : Uuid

abbrev pub or_else : Option String → Option String → Option String
or_else none o = o
or_else (some s) o = some s

abbrev risk_of : ClaudeAdapter → String → Option String → Option RiskLevel
risk_of adapter t none = none
risk_of adapter t (some command) =
    if str_eq t "Bash" then classify adapter.risk_classifier command else none

unfoldable pub evaluate_risk : ClaudeAdapter → Option String → Option String → Option RiskLevel
evaluate_risk adapter none command = none
evaluate_risk adapter (some tool_name) command = risk_of adapter tool_name command

abbrev pub map_label : Option String → Option ActivityLabel
map_label none = none
map_label (some s) = some (Label.new s)

abbrev pub unwrap_or : String → Option String → String
unwrap_or d none = d
unwrap_or d (some s) = s

abbrev default_session : SessionIdentity
default_session = record { id = ""; parent_id = none; workspace = none; terminal = none }

module _ (json : Json) (show_uuid : Uuid → String) where
  open json use {Value, Map, as_object, as_str, string, get, insert}

  -- `obj.get(key).and_then(|v| v.as_str())`
  unfoldable pub get_str : String → Map → Option String
  get_str key obj = and_then (get key obj) as_str

  unfoldable pub tool_input_command : Map → Option String
  unfolding get_str
  tool_input_command obj =
      and_then (and_then (get "tool_input" obj) as_object) (λ ti. get_str "command" ti)

  unfoldable pub detect_version : Map → Option String
  detect_version obj = get_str "claude_code_version" obj

  abbrev id_or : Option String → Uuid → String
  id_or none fallback = "unknown-" ⧺ show_uuid fallback
  id_or (some id) fallback = id

  abbrev session_of : Process → Option Map → SessionIdentity
  session_of process none = default_session
  session_of process (some obj) = record {
    id = id_or (get_str "session_id" obj) process.fallback_id;
    parent_id = none;
    workspace = get_str "cwd" obj;
    terminal = some (record {
      tty = or_else process.tty process.ssh_tty;
      term_program = process.term_program;
      tmux_pane = process.tmux_pane;
    });
  }

  unfoldable pub derive_session : Process → Value → SessionIdentity
  derive_session process input = session_of process (as_object input)

  abbrev tool_activity : Option String → Option String → Option RiskLevel → Activity
  tool_activity tool_name command risk = record {
    category = categorize_tool tool_name;
    label = map_label command;
    tool_name = tool_name;
    risk = risk;
  }

  -- `message` where it has at most 40 bytes, else its first 40: `none` where the 40th byte is not the
  -- end of a character, since `&message[..40]` panics there.
  unfoldable pub label_source : String → Option String
  label_source message = if leb (len message) 40 then some message else get? message 0 40

  abbrev notification_activity : String → Activity
  notification_activity text = record {
    category = ActivityCategory.unknown;
    label = some (Label.new text);
    tool_name = none;
    risk = none;
  }

  module _ (to_lowercase : String → String) (adapter : ClaudeAdapter) (process : Process) where
    -- The event that every arm builds, from what differs between them.
    abbrev pub event :
        Map → SessionIdentity → EventType → Option Activity → Map → NormalizedEvent Map
    event obj session event_type activity metadata = record {
      schema_version = schema_version_1;
      event_id = process.new_event_id;
      timestamp = process.now_utc;
      provider = provider_name;
      provider_version = detect_version obj;
      event_type = event_type;
      session = session;
      activity = activity;
      metadata = metadata;
    }

    abbrev one : NormalizedEvent Map → Option (Result (List (NormalizedEvent Map)) ProviderError)
    one e = some (ok (e ∷ []))

    abbrev pub notified :
        Map
        → SessionIdentity
        → String
        → Option String
        → Option (Result (List (NormalizedEvent Map)) ProviderError)
    notified obj session message none = none
    notified obj session message (some text) = one (
        event obj session (classify_notification to_lowercase message)
          (some (notification_activity text)) json.new)

    unfoldable pub event_of :
        Map
        → SessionIdentity
        → String
        → Hook
        → Option (Result (List (NormalizedEvent Map)) ProviderError)
    event_of obj session hook_type session_start =
        one (event obj session session_started none json.new)
    event_of obj session hook_type user_prompt_submit =
        one (event obj session agent_started none json.new)
    event_of obj session hook_type pre_tool_use =
        let tool_name = get_str "tool_name" obj in
        let command = tool_input_command obj in
        one (
          event obj session tool_started
            (some (tool_activity tool_name command (evaluate_risk adapter tool_name command)))
            json.new)
    event_of obj session hook_type post_tool_use = one (
        event obj session tool_completed
          (some (tool_activity (get_str "tool_name" obj) (tool_input_command obj) none)) json.new)
    event_of obj session hook_type post_tool_use_failure = one (
        event obj session tool_failed
          (some (tool_activity (get_str "tool_name" obj) (tool_input_command obj) none)) json.new)
    event_of obj session hook_type notification =
        let message = unwrap_or "" (get_str "message" obj) in
        notified obj session message (label_source message)
    event_of obj session hook_type stop = one (event obj session agent_completed none json.new)
    event_of obj session hook_type session_end =
        one (event obj session session_stopped none json.new)
    event_of obj session hook_type unknown = one (
        event obj session provider_schema_error none
          (insert "reason" (string ("unknown hook_event_name: " ⧺ hook_type)) json.new))

    abbrev with_hook :
        Value → Map → Option String → Option (Result (List (NormalizedEvent Map)) ProviderError)
    with_hook input obj none = some (err (missing_required_field "hook_event_name"))
    with_hook input obj (some hook_type) =
        event_of obj (derive_session process input) hook_type (hook_of hook_type)

    abbrev with_object :
        Value → Option Map → Option (Result (List (NormalizedEvent Map)) ProviderError)
    with_object input none = some (err (malformed "input is not a JSON object"))
    with_object input (some obj) = with_hook input obj (get_str "hook_event_name" obj)

    unfoldable pub parse : Value → Option (Result (List (NormalizedEvent Map)) ProviderError)
    parse input = with_object input (as_object input)

  abbrev judged : Option String → ValidationResult
  judged none = invalid "hook_event_name is not a string"
  judged (some hook_type) =
      if any (str_eq hook_type) valid_hooks
      then valid
      else invalid ("unknown hook_event_name: " ⧺ hook_type)

  abbrev judge : Option Map → ValidationResult
  judge none = invalid "input is not a JSON object"
  judge (some obj) =
      if not (is_some (get "hook_event_name" obj))
      then invalid "missing hook_event_name"
      else judged (get_str "hook_event_name" obj)

  unfoldable pub validate : Value → ValidationResult
  validate input = judge (as_object input)

  unfoldable pub provider_adapter :
      (String → String) → ClaudeAdapter → Process → ProviderAdapter json
  provider_adapter to_lowercase adapter process = record {
    name = provider_name;
    version = adapter.version;
    parse = parse to_lowercase adapter process;
    validate = validate;
    derive_session = derive_session process;
  }
