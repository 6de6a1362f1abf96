-- ===== src/Tests/Claude.antt =====
-- The Claude adapter on concrete payloads, with a small JSON library.
use agent_term_status.Prelude.{
  String, Option, some, none, List, [], ◌∷◌, ok, ◌≡◌, ◌↔◌, refl, arith, if◌then◌else◌, str_eq,
  eq_iff, Result,
}
use agent_term_status.Core.{NormalizedEvent, Uuid, risk, tool_started, high, ActivityCategory}
use agent_term_status.Core.Label
use agent_term_status.Core.Label.{filter_chars, take_chars}
use agent_term_status.Provider.{Json, invalid, ProviderError}
use agent_term_status.StateEngine.Priority.{ttl_duration}
use agent_term_status.StateEngine.Engine.{StateEngine, ingest, get_state}
use agent_term_status.StateEngine.Machine.{apply}
use agent_term_status.Prelude.HashMap.{get, insert}
use agent_term_status.Claude.Risk
use agent_term_status.Claude.Risk.{classify, classify_by, level_of}
use agent_term_status.Claude.Adapter
use agent_term_status.Claude.Hooks.{hook_of, categorize_tool}
use agent_term_status.Claude.Adapter.{
  ClaudeAdapter, Process, parse, validate, event_of, get_str, derive_session, label_source,
  evaluate_risk, tool_input_command, detect_version,
}
use agent_term_status.Claude.Adapter.Parsing.{Parses, parse-Parses}
use agent_term_status.Claude.Adapter.Panics.{parse-none, IsCutNotification}
use agent_term_status.Claude.Adapter.Sessions.{ingest-parse}

mutual
  pub data JsonValue : Type 0 where
    text : String → JsonValue
    object : Fields → JsonValue

  pub data Fields : Type 0 where
    no_fields : Fields
    field : String → JsonValue → Fields → Fields

abbrev lookup : String → Fields → Option JsonValue
lookup k no_fields = none
lookup k (field j v m) = let rest = lookup k m in if str_eq j k then some v else rest

abbrev fields_of : JsonValue → Option Fields
fields_of (object m) = some m
fields_of (text s) = none

abbrev text_of : JsonValue → Option String
text_of (text s) = some s
text_of (object m) = none

pub lookup-field : (k : String) (v : JsonValue) (m : Fields) → lookup k (field k v m) ≡ some v
lookup-field k v m = ground (arith, eq_iff k k)

abbrev pub small_json : Json
small_json = record {
  Value = JsonValue;
  Map = Fields;
  as_object = fields_of;
  as_str = text_of;
  string = text;
  new = no_fields;
  get = lookup;
  insert = field;
  as_str-string = λ s. refl;
  get-insert = lookup-field;
}

abbrev show : Uuid → String
show id = "0"

abbrev lower : String → String
lower s = s

abbrev adapter : ClaudeAdapter
adapter = Adapter.new "0.1.0"

abbrev shell_process : Process
shell_process = record {
  tmux_pane = some "%3";
  tty = none;
  ssh_tty = some "/dev/pts/1";
  term_program = none;
  fallback_id = 7;
  now_utc = 1000;
  new_event_id = 8;
}

abbrev hook : String → Fields → JsonValue
hook name m = object (field "session_id" (text "s1") (field "hook_event_name" (text name) m))

abbrev force_push : JsonValue
force_push = hook "PreToolUse" (
    field "tool_name" (text "Bash")
      (field "tool_input" (object (field "command" (text "git push --force") no_fields)) no_fields))

-- 39 letters and a letter of two bytes: the 40th byte is its first.
abbrev long_message : String
long_message = "aaaaaaaaaabbbbbbbbbbccccccccccdddddddddé!"

abbrev cut_notification : JsonValue
cut_notification = hook "Notification" (field "message" (text long_message) no_fields)

abbrev result : JsonValue → Option (Result (List (NormalizedEvent Fields)) ProviderError)
result v = parse small_json show lower adapter shell_process v

-- What the adapter makes of the command.
abbrev pushed : NormalizedEvent Fields
pushed = record {
  schema_version = "1.0";
  event_id = 8;
  timestamp = 1000;
  provider = "claude";
  provider_version = none;
  event_type = tool_started;
  session = record {
    id = "s1";
    parent_id = none;
    workspace = none;
    terminal =
        some (record { tty = some "/dev/pts/1"; term_program = none; tmux_pane = some "%3" });
  };
  activity = some (record {
    category = ActivityCategory.shell;
    label = some (record { text = "git push --force" });
    tool_name = some "Bash";
    risk = some high;
  });
  metadata = no_fields;
}

force_push_test : result force_push ≡ some (ok (pushed ∷ []))
unfolding parse hook_of event_of get_str derive_session tool_input_command evaluate_risk classify
    classify_by level_of detect_version categorize_tool Label.new filter_chars take_chars
    Adapter.new Risk.new
force_push_test = refl

-- The first pattern decides, here against a more severe one that stands later in the list.
first_match_test : classify Risk.new "sudo psql -c 'DROP TABLE t'; rm -rf /" ≡ some high
unfolding classify classify_by level_of Risk.new
first_match_test = refl

not_object_test : validate small_json show (text "x") ≡ invalid "input is not a JSON object"
unfolding validate
not_object_test = refl

parse-Parses_example :
    Parses small_json show lower adapter shell_process cut_notification (result cut_notification)
parse-Parses_example = parse-Parses small_json show lower adapter shell_process cut_notification

parse-none_example :
    (result cut_notification ≡ none) ↔ IsCutNotification small_json show cut_notification
parse-none_example = parse-none small_json show lower adapter shell_process cut_notification

-- The payload meets the condition.
cut_notification_test : IsCutNotification small_json show cut_notification
unfolding get_str
cut_notification_test = (
  field "session_id" (text "s1") (
      field "hook_event_name" (text "Notification")
        (field "message" (text long_message) no_fields)),
  refl,
  refl,
  (omega arith, refl),
)

-- An engine in which another session is in RISK.
abbrev risky : StateEngine
risky = record {
  sessions =
      (
        "s2",
        record {
          state = risk;
          error_type = none;
          updated_at = 500;
          ttl = ttl_duration risk;
          seen_event_ids = [];
        },
      )
      ∷ [];
  parent_map = [];
}

still_risky_test : get_state (ingest risky pushed 2000).0 "s2" ≡ some risk
unfolding get_state ingest get insert apply
still_risky_test = refl

ingest-parse_example : get_state risky "s2" ≡ some risk
ingest-parse_example =
    ingest-parse small_json show lower adapter shell_process force_push pushed force_push_test risky
      2000 "s2" still_risky_test
