-- ===== src/Tests/Data.antt =====
-- Sessions and events for the tests.
use agent_term_status.Prelude.{ℕ, ◌+◌, ◌*◌, Option, some, none, String}
use agent_term_status.Prelude.Time.{DateTime, nanos_per_second}
use agent_term_status.Core.{
  NormalizedEvent, EventType, agent_started, user_input_required, tool_started,
}
use agent_term_status.StateEngine.Engine
use agent_term_status.StateEngine.Engine.{StateEngine, ingest}

-- A second, counted from a day after the origin.
abbrev pub at : ℕ → DateTime
at n = 86400 * nanos_per_second + n * nanos_per_second

abbrev pub event : ℕ → ℕ → EventType → String → Option String → NormalizedEvent (Unit {0})
event id t ty sid parent = record {
  schema_version = "1.0";
  event_id = id;
  timestamp = at t;
  provider = "test";
  provider_version = none;
  event_type = ty;
  session = record { id = sid; parent_id = parent; workspace = none; terminal = none };
  activity = none;
  metadata = tt;
}

abbrev pub start_a : NormalizedEvent (Unit {0})
start_a = event 1 10 agent_started "a" (some "p")

abbrev pub ask_a : NormalizedEvent (Unit {0})
ask_a = event 2 20 user_input_required "a" (some "p")

abbrev pub tool_a : NormalizedEvent (Unit {0})
tool_a = event 3 15 tool_started "a" (some "p")

abbrev pub start_b : NormalizedEvent (Unit {0})
start_b = event 4 12 agent_started "b" none

-- One session at work, a child of `p`.
abbrev pub one : StateEngine
one = (ingest Engine.new start_a (at 11)).0
