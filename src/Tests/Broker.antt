-- ===== src/Tests/Broker.antt =====
-- The broker on concrete events.
use mathlib.Core.List.Perm
use agent_term_status.Prelude.{
  ℕ, ◌≡◌, refl, Option, some, none, List, [], ◌∷◌, false, nat_eq, if◌then◌else◌, String_eq, ℕ_eq,
}
use agent_term_status.Prelude.Time.{DateTime}
use agent_term_status.Prelude.HashMap.{get, insert, keys, set_insert, contains}
use agent_term_status.Core.{NormalizedEvent, attention, working}
use agent_term_status.StateEngine.Priority.{
  priority, ttl_duration, state_from_event, event_is_provider_disconnect,
}
use agent_term_status.StateEngine.Machine
use agent_term_status.StateEngine.Machine.{
  SessionState, forced_transition, resolve_effective_state, apply,
}
use agent_term_status.StateEngine.Engine
use agent_term_status.StateEngine.Engine.{StateTransition, note_parent, ingest}
use agent_term_status.StateEngine.Valid.{new-IsValid}
use agent_term_status.Daemon.Broker
use agent_term_status.Daemon.Broker.{
  Broker, Timed, sort_by_time, ingest_all, buffer_event, push_pending, drain_session,
  drain_sessions, drain_and_process,
}
use agent_term_status.Daemon.Broker.Session.{run_session}
use agent_term_status.Daemon.Broker.Drain.{IsDrained, drain_and_process-IsDrained}
use agent_term_status.Daemon.Broker.Loop.{
  LoopState, Input, received, closed, drain_tick, dispatch, drain, unless_empty, note_event, step,
  run,
}
use agent_term_status.Daemon.Broker.Ready.{IsReady, push_pending-IsReady, run-IsReady}
use agent_term_status.Daemon.Broker.Ended.{Ended, run-Ended}
use agent_term_status.Daemon.Broker.Order.{IsQuiet, top, run_session-perm}
use agent_term_status.Tests.Data.{at, start_a, ask_a, tool_a, start_b}

abbrev Object : Type 0
Object = Unit {0}

program : Unit {0}
unfolding get insert keys set_insert contains priority ttl_duration state_from_event
    event_is_provider_disconnect Machine.new forced_transition resolve_effective_state apply
    Engine.new note_parent ingest sort_by_time ingest_all buffer_event drain_session drain_sessions
    drain_and_process Broker.new dispatch drain unless_empty note_event step run run_session
program = tt

-- A decoder for the four messages of one byte.
abbrev decode : List ℕ → Option (NormalizedEvent Object)
decode (n ∷ []) =
    if nat_eq n 1
    then some start_a
    else if nat_eq n 2
    then some ask_a
    else if nat_eq n 3
    then some tool_a
    else if nat_eq n 4
    then some start_b
    else none
decode _ = none

abbrev idle_broker : Broker Object Object
idle_broker = Broker.new Engine.new none Broker.default_config

abbrev start : LoopState Object Object
start = record { broker = idle_broker; session_info = []; world = tt }

abbrev clock : ℕ → DateTime × DateTime
clock i = (at 0, at 0)

-- Out of order, twice the same, one garbled.
abbrev inputs : List Input
inputs =
    received (2 ∷ [])
    ∷ received (1 ∷ [])
    ∷ received (4 ∷ [])
    ∷ received (9 ∷ [])
    ∷ drain_tick (at 50) clock
    ∷ received (1 ∷ [])
    ∷ closed (at 60) clock
    ∷ []

runs :
    (Engine.get_state (run decode inputs start).0.broker.state_engine "a" ≡ some attention)
    × (Engine.get_state (run decode inputs start).0.broker.state_engine "b" ≡ some working)
    × ((run decode inputs start).1 ≡ false)
unfolding program Engine.get_state
runs = (refl, refl, refl)

start-IsReady : IsReady idle_broker
unfolding program
start-IsReady = record { valid = new-IsValid; keyed = record { own = λ sid. tt } }

abbrev loaded : Broker Object Object
loaded = push_pending (push_pending idle_broker ask_a) start_a

loaded-IsReady : IsReady loaded
loaded-IsReady =
    push_pending-IsReady (push_pending idle_broker ask_a) start_a
      (push_pending-IsReady idle_broker ask_a start-IsReady)

drain_and_process-IsDrained_example : IsDrained loaded (at 50) (drain_and_process loaded (at 50)).0
drain_and_process-IsDrained_example =
    drain_and_process-IsDrained loaded (at 50) loaded-IsReady.keyed

run-IsReady_example : IsReady (run decode inputs start).0.broker
run-IsReady_example = run-IsReady decode inputs start start-IsReady

run-Ended_example : Ended decode inputs start (run decode inputs start).0.broker
run-Ended_example = run-Ended decode inputs start start-IsReady runs.2

abbrev queue : Timed Object
queue = (at 20, ask_a) ∷ (at 15, tool_a) ∷ []

abbrev other_queue : Timed Object
other_queue = (at 15, tool_a) ∷ (at 20, ask_a) ∷ []

abbrev fresh : SessionState
fresh = Machine.new (at 0)

queue-IsQuiet : IsQuiet fresh.seen_event_ids queue
unfolding program
queue-IsQuiet = (refl, refl, λ e. cc e, (refl, refl, λ e. cc e, tt))

other_queue-IsQuiet : IsQuiet fresh.seen_event_ids other_queue
unfolding program
other_queue-IsQuiet = (refl, refl, λ e. cc e, (refl, refl, λ e. cc e, tt))

run_session-perm_example :
    (a b : SessionState) × (run_session (at 50) (some fresh) queue ≡ some a)
    × (run_session (at 50) (some fresh) other_queue ≡ some b)
    × (a.state ≡ b.state)
    × (priority a.state ≡ top (priority fresh.state) queue)
run_session-perm_example =
    run_session-perm (at 50) fresh queue other_queue queue-IsQuiet other_queue-IsQuiet
      (Perm.swap (at 15, tool_a) (at 20, ask_a) [])
