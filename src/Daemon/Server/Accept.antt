-- ===== src/Daemon/Server/Accept.antt =====
-- `SocketServer::run` of crates/ats-daemon/src/server.rs as a step for each event that the loop, the
-- tasks that it spawns and the shutdown wait for. A connection is a number; a task holds its permit
-- until it ends.
pub mod Permits
pub mod Leaving
pub mod Stopping
use Prim.Native.String
use agent_term_status.Prelude.{
  ℕ, zero, suc, ◌+◌, ◌-◌, ◌*◌, Bool, true, false, Option, some, none, List, [], ◌∷◌, ◌++◌, nat_eq,
  length, is_empty, if◌then◌else◌,
}

pub record ServerConfig : Type 0 where
  pub max_connections : ℕ
  pub read_timeout : ℕ
  pub shutdown_grace : ℕ

-- Durations in milliseconds.
unfoldable pub default_server_config : ServerConfig
default_server_config = record {
  max_connections = 64;
  read_timeout = 10 * 1000;
  shutdown_grace = 5 * 1000;
}

pub data Phase : Type 0 where
  accepting draining returning stopped : Phase

-- The semaphore's permits, the tasks that run, those that ended and are not joined yet, the
-- connections that were closed at once, whether the tasks that run have been told to abort, and
-- whether the socket's file is there.
pub record Serving : Type 0 where
  pub phase : Phase
  pub permits : ℕ
  pub running : List ℕ
  pub finished : ℕ
  pub turned_away : List ℕ
  pub aborted : Bool
  pub socket_file : Bool

-- The sender of `shutdown` is gone, or has sent a value; a client connects, or `accept` fails; a
-- task ends; `join_next` gives a task that ended; the grace period elapses; the guard's `remove_file`
-- is done, or fails.
pub data Event : Type 0 where
  shutdown_dropped accept_failed joined grace_elapsed : Event
  shutdown_changed : Bool → Event
  accepted : ℕ → Event
  task_ended : ℕ → Event
  unlinked : Bool → Event

unfoldable pub serve : ServerConfig → Serving
serve config = record {
  phase = accepting;
  permits = config.max_connections;
  running = [];
  finished = 0;
  turned_away = [];
  aborted = false;
  socket_file = true;
}

-- The tasks without one of them, and how many permits that gives back.
unfoldable pub ended : ℕ → List ℕ → List ℕ × ℕ
ended c [] = ([], 0)
ended c (d ∷ ds) = let (rest, n) = ended c ds in if nat_eq c d then (ds, 1) else (d ∷ rest, n)

-- The function is about to return, with the drop of the guard left.
abbrev pub returned : Serving → Serving
returned s = record s { phase = returning }

-- `abort_all`: nobody waits for the tasks, which end by themselves and give their permits back then.
abbrev pub abort_all : Serving → Serving
abort_all s = record s { aborted = true }

-- `while connections.join_next().await.is_some()` is over where no task is left.
abbrev pub drained : Serving → Serving
drained s = if nat_eq s.finished 0 then (if is_empty s.running then returned s else s) else s

abbrev pub admit : ℕ → ℕ → Serving → Serving
admit c zero s = record s { turned_away = s.turned_away ++ c ∷ [] }
admit c (suc n) s = record s { permits = n; running = s.running ++ c ∷ [] }

abbrev pub task_end : ℕ → Serving → Serving
task_end c s =
    let (rest, n) = ended c s.running in
    record s { running = rest; permits = s.permits + n; finished = s.finished + n }

-- The loop.
abbrev pub accepting_step : Event → Serving → Serving
accepting_step shutdown_dropped s = drained (record s { phase = draining })
accepting_step (shutdown_changed true) s = drained (record s { phase = draining })
accepting_step (shutdown_changed false) s = s
accepting_step accept_failed s = s
accepting_step (accepted c) s = admit c s.permits s
accepting_step joined s = record s { finished = s.finished - 1 }
accepting_step (task_ended c) s = task_end c s
accepting_step grace_elapsed s = s
accepting_step (unlinked ok_) s = s

-- What follows it: the listener is gone.
abbrev pub draining_step : Event → Serving → Serving
draining_step joined s = drained (record s { finished = s.finished - 1 })
draining_step (task_ended c) s = task_end c s
draining_step grace_elapsed s = returned (abort_all s)
draining_step shutdown_dropped s = s
draining_step (shutdown_changed b) s = s
draining_step accept_failed s = s
draining_step (accepted c) s = s
draining_step (unlinked ok_) s = s

-- A task that is still there ends.
abbrev pub ending_step : Event → Serving → Serving
ending_step (task_ended c) s = task_end c s
ending_step joined s = s
ending_step grace_elapsed s = s
ending_step shutdown_dropped s = s
ending_step (shutdown_changed b) s = s
ending_step accept_failed s = s
ending_step (accepted c) s = s
ending_step (unlinked ok_) s = s

-- `drop` of the guard; a failure of it is ignored.
abbrev pub dropping_step : Event → Serving → Serving
dropping_step (unlinked true) s = record s { phase = stopped; socket_file = false }
dropping_step (unlinked false) s = record s { phase = stopped }
dropping_step (task_ended c) s = ending_step (task_ended c) s
dropping_step joined s = s
dropping_step grace_elapsed s = s
dropping_step shutdown_dropped s = s
dropping_step (shutdown_changed b) s = s
dropping_step accept_failed s = s
dropping_step (accepted c) s = s

abbrev pub step_in : Phase → Event → Serving → Serving
step_in accepting e s = accepting_step e s
step_in draining e s = draining_step e s
step_in returning e s = dropping_step e s
step_in stopped e s = ending_step e s

unfoldable pub step : Event → Serving → Serving
unfolding ended
step event s = step_in s.phase event s

unfoldable pub run : List Event → Serving → Serving
run [] s = s
run (e ∷ es) s = run es (step e s)
