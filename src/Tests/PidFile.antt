-- ===== src/Tests/PidFile.antt =====
-- The PID file, and two daemons that start at one time.
use agent_term_status.Prelude.{
  ℕ, String, Option, true, some, none, List, Result, ok, err, [], ◌∷◌, ◌≡◌, ◌≢◌, refl,
  if◌then◌else◌, str_eq, nat_eq, arith,
}
use agent_term_status.Prelude.Int.{ℤ, pos, negsuc}
use agent_term_status.Daemon.PidFile.{
  Disk, Killed, alive, other, creating, acquired, refused, already_running, step, run, acquire,
  process_alive, is_live,
}
use agent_term_status.Prelude.HashMap.{get, insert, remove}
use agent_term_status.Daemon.Paths.{DaemonPaths, ensure_parent_dirs}
use agent_term_status.Daemon.Server.Bind.{bind}
use agent_term_status.Daemon.Startup.{startup, init_logging}
use agent_term_status.Daemon.Startup.Second.{IsUntouched, IsConfined, startup-IsUntouched}
use agent_term_status.Host.{Host, Run, Stop, message, exit, done, PathBuf}
use agent_term_status.Host.Files.{
  call, create_dir_all, set_permissions, mode, remove_file, bind_socket, put_file,
}
use agent_term_status.Host.Files.Effects.{put_file-text}
use agent_term_status.Host.Paths.{◌/◌, parent, same_path_iff}
use agent_term_status.Host.Triples.{After}
use agent_term_status.Renderers.Process.{exited}
use agent_term_status.Daemon.PidFile.Outcomes.{
  idle_step, alone, IsFinal, Alone, acquire-IsFinal, acquire-Alone,
}

-- Process 7 and process 8 live.
abbrev kill : ℤ → Killed
kill (pos n) = if nat_eq n 7 then alive else if nat_eq n 8 then alive else other 3
kill (negsuc n) = other 3

abbrev parse : String → Option ℤ
parse s = if str_eq s "7" then some (pos 7) else if str_eq s "8" then some (pos 8) else none

abbrev show : ℤ → String
show (pos n) = if nat_eq n 7 then "7" else "8"
show (negsuc n) = "-"

abbrev empty : Disk
empty = record { file = none; next = 0 }

abbrev taken : Disk
taken = record { file = some (record { inode = 0; contents = "8" }); next = 1 }

held_test : acquire kill parse show (pos 7) alone taken ≡ (refused (already_running (pos 8)), taken)
unfolding acquire run step process_alive
held_test = refl

-- Process 8 starts between the creation of the file by process 7 and its write: it reads an empty
-- file, takes it for a stale one, and makes its own.
abbrev others : Disk → Disk
others d = (acquire kill parse show (pos 8) alone d).1

after_create : Disk
unfolding step
after_create = (step kill parse show (pos 7) none (creating 3) empty).1

both_test_8 : (acquire kill parse show (pos 8) alone after_create).0 ≡ acquired
unfolding after_create acquire run step process_alive
both_test_8 = refl

both_test_7 : (acquire kill parse show (pos 7) (idle_step ∷ (none, others) ∷ []) empty).0 ≡ acquired
unfolding acquire run step process_alive
both_test_7 = refl

live_test : is_live kill parse show (pos 7) (pos 8) ≡ true
unfolding process_alive
live_test = refl

acquire-IsFinal_example : IsFinal (acquire kill parse show (pos 7) alone taken).0
acquire-IsFinal_example = acquire-IsFinal kill parse show (pos 7) alone taken (omega arith)

acquire-Alone_example :
    Alone kill parse show (pos 7) taken (acquire kill parse show (pos 7) alone taken)
acquire-Alone_example = acquire-Alone kill parse show (pos 7) taken

abbrev paths : DaemonPaths
paths = record {
  socket_path = "/run" ∷ "status.sock" ∷ [];
  pid_path = "/run" ∷ "status.pid" ∷ [];
  logs_dir = "/run" ∷ "logs" ∷ [];
  owns_parent_dir = true;
}

-- A running daemon's files, and what another reader prints.
abbrev host : String → Host
host content = record {
  files =
      ("/run" ∷ "status.pid" ∷ [], record { contents = content; mode = 420 })
      ∷ ("/run" ∷ "status.sock" ∷ [], record { contents = ""; mode = 384 })
      ∷ [];
  dirs = ("/run" ∷ [], 448) ∷ [];
  file_mode = 420;
  dir_mode = 493;
  calls = 0;
  verdict = λ n. done;
  printed = [];
  signalled = [];
  outside = record { log = []; exit = λ n. exited true (some "") "" };
}

-- The log's file is made where it stands.
abbrev daily : PathBuf → String → Run (Unit {0})
daily [] name h = (h, err (exit 101))
daily (x ∷ xs) name h = (put_file ((x ∷ xs) / name) "" h, ok tt)

parent-join : (x : String) (xs : PathBuf) (name : String) → parent (x ∷ xs / name) ≡ some (x ∷ xs)
parent-join x [] name = refl
parent-join x (y ∷ ys) name = rw (parent-join y ys name) refl

daily-IsConfined : IsConfined daily
daily-IsConfined [] name h = λ q apart. refl
daily-IsConfined (x ∷ xs) name h = λ q apart. ground (
  arith,
  put_file-text ((x ∷ xs) / name) q "" h,
  same_path_iff ((x ∷ xs) / name) q,
  parent-join x xs name,
  apart,
)

abbrev no_faults : List (Option ℕ)
no_faults = none ∷ none ∷ none ∷ none ∷ none ∷ none ∷ []

abbrev start : String → Host × Result PathBuf Stop
start content =
    startup kill parse show (pos 7) (λ e. "held") (λ n. "") (λ n. "") daily no_faults paths
      (host content)

second_test : (start "8").1 ≡ err (message "held")
unfolding startup init_logging ensure_parent_dirs create_dir_all set_permissions call acquire run
    step process_alive get insert
second_test = refl

first_test : (start "9").1 ≡ ok paths.socket_path
unfolding startup init_logging ensure_parent_dirs create_dir_all set_permissions call acquire run
    step process_alive get insert bind mode remove_file bind_socket remove
first_test = refl

apart_test : parent paths.pid_path ≢ some paths.logs_dir
apart_test e = cc e

startup-IsUntouched_example :
    After (λ socket h. ⊥) (λ s. IsUntouched paths.logs_dir (host "8")) (start "8")
unfolding get
startup-IsUntouched_example =
    startup-IsUntouched kill parse show (pos 7) (λ e. "held") (λ n. "") (λ n. "") daily (host "8")
      no_faults paths "8" (pos 8) refl refl live_test apart_test daily-IsConfined
