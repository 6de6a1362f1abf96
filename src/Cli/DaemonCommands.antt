-- ===== src/Cli/DaemonCommands.antt =====
-- crates/ats-cli/src/daemon_commands.rs: starting and stopping the daemon, and its status. A content
-- parsed with its blanks trimmed, `kill`, the socket and what a spawned process does are parameters.
pub mod Signals
pub mod Probing
use Prim.Native.String
use agent_term_status.Prelude.{
  ℕ, zero, suc, String, Bool, true, false, ◌&&◌, Option, some, none, List, [], ◌∷◌, ◌++◌, Result,
  ok, err, nat_eq, not, if◌then◌else◌, ◌⧺◌,
}
use agent_term_status.Prelude.Int.{ℤ, pos, ltb_ℤ}
use agent_term_status.Daemon.Paths.{DaemonPaths}
use agent_term_status.Daemon.PidFile.{Killed, alive, not_permitted, other}
use agent_term_status.Host
use agent_term_status.Host.{
  PathBuf, Host, Run, Stop, io, message, pure, stop, attempt, println, eprintln, command, ◌>>=◌,
  ◌>>◌,
}
use agent_term_status.Host.Paths.{◌/◌, display}
use agent_term_status.Host.Files.{look, read_to_string, remove_file}
use agent_term_status.Renderers.Process.{Exit, not_run, exited}

-- The environment: the directory of the running program, cargo's home as it was compiled in, the
-- user's home, and the parts of `PATH`.
pub record Environment : Type 0 where
  pub exe_dir : Option PathBuf
  pub cargo_home : Option PathBuf
  pub home : Option PathBuf
  pub path_dirs : List PathBuf

abbrev bin_of : PathBuf → PathBuf
bin_of cargo = cargo / "bin" / "ats-daemon"

-- The places where the daemon's binary is looked for, in order.
abbrev from_exe : Option PathBuf → List PathBuf
from_exe none = []
from_exe (some dir) = (dir / "ats-daemon") ∷ []

abbrev from_cargo : Option PathBuf → Option PathBuf → List PathBuf
from_cargo (some cargo) home = bin_of cargo ∷ []
from_cargo none (some home) = bin_of (home / ".cargo") ∷ []
from_cargo none none = []

abbrev from_path : List PathBuf → List PathBuf
from_path [] = []
from_path (dir ∷ dirs) = (dir / "ats-daemon") ∷ from_path dirs

unfoldable pub candidates : Environment → List PathBuf
candidates env =
    from_exe env.exe_dir ++ (from_cargo env.cargo_home env.home ++ from_path env.path_dirs)

unfoldable pub first_there : List PathBuf → Run (Option PathBuf)
first_there [] = pure none
first_there (p ∷ ps) = do there ← look p; if there then pure (some p) else first_there ps

unfoldable pub daemon_binary : Environment → Run (Option PathBuf)
daemon_binary env = first_there (candidates env)

-- Whether `kill` returned 0.
abbrev is_zero : Killed → Bool
is_zero alive = true
is_zero not_permitted = false
is_zero (other e) = false

abbrev pub is_positive : ℤ → Bool
is_positive pid = ltb_ℤ (pos 0) pid

-- The loop of `socket_reachable`: the i-th attempt to connect, and whether the time has run out
-- then; no result where the fuel ran out.
unfoldable pub probe : (ℕ → Bool) → (ℕ → Bool) → ℕ → ℕ → Option Bool
probe connects elapsed zero i = none
probe connects elapsed (suc fuel) i =
    let again = probe connects elapsed fuel (suc i) in
    if connects i then some true else if elapsed i then some false else again

unfoldable pub socket_reachable : (ℕ → Bool) → (ℕ → Bool) → ℕ → Option Bool
socket_reachable connects elapsed fuel = probe connects elapsed fuel 0

-- `SIGTERM` is sent.
abbrev signal : ℤ → Run (Unit {0})
signal pid h = (record h { signalled = h.signalled ++ pid ∷ [] }, ok tt)

module _ (parse : String → Option ℤ) where
  module _ (kill : ℤ → Killed) where
    abbrev lives : Option ℤ → Bool
    lives none = false
    lives (some pid) = if is_positive pid then is_zero (kill pid) else false

    abbrev read_alive : Result String ℕ → Bool
    read_alive (err e) = false
    read_alive (ok content) = lives (parse content)

    unfoldable pub pid_is_alive : PathBuf → Run Bool
    pid_is_alive pid_path = do
      content ← attempt (read_to_string pid_path)
      pure (read_alive content)

  -- `kill(pid, SIGTERM)`: no error, or its number; `ESRCH` is 3.
  module _ (terminate : ℤ → Option ℕ) where
    abbrev pub after_kill : PathBuf → Option ℕ → Run (Unit {0})
    after_kill pid_path none = pure tt
    after_kill pid_path (some e) =
        if nat_eq e 3 then (attempt (remove_file pid_path) >> pure tt) else stop (io e)

    abbrev pub kill_pid : PathBuf → Option ℤ → Run (Unit {0})
    kill_pid pid_path none = stop (message "malformed PID file")
    kill_pid pid_path (some pid) =
        if is_positive pid
        then (signal pid >> after_kill pid_path (terminate pid))
        else (attempt (remove_file pid_path) >> pure tt)

    abbrev pub kill_there : PathBuf → Bool → Run (Unit {0})
    kill_there pid_path false = pure tt
    kill_there pid_path true = do
      content ← read_to_string pid_path
      kill_pid pid_path (parse content)

    unfoldable pub kill_daemon : PathBuf → Run (Unit {0})
    kill_daemon pid_path = do there ← look pid_path; kill_there pid_path there

    module _ (show_stop : Stop → String) where
      abbrev stopped : Host × Result (Unit {0}) Stop → Host × Result ℕ Stop
      stopped (h, ok u) = (eprintln "ats daemon: stop signal sent" >> pure 0) h
      stopped (h, err Stop.killed) = (h, err Stop.killed)
      stopped (h, err s) = (eprintln ("ats daemon: cannot stop daemon: " ⧺ show_stop s) >> pure 1) h

      -- The program's exit code.
      unfoldable pub stop_daemon : DaemonPaths → Run ℕ
      stop_daemon paths h = stopped (kill_daemon paths.pid_path h)

  module _ (kill : ℤ → Killed) (child_id : String) (wait : Option String) where
    abbrev waited : Option String → Run ℕ
    waited none = pure 0
    waited (some e) = eprintln ("ats daemon: daemon exited with error: " ⧺ e) >> pure 1

    abbrev spawned : Bool → Exit → Run ℕ
    spawned foreground (not_run e) = eprintln ("ats daemon: cannot start daemon: " ⧺ e) >> pure 1
    spawned true (exited _ _ _) = waited wait
    spawned false (exited _ _ _) =
        eprintln ("ats daemon: daemon started (PID: " ⧺ (child_id ⧺ ")")) >> pure 0

    abbrev started : Bool → Option PathBuf → Run ℕ
    started foreground none = eprintln "ats daemon: cannot find ats-daemon binary" >> pure 1
    started foreground (some binary) = command (display binary ∷ []) >>= spawned foreground

    unfoldable pub start : Environment → DaemonPaths → Bool → Run ℕ
    start env paths foreground = do
      running ← pid_is_alive kill paths.pid_path
      if running
          then (eprintln "ats daemon: daemon is already running" >> pure 0)
          else (daemon_binary env >>= started foreground)

  -- The payload printed as JSON: running, pid_alive, socket_reachable, and the two paths.
  module _ (kill : ℤ → Killed) (pretty : Bool → Bool → Bool → DaemonPaths → String) where
    abbrev report : Bool → Bool → Bool → DaemonPaths → Run (Unit {0})
    report true pid_alive sock_alive paths =
        println (pretty (pid_alive && sock_alive) pid_alive sock_alive paths)
    report false true true paths =
        println ("ats daemon: running (socket: " ⧺ (display paths.socket_path ⧺ ")"))
    report false true false paths = println "ats daemon: PID alive but socket unreachable"
    report false false sock_alive paths = println "ats daemon: not running"

    unfoldable pub status : Bool → DaemonPaths → Bool → Run ℕ
    status sock_alive paths json = do
      pid_alive ← pid_is_alive kill paths.pid_path
      report json pid_alive sock_alive paths
      pure (if pid_alive && sock_alive then 0 else 1)
