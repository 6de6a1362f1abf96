-- ===== src/Daemon/Startup.antt =====
-- `run` of crates/ats-daemon/src/main.rs up to the listening socket, and `init_logging` of
-- crates/ats-daemon/src/logging.rs: the directories, the log, the PID file and the socket, in this
-- order. The library that makes the log's file is a parameter. The faults of the calls of `acquire`
-- are given beforehand, and nobody else is at the PID file: the file keeps one identity then.
pub mod Second
use agent_term_status.Prelude.{ℕ, String, Option, some, none, List, [], ◌∷◌, Result, ok, err, ◌⧺◌}
use agent_term_status.Prelude.HashMap.{remove}
use agent_term_status.Prelude.Int.{ℤ}
use agent_term_status.Daemon.Paths.{DaemonPaths, ensure_parent_dirs}
use agent_term_status.Daemon.PidFile.{
  File, Disk, Phase, creating, writing, reading, removing, acquired, refused, PidFileError, Killed,
  acquire,
}
use agent_term_status.Daemon.Server.Bind.{bind}
use agent_term_status.Host
use agent_term_status.Host.{
  PathBuf, Host, Stop, io, Run, pure, stop, attempt, eprintln, ◌>>=◌, ◌>>◌,
}
use agent_term_status.Host.Files.{create_dir_all, put_file, remove_file, text_at}
use agent_term_status.Host.Paths.{PathBuf_eq}

-- The file of a text.
abbrev pub file_of : Option String → Option File
file_of none = none
file_of (some content) = some (record { inode = 0; contents = content })

abbrev pub disk_at : PathBuf → Host → Disk
disk_at p h = record { file = file_of (text_at p h); next = 1 }

abbrev pub put_back : PathBuf → Option File → Host → Host
put_back p none h = record h { files = remove p h.files }
put_back p (some f) h = put_file p f.contents h

-- The process is alone at the file.
abbrev pub by_itself : List (Option ℕ) → List (Option ℕ × (Disk → Disk))
by_itself [] = []
by_itself (fault ∷ faults) = (fault, λ d. d) ∷ by_itself faults

module _ (show_error : PidFileError → String) where
  -- A process that has not come to an end has been killed.
  abbrev pub settled : PathBuf → Host → Phase × Disk → Host × Result (Unit {0}) Stop
  settled p h (acquired, d) = (put_back p d.file h, ok tt)
  settled p h (refused e, d) = (put_back p d.file h, err (Stop.message (show_error e)))
  settled p h (creating n, d) = (put_back p d.file h, err Stop.killed)
  settled p h (writing n, d) = (put_back p d.file h, err Stop.killed)
  settled p h (reading n, d) = (put_back p d.file h, err Stop.killed)
  settled p h (removing n, d) = (put_back p d.file h, err Stop.killed)

-- `drop` of the guard of the PID file, where the process goes on to its end.
abbrev removed_by : PathBuf → Stop → Run PathBuf
removed_by p s = attempt (remove_file p) >> stop s

abbrev pub guarded : PathBuf → Host × Result PathBuf Stop → Host × Result PathBuf Stop
guarded p (h, ok socket) = (h, ok socket)
guarded p (h, err Stop.killed) = (h, err Stop.killed)
guarded p (h, err (io e)) = removed_by p (io e) h
guarded p (h, err (Stop.message m)) = removed_by p (Stop.message m) h
guarded p (h, err (Stop.exit n)) = removed_by p (Stop.exit n) h

-- `init_logging`. `daily` is `tracing_appender::rolling::daily`, which panics where it cannot make its
-- file: no error of its own comes back. What follows in the code touches no other file.
abbrev begun :
    (PathBuf → String → Run (Unit {0})) → PathBuf → Result (Unit {0}) ℕ → Run (Result (Unit {0}) ℕ)
begun daily dir (ok _) = daily dir "ats-daemon.log" >> pure (ok tt)
begun daily dir (err e) = pure (err e)

unfoldable pub init_logging :
    (PathBuf → String → Run (Unit {0})) → PathBuf → Run (Result (Unit {0}) ℕ)
init_logging daily dir = attempt (create_dir_all dir) >>= begun daily dir

-- An error of it is told, and that is all.
abbrev pub told : (ℕ → String) → Result (Unit {0}) ℕ → Run (Unit {0})
told show_io (ok _) = pure tt
told show_io (err e) =
    eprintln ("ats-daemon: failed to init logging: failed to create log directory: " ⧺ show_io e)

module _ (kill : ℤ → Killed) (parse : String → Option ℤ) (show : ℤ → String) (own : ℤ)
    (show_error : PidFileError → String) (octal show_io : ℕ → String)
    (daily : PathBuf → String → Run (Unit {0})) where
  abbrev pub acquire_at : List (Option ℕ) → PathBuf → Run (Unit {0})
  acquire_at faults p h =
      settled show_error p h (acquire kill parse show own (by_itself faults) (disk_at p h))

  abbrev pub bound : DaemonPaths → Run PathBuf
  bound paths h = guarded paths.pid_path (bind octal paths.socket_path h)

  -- The socket that is served.
  unfoldable pub startup : List (Option ℕ) → DaemonPaths → Run PathBuf
  startup faults paths = do
    ensure_parent_dirs paths
    init_logging daily paths.logs_dir >>= told show_io
    acquire_at faults paths.pid_path
    bound paths
