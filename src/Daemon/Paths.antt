-- ===== src/Daemon/Paths.antt =====
-- crates/ats-daemon/src/paths.rs
use agent_term_status.Prelude.{
  String, Bool, true, false, Option, some, none, [], ◌∷◌, str_eq, if◌then◌else◌,
}
use agent_term_status.Host.{PathBuf, Run, pure, when, ◌>>=◌, ◌>>◌}
use agent_term_status.Host.Paths.{◌/◌, parent}
use agent_term_status.Host.Files.{look, create_dir_all, set_permissions}

pub record DaemonPaths : Type 0 where
  pub socket_path : PathBuf
  pub pid_path : PathBuf
  pub logs_dir : PathBuf
  pub owns_parent_dir : Bool

abbrev or_here : Option PathBuf → PathBuf
or_here none = "." ∷ []
or_here (some home) = home

abbrev pub state_dir : PathBuf → PathBuf
state_dir home = home / ".local" / "state" / "agent-term-status"

abbrev in_state_dir : PathBuf → DaemonPaths
in_state_dir home = record {
  socket_path = state_dir home / "status.sock";
  pid_path = state_dir home / "status.pid";
  logs_dir = state_dir home / "logs";
  owns_parent_dir = true;
}

abbrev in_runtime_dir : PathBuf → String → DaemonPaths
in_runtime_dir home dir = record {
  socket_path = (dir ∷ []) / "agent-term-status.sock";
  pid_path = (dir ∷ []) / "agent-term-status.pid";
  logs_dir = state_dir home / "logs";
  owns_parent_dir = false;
}

unfoldable pub resolve_with_env : Option String → Option PathBuf → DaemonPaths
resolve_with_env none home = in_state_dir (or_here home)
resolve_with_env (some dir) home =
    if str_eq dir "" then in_state_dir (or_here home) else in_runtime_dir (or_here home) dir

abbrev pub unless : Bool → Run (Unit {0}) → Run (Unit {0})
unless true m = pure tt
unless false m = m

abbrev pub ensured : Bool → Option PathBuf → Run (Unit {0})
ensured owned none = pure tt
ensured owned (some dir) = do
  there ← look dir
  unless there (create_dir_all dir)
  when owned (set_permissions dir 448)

unfoldable pub ensure_parent_dirs : DaemonPaths → Run (Unit {0})
ensure_parent_dirs paths = do
  ensured paths.owns_parent_dir (parent paths.socket_path)
  ensured paths.owns_parent_dir (parent paths.pid_path)
