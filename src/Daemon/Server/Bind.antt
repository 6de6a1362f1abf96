-- ===== src/Daemon/Server/Bind.antt =====
-- `SocketServer::bind` of crates/ats-daemon/src/server.rs. The printing of a mode is a parameter.
pub mod Modes
use agent_term_status.Prelude.{
  ℕ, ◌%◌, String, Bool, true, false, Option, some, none, Result, ok, err, nat_eq, ◌⧺◌,
  if◌then◌else◌,
}
use agent_term_status.Host.{PathBuf, Host, Run, Stop, message, pure, stop, attempt, ◌>>=◌, ◌>>◌}
use agent_term_status.Host.Paths.{parent, display}
use agent_term_status.Host.Files.{mode, remove_file, bind_socket, set_permissions, not_found}

-- `Err(e) if e.kind() == NotFound => {}`
abbrev unless_missing : Result (Unit {0}) ℕ → Run (Unit {0})
unless_missing (ok _) = pure tt
unless_missing (err e) = if nat_eq e not_found then pure tt else stop (Stop.io e)

module _ (octal : ℕ → String) where
  abbrev pub refused : PathBuf → ℕ → Stop
  refused dir m = message (
      "socket parent directory "
      ⧺ (display dir
          ⧺ (" is group/world accessible (mode "
              ⧺ (octal (m % 512) ⧺ "); refusing to bind (SPEC §14.2)"))))

  -- `mode & 0o077 != 0`
  abbrev pub check_private : PathBuf → ℕ → Run (Unit {0})
  check_private dir m = if nat_eq (m % 64) 0 then pure tt else stop (refused dir m)

  abbrev pub check_parent : Option PathBuf → Run (Unit {0})
  check_parent none = pure tt
  check_parent (some dir) = mode dir >>= check_private dir

  -- The socket that is served: its listener is bound to this path.
  unfoldable pub bind : PathBuf → Run PathBuf
  bind socket_path = do
    check_parent (parent socket_path)
    gone ← attempt (remove_file socket_path)
    unless_missing gone
    bind_socket socket_path
    set_permissions socket_path 384
    pure socket_path
