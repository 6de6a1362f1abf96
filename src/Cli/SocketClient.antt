-- ===== src/Cli/SocketClient.antt =====
-- crates/ats-cli/src/socket_client.rs. Connecting to the daemon's socket gives a transport, or an
-- error in words; the printing of a framing error is a parameter.
pub mod Delivery
use agent_term_status.Prelude.{ℕ, String, Bool, List, Result, ok, err, is_ok, ◌⧺◌}
use agent_term_status.Daemon.Framing.{Writer, FrameError, write_frame_sync}
use agent_term_status.Daemon.Paths.{DaemonPaths}
use agent_term_status.Host.Paths.{display}

module _ (paths : DaemonPaths) (show_frame_error : FrameError → String) where
  abbrev written : Writer × Result (Unit {0}) FrameError → Writer × Result (Unit {0}) String
  written (w, ok u) = (w, ok tt)
  written (w, err e) = (w, err ("failed to write frame: " ⧺ show_frame_error e))

  -- The transport with what was sent, where there is one.
  unfoldable pub send_frame_to_daemon :
      List ℕ → Result Writer String → Result (Writer × Result (Unit {0}) String) String
  send_frame_to_daemon payload (ok stream) = ok (written (write_frame_sync stream payload))
  send_frame_to_daemon payload (err e) =
      err ("failed to connect to daemon at " ⧺ (display paths.socket_path ⧺ (": " ⧺ e)))

unfoldable pub daemon_is_reachable : Result Writer String → Bool
daemon_is_reachable connected = is_ok connected
