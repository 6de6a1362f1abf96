-- ===== src/Tests/Wire.antt =====
-- The wire format and the server at concrete bytes.
use agent_term_status.Prelude.{
  ℕ, suc, ◌+◌, nat_eq, Bool, true, false, ◌≡◌, refl, Option, some, none, List, if◌then◌else◌, [],
  ◌∷◌, ◌++◌, ok, err, arith,
}
use agent_term_status.Daemon.Framing.{
  Reader, Writer, IoError, oversized, io, other, unexpected_eof, read_frame, write_frame,
  read_exact, from_be_bytes, to_be_bytes, write_all,
}
use agent_term_status.Daemon.Framing.Reading.{Reads, read_frame-Reads}
use agent_term_status.Daemon.Framing.RoundTrip.{frame, read_frame-frame}
use agent_term_status.Cli.SocketClient.{send_frame_to_daemon}
use agent_term_status.Cli.SocketClient.Delivery.{
  is_sent, incoming_from, handle_connection-send_frame_to_daemon,
}
use agent_term_status.Daemon.Paths.{DaemonPaths}
use agent_term_status.Daemon.Server.{handle_connection, eof}
use agent_term_status.Daemon.Server.Forwarding.{frames, handle_connection-frames}

abbrev two_payloads : List (List ℕ)
two_payloads = (1 ∷ 2 ∷ []) ∷ (3 ∷ []) ∷ []

abbrev incoming : List ℕ → Reader
incoming bytes = record { left = bytes; failure = none }

abbrev never : ℕ → Bool
never i = false

abbrev always : ℕ → Bool
always i = true

-- The second round times out.
abbrev second : ℕ → Bool
second i = nat_eq i 1

truncated_test : (read_frame (incoming (0 ∷ 0 ∷ 0 ∷ 3 ∷ 9 ∷ []))).1 ≡ err (io unexpected_eof)
unfolding read_frame read_exact from_be_bytes
truncated_test = refl

oversized_test : (read_frame (incoming (0 ∷ 1 ∷ 0 ∷ 1 ∷ 9 ∷ []))).1 ≡ err (oversized 65537)
unfolding read_frame read_exact from_be_bytes
oversized_test = refl

broken_writer_test :
    (write_frame (record { written = []; room = some (5, other 32) }) (7 ∷ 8 ∷ [])).0.written
    ≡ 0 ∷ 0 ∷ 0 ∷ 2 ∷ 7 ∷ []
unfolding write_frame write_all to_be_bytes
broken_writer_test = refl

served_test :
    handle_connection never always 9 0 (incoming (frames two_payloads ++ 0 ∷ []))
    ≡ record { events = two_payloads; ending = some eof }
unfolding handle_connection frames read_frame read_exact from_be_bytes to_be_bytes
served_test = refl

read_frame-Reads_example :
    Reads
      (incoming (0 ∷ 0 ∷ 0 ∷ 1 ∷ 7 ∷ 9 ∷ []))
      (read_frame (incoming (0 ∷ 0 ∷ 0 ∷ 1 ∷ 7 ∷ 9 ∷ [])))
read_frame-Reads_example = read_frame-Reads (incoming (0 ∷ 0 ∷ 0 ∷ 1 ∷ 7 ∷ 9 ∷ []))

read_frame-frame_example :
    read_frame (incoming (frame (7 ∷ 8 ∷ []) ++ 9 ∷ []))
    ≡ (incoming (9 ∷ []), ok (some (7 ∷ 8 ∷ [])))
read_frame-frame_example = read_frame-frame (7 ∷ 8 ∷ []) (9 ∷ []) none (omega arith)

handle_connection-frames_example :
    ((handle_connection never always (2 + 7) 0 (incoming (frames two_payloads ++ 0 ∷ []))).events
      ≡ two_payloads ++ (handle_connection never always 7 (2 + 0) (incoming (0 ∷ []))).events)
    × ((handle_connection never always (2 + 7) 0 (incoming (frames two_payloads ++ 0 ∷ []))).ending
        ≡ (handle_connection never always 7 (2 + 0) (incoming (0 ∷ []))).ending)
handle_connection-frames_example =
    handle_connection-frames never always 7 0 two_payloads (0 ∷ []) none
      (omega arith, (omega arith, tt)) (λ j. refl) (λ j. refl)

abbrev socket_paths : DaemonPaths
socket_paths = record {
  socket_path = "/run/ats.sock" ∷ [];
  pid_path = [];
  logs_dir = [];
  owns_parent_dir = true;
}

abbrev connection : Option (ℕ × IoError) → Writer
connection room = record { written = []; room = room }

-- The transport fails in the payload.
handle_connection-send_frame_to_daemon_example :
    let s =
      send_frame_to_daemon socket_paths
        (λ e. "")
        (7 ∷ 8 ∷ [])
        (ok (connection (some (5, other 32)))) in
    (handle_connection never always (suc 3) 0 (incoming_from s)).events
    ≡ (if is_sent s then (7 ∷ 8 ∷ []) ∷ [] else [])
handle_connection-send_frame_to_daemon_example =
    handle_connection-send_frame_to_daemon socket_paths (λ e. "") never always (λ j. refl)
      (λ j. refl) 3 0 (7 ∷ 8 ∷ []) (ok (connection (some (5, other 32)))) refl
