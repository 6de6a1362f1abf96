-- ===== src/Cli/SocketClient/Delivery.antt =====
-- `send_frame_to_daemon` (crates/ats-cli/src/socket_client.rs) against the loop that serves the
-- connection (crates/ats-daemon/src/server.rs).
use agent_term_status.Prelude.{
  ℕ, zero, suc, ◌≤◌, ◌≡◌, ◌≢◌, refl, sym, ap, ◌∙◌, String, Bool, true, false, Option, some, none,
  List, [], ◌∷◌, append-nil, length, Result, ok, err, Bool-cases, inl, inr, if◌then◌else◌,
}
use agent_term_status.Daemon.Framing.{
  Writer, Reader, FrameError, read_frame, read_exact, write_frame, write_frame_sync,
  max_frame_bytes,
}
use agent_term_status.Daemon.Framing.Cut.{read_frame-cut}
use agent_term_status.Daemon.Framing.RoundTrip.{
  frame, read_frame-frame, Writes, refused, whole, cut, write_frame-Writes,
}
use agent_term_status.Daemon.Paths.{DaemonPaths}
use agent_term_status.Daemon.Server.{Served, round, handle_connection}
use agent_term_status.Cli.SocketClient.{written, send_frame_to_daemon}

-- What a client has sent, and whether it is told so.
abbrev Sending : Type 0
Sending = Result (Writer × Result (Unit {0}) String) String

abbrev is_done : Result (Unit {0}) String → Bool
is_done (ok u) = true
is_done (err e) = false

abbrev pub is_sent : Sending → Bool
is_sent (ok (w, r)) = is_done r
is_sent (err e) = false

abbrev pub bytes_sent : Sending → List ℕ
bytes_sent (ok (w, r)) = w.written
bytes_sent (err e) = []

-- The connection is closed once the client is done.
abbrev pub incoming_from : Sending → Reader
incoming_from s = record { left = bytes_sent s; failure = none }

-- Nothing has been written to a connection that is new.
abbrev pub IsNew : Result Writer String → Type 0
IsNew (ok w) = w.written ≡ []
IsNew (err e) = Unit {0}

module _ (paths : DaemonPaths) (show_frame_error : FrameError → String)
    (elapsed is_open : ℕ → Bool) where
  round-none :
      (x : Result (Option (List ℕ)) FrameError) (open_ : Bool) (rest : Served)
      → ((q : List ℕ) → x ≢ ok (some q))
      → (round x open_ rest).events ≡ []
  round-none (ok none) open_ rest ne = refl
  round-none (ok (some q)) open_ rest ne = absurd (ne q refl)
  round-none (err e) open_ rest ne = refl

  -- A stream that does not begin with a frame gives the broker nothing.
  served-none :
      (fuel i : ℕ) (r : Reader)
      → ((q : List ℕ) → (read_frame r).1 ≢ ok (some q))
      → (handle_connection elapsed is_open fuel i r).events ≡ []
  unfolding handle_connection
  served-none zero i r ne = refl
  served-none (suc fuel) i r ne = elim (Bool-cases (elapsed i)) [
    | inl late ↦ rw late refl
    | inr on_time ↦ rw on_time (round-none _ (is_open i) _ ne)
  ]

  served-empty :
      (fuel i : ℕ)
      → (handle_connection elapsed is_open fuel i (record { left = []; failure = none })).events
        ≡ []
  unfolding read_frame read_exact
  served-empty fuel i = served-none fuel i _ (λ q e. cc e)

  module _ (on_time : (j : ℕ) → elapsed j ≡ false) (open_ : (j : ℕ) → is_open j ≡ true) where
    served-frame :
        (fuel i : ℕ) (payload : List ℕ)
        → length payload ≤ max_frame_bytes
        → (handle_connection elapsed is_open
            (suc fuel)
            i
            (record { left = frame payload; failure = none })).events
          ≡ payload ∷ []
    unfolding handle_connection
    served-frame fuel i payload small =
        let read : read_frame (record { left = frame payload; failure = none })
            ≡ (record { left = []; failure = none }, ok (some payload)) =
          ap (λ l. read_frame (record { left = l; failure = none }))
            (sym (append-nil (frame payload)))
          ∙ read_frame-frame payload [] none small in
        rw (read, on_time i, open_ i) (ap (payload ∷◌) (served-empty fuel (suc i)))

    -- A write that gives no error has sent the frame, and any other no payload.
    served-Writes :
        (fuel i : ℕ) (payload : List ℕ) (w : Writer)
        → w.written ≡ []
        → (x : Writer × Result (Unit {0}) FrameError) → Writes w payload x
        → let s : Sending = ok (written paths show_frame_error x) in
          (handle_connection elapsed is_open (suc fuel) i (incoming_from s)).events
          ≡ (if is_sent s then payload ∷ [] else [])
    served-Writes fuel i payload w new _ (refused big) = rw new (served-empty (suc fuel) i)
    served-Writes fuel i payload w new _ (whole {w' = w'} small e) =
        rw (e, new) (served-frame fuel i payload small)
    served-Writes fuel i payload w new _ (cut {w' = w'} {n = n} small part e) =
        rw (e, new) (served-none (suc fuel) i _ (read_frame-cut payload small n part none))

    -- The command line is told that a payload was sent exactly where the daemon's server forwards
    -- it: of the bytes that send_frame_to_daemon leaves on a new connection, which is then closed,
    -- the server forwards that payload and nothing else if the result is no error, and nothing if
    -- it is one (the payload is too long, the transport fails at any byte, there is no connection).
    -- No read times out, and the broker's channel is open.
    pub handle_connection-send_frame_to_daemon :
        (fuel i : ℕ) (payload : List ℕ) (connected : Result Writer String)
        → IsNew connected
        → let s = send_frame_to_daemon paths show_frame_error payload connected in
          (handle_connection elapsed is_open (suc fuel) i (incoming_from s)).events
          ≡ (if is_sent s then payload ∷ [] else [])
    unfolding send_frame_to_daemon write_frame_sync write_frame
    handle_connection-send_frame_to_daemon fuel i payload (ok w) new =
        served-Writes fuel i payload w new (write_frame w payload) (write_frame-Writes w payload)
    handle_connection-send_frame_to_daemon fuel i payload (err e) new = served-empty (suc fuel) i
