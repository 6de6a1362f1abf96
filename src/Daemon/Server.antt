-- ===== src/Daemon/Server.antt =====
-- crates/ats-daemon/src/server.rs: `handle_connection`, the loop that serves one client. The i-th
-- round's timeout and the state of the broker's channel are arguments.
pub mod Forwarding
pub mod Bind
pub mod Accept
use agent_term_status.Prelude.{
  ℕ, zero, suc, Bool, true, false, Option, some, none, List, [], ◌∷◌, Result, ok, err,
  if◌then◌else◌,
}
use agent_term_status.Daemon.Framing.{Reader, FrameError, read_frame}

-- Why the loop broke.
pub data Ending : Type 0 where
  idle_timeout eof channel_closed : Ending
  failed : FrameError → Ending

-- What was sent to the broker, and the end; no end where the fuel ran out.
pub record Served : Type 0 where
  pub events : List (List ℕ)
  pub ending : Option Ending

abbrev pub broke : Ending → Served
broke e = record { events = []; ending = some e }

-- One round: the result of the read, whether the channel takes the payload, and the rounds after.
abbrev pub round : Result (Option (List ℕ)) FrameError → Bool → Served → Served
round (ok none) open_ rest = broke eof
round (ok (some payload)) false rest = broke channel_closed
round (ok (some payload)) true rest = record rest { events = payload ∷ rest.events }
round (err e) open_ rest = broke (failed e)

module _ (elapsed : ℕ → Bool) (is_open : ℕ → Bool) where
  unfoldable pub handle_connection : ℕ → ℕ → Reader → Served
  handle_connection zero i stream = record { events = []; ending = none }
  handle_connection (suc fuel) i stream =
      let (stream', r) = read_frame stream in
      let rest = handle_connection fuel (suc i) stream' in
      if elapsed i then broke idle_timeout else round r (is_open i) rest
