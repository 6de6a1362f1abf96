-- ===== src/Daemon/Framing.antt =====
-- crates/ats-daemon/src/framing.rs. A byte is a number; a transport is the bytes that it will still
-- deliver or take, and how it then ends. A function that moves a transport returns it.
pub mod RoundTrip
pub mod Cut
pub mod Reading
use agent_term_status.Prelude.{
  ℕ, zero, suc, ◌+◌, ◌*◌, ◌/◌, ◌%◌, ◌^◌, ◌-◌, Bool, Option, some, none, List, [], ◌∷◌, ◌++◌, length,
  take, drop, Result, ok, err, ◌>>◌, if◌then◌else◌, ltb, leb, max_u32,
}

pub data IoError : Type 0 where
  unexpected_eof write_zero : IoError
  other : ℕ → IoError

-- An `AsyncRead`: after the bytes that are left comes the end of the file, or an error.
pub record Reader : Type 0 where
  pub left : List ℕ
  pub failure : Option IoError

-- An `AsyncWrite`: it takes any number of bytes, or so many before it fails.
pub record Writer : Type 0 where
  pub written : List ℕ
  pub room : Option (ℕ × IoError)

pub data FrameError : Type 0 where
  oversized : ℕ → FrameError
  io : IoError → FrameError

abbrev pub max_frame_bytes : ℕ
max_frame_bytes = 64 * 1024

abbrev pub ending : Option IoError → IoError
ending none = unexpected_eof
ending (some e) = e

-- `read_exact`: all the bytes asked for, or an error after what is left has been consumed.
unfoldable pub read_exact : ℕ → Reader → Reader × Result (List ℕ) IoError
read_exact n r =
    if leb n (length r.left)
    then (record r { left = drop n r.left }, ok (take n r.left))
    else (record r { left = [] }, err (ending r.failure))

abbrev fill : Writer → List ℕ → Option (ℕ × IoError) → Writer × Result (Unit {0}) IoError
fill w bytes none = (record w { written = w.written ++ bytes }, ok tt)
fill w bytes (some (n, e)) =
    if leb (length bytes) n
    then (record { written = w.written ++ bytes; room = some (n - length bytes, e) }, ok tt)
    else (record { written = w.written ++ take n bytes; room = some (zero, e) }, err e)

unfoldable pub write_all : List ℕ → Writer → Writer × Result (Unit {0}) IoError
write_all bytes w = fill w bytes w.room

-- `u32::from_be_bytes` of the four bytes of a header; a list of another length is no header.
unfoldable pub from_be_bytes : List ℕ → ℕ
from_be_bytes (a ∷ b ∷ c ∷ d ∷ []) = ((a * 256 + b) * 256 + c) * 256 + d
from_be_bytes _ = 0

unfoldable pub to_be_bytes : ℕ → List ℕ
to_be_bytes n = n / 16777216 % 256 ∷ n / 65536 % 256 ∷ n / 256 % 256 ∷ n % 256 ∷ []

abbrev payload_of : Reader × Result (List ℕ) IoError → Reader × Result (Option (List ℕ)) FrameError
payload_of (r, ok payload) = (r, ok (some payload))
payload_of (r, err e) = (r, err (io e))

abbrev header_of : Reader × Result (List ℕ) IoError → Reader × Result (Option (List ℕ)) FrameError
header_of (r, err unexpected_eof) = (r, ok none)
header_of (r, err write_zero) = (r, err (io write_zero))
header_of (r, err (other k)) = (r, err (io (other k)))
header_of (r, ok header) =
    let declared = from_be_bytes header in
    if ltb max_frame_bytes declared
    then (r, err (oversized declared))
    else payload_of (read_exact declared r)

unfoldable pub read_frame : Reader → Reader × Result (Option (List ℕ)) FrameError
read_frame r = header_of (read_exact 4 r)

-- `u32::try_from(len).unwrap_or(u32::MAX)`
abbrev pub saturate_u32 : ℕ → ℕ
saturate_u32 n = if leb n max_u32 then n else max_u32

-- `?` on the last write, and the result of the whole.
abbrev pub sent : Writer × Result (Unit {0}) IoError → Writer × Result (Unit {0}) FrameError
sent (w, ok _) = (w, ok tt)
sent (w, err e) = (w, err (io e))

-- The second write, if the first one succeeded.
abbrev pub then_write :
    List ℕ → Writer × Result (Unit {0}) IoError → Writer × Result (Unit {0}) FrameError
then_write bytes (w, err e) = (w, err (io e))
then_write bytes (w, ok _) = sent (write_all bytes w)

-- `flush` does nothing on the UNIX sockets that frames are written to, here and below.
unfoldable pub write_frame : Writer → List ℕ → Writer × Result (Unit {0}) FrameError
write_frame w payload =
    if ltb max_frame_bytes (length payload)
    then (w, err (oversized (saturate_u32 (length payload))))
    else then_write payload (write_all (to_be_bytes (length payload % 2 ^ 32)) w)

unfoldable pub write_frame_sync : Writer → List ℕ → Writer × Result (Unit {0}) FrameError
write_frame_sync w payload =
    if ltb max_frame_bytes (length payload)
    then (w, err (oversized (saturate_u32 (length payload))))
    else then_write payload (write_all (to_be_bytes (length payload % 2 ^ 32)) w)
