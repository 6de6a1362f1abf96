-- ===== src/Daemon/Framing/RoundTrip.antt =====
-- `write_frame` and `read_frame` of crates/ats-daemon/src/framing.rs against the wire format of one
-- frame.
use agent_term_status.Prelude.{
  ℕ, suc, ◌≤◌, ◌<◌, ◌%◌, ◌^◌, ◌≡◌, refl, ap, ◌∙◌, false, Option, some, List, ◌++◌, length, take,
  length-append, append_assoc, take_less-append, take-append, drop-append, Result, ok, err, arith,
  ltb, leb, Option-cases, Bool-cases, inl, inr, ltb→lt,
}
use agent_term_status.Daemon.Framing.{
  Writer, FrameError, IoError, oversized, io, sent, then_write, saturate_u32, max_frame_bytes,
  read_exact, write_all, from_be_bytes, to_be_bytes, read_frame, write_frame,
}

pub from_be_bytes-to_be_bytes : (n : ℕ) → n < 2 ^ 32 → from_be_bytes (to_be_bytes n) ≡ n
unfolding from_be_bytes to_be_bytes
from_be_bytes-to_be_bytes n h = omega arith

-- A frame as the bytes of the wire format.
abbrev pub frame : List ℕ → List ℕ
frame payload = to_be_bytes (length payload) ++ payload

read_exact-append :
    (xs ys : List ℕ) (e : Option IoError)
    → read_exact (length xs) (record { left = xs ++ ys; failure = e })
      ≡ (record { left = ys; failure = e }, ok xs)
unfolding read_exact
read_exact-append xs ys e =
    ground (arith, length-append xs ys, take-append xs ys, drop-append xs ys)

read_exact-header :
    (n : ℕ) (payload rest : List ℕ) (e : Option IoError)
    → read_exact 4 (record { left = (to_be_bytes n ++ payload) ++ rest; failure = e })
      ≡ (record { left = payload ++ rest; failure = e }, ok (to_be_bytes n))
unfolding to_be_bytes
read_exact-header n payload rest e = read_exact-append (to_be_bytes n) (payload ++ rest) e

pub read_frame-frame :
    (payload rest : List ℕ) (e : Option IoError)
    → length payload ≤ max_frame_bytes
    → read_frame (record { left = frame payload ++ rest; failure = e })
      ≡ (record { left = rest; failure = e }, ok (some payload))
unfolding read_frame
read_frame-frame payload rest e h =
    let small : ltb max_frame_bytes (length payload) ≡ false = ground arith in
    rw
      (
        read_exact-header (length payload) payload rest e,
        from_be_bytes-to_be_bytes (length payload) (omega arith),
        small,
        read_exact-append payload rest e,
      )
      refl

-- What a write leaves: the frame is refused and nothing written, or all of it is written, or the
-- transport fails with a part of it.
pub data Writes (w : Writer) (payload : List ℕ)
    : Writer × Result (Unit {0}) FrameError → Type 0 where
  refused :
      max_frame_bytes < length payload
      → Writes w payload (w, err (oversized (saturate_u32 (length payload))))
  whole :
      {w' : Writer}
      → length payload ≤ max_frame_bytes
      → w'.written ≡ w.written ++ frame payload
      → Writes w payload (w', ok tt)
  cut :
      {w' : Writer} {n : ℕ} {e : IoError}
      → length payload ≤ max_frame_bytes
      → n < length (frame payload)
      → w'.written ≡ w.written ++ take n (frame payload)
      → Writes w payload (w', err (io e))

-- What `write_all` leaves.
pub data Fills (w : Writer) (bytes : List ℕ) : Writer × Result (Unit {0}) IoError → Type 0 where
  filled : {w' : Writer} → w'.written ≡ w.written ++ bytes → Fills w bytes (w', ok tt)
  stopped :
      {w' : Writer} {n : ℕ} {e : IoError}
      → n < length bytes
      → w'.written ≡ w.written ++ take n bytes
      → Fills w bytes (w', err e)

write_all-Fills : (w : Writer) (bytes : List ℕ) → Fills w bytes (write_all bytes w)
unfolding write_all
write_all-Fills w bytes = elim (Option-cases w.room) [
  | inl unlimited ↦ rw unlimited (filled refl)
  | inr ((n, e), limit) ↦ elim (Bool-cases (leb (length bytes) n)) [
    | inl enough ↦ rw (limit, enough) (filled refl)
    | inr few ↦ rw (limit, few) (stopped {n = n} (ground arith) refl)
  ]
]

module _ (w : Writer) (payload : List ℕ) (small : length payload ≤ max_frame_bytes) where
  sent-Writes :
      (w1 : Writer) (r : Writer × Result (Unit {0}) IoError)
      → w1.written ≡ w.written ++ to_be_bytes (length payload)
      → Fills w1 payload r
      → Writes w payload (sent r)
  sent-Writes w1 _ h (filled e) =
      whole small (
        e
        ∙ ap (λ l. l ++ payload) h
        ∙ append_assoc w.written (to_be_bytes (length payload)) payload)
  sent-Writes w1 _ h (stopped {w' = w'} {n = n} lt e) =
      cut {w' = w'} {n = suc (suc (suc (suc n)))} small (unfold to_be_bytes in omega arith) (
        unfold to_be_bytes in
        e
        ∙ ap (λ l. l ++ take n payload) h
        ∙ append_assoc w.written (to_be_bytes (length payload)) (take n payload))

  then_write-Writes :
      (r : Writer × Result (Unit {0}) IoError)
      → Fills w (to_be_bytes (length payload)) r
      → Writes w payload (then_write payload r)
  then_write-Writes _ (filled {w' = w'} e) =
      sent-Writes w' (write_all payload w') e (write_all-Fills w' payload)
  then_write-Writes _ (stopped {n = n} lt e) =
      let header = to_be_bytes (length payload) in
      cut {n = n} small (omega (arith, length-append header payload))
        (rw (take_less-append n header payload (omega arith)) e)

-- A payload above the cap is refused and nothing is written; otherwise the whole frame is written,
-- or, where the transport fails, a proper part of it.
pub write_frame-Writes : (w : Writer) (payload : List ℕ) → Writes w payload (write_frame w payload)
unfolding write_frame
write_frame-Writes w payload = elim (Bool-cases (ltb max_frame_bytes (length payload))) [
  | inl big ↦ rw big (refused (ltb→lt max_frame_bytes (length payload) big))
  | inr small ↦
      let fits : length payload % 2 ^ 32 ≡ length payload = ground arith in
      rw (small, fits)
        (then_write-Writes w payload (ground arith) (write_all (to_be_bytes (length payload)) w)
          (write_all-Fills w (to_be_bytes (length payload))))
]
