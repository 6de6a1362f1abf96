-- ===== src/Daemon/Framing/Reading.antt =====
-- `read_frame` of crates/ats-daemon/src/framing.rs over all bytes.
use agent_term_status.Prelude.{
  ℕ, ◌≤◌, ◌<◌, ◌≡◌, ◌≢◌, refl, ap, ◌∙◌, Option, some, none, List, [], ◌++◌, length, take, drop,
  append-take-drop, length-take, Result, ok, err, arith, Bool-cases, inl, inr, ltb, leb, ltb→lt,
}
use agent_term_status.Daemon.Framing.{
  Reader, FrameError, oversized, io, IoError, unexpected_eof, write_zero, other, ending, read_frame,
  read_exact, max_frame_bytes, from_be_bytes, header_of,
}

module _ (r : Reader) where
  abbrev after : List ℕ → Reader
  after rest = record r { left = rest }

  pub data Reads : Reader × Result (Option (List ℕ)) FrameError → Type 0 where
    ended : length r.left < 4 → ending r.failure ≡ unexpected_eof → Reads (after [], ok none)
    broken :
        (e : IoError)
        → length r.left < 4
        → ending r.failure ≡ e
        → e ≢ unexpected_eof
        → Reads (after [], err (io e))
    too_large :
        (header rest : List ℕ)
        → r.left ≡ header ++ rest
        → length header ≡ 4
        → max_frame_bytes < from_be_bytes header
        → Reads (after rest, err (oversized (from_be_bytes header)))
    truncated :
        (header rest : List ℕ)
        → r.left ≡ header ++ rest
        → length header ≡ 4
        → length rest < from_be_bytes header
        → from_be_bytes header ≤ max_frame_bytes
        → Reads (after [], err (io (ending r.failure)))
    complete :
        (header payload rest : List ℕ)
        → r.left ≡ header ++ (payload ++ rest)
        → length header ≡ 4
        → from_be_bytes header ≡ length payload
        → length payload ≤ max_frame_bytes
        → Reads (after rest, ok (some payload))

  no_header :
      (e : IoError) → ending r.failure ≡ e → length r.left < 4 → Reads (header_of (after [], err e))
  no_header unexpected_eof h short = ended short h
  no_header write_zero h short = broken write_zero short h (λ p. cc p)
  no_header (other k) h short = broken (other k) short h (λ p. cc p)

  -- What read_frame makes of any bytes: the end of the stream before a whole header is a clean end,
  -- an error there is passed on; a declared length above the cap is refused with the payload left
  -- unread; a payload that is cut off is an error; otherwise exactly the declared bytes are taken
  -- and the rest is left.
  pub read_frame-Reads : Reads (read_frame r)
  unfolding read_frame read_exact
  read_frame-Reads = elim (Bool-cases (leb 4 (length r.left))) [
    | inr short ↦ rw short (no_header (ending r.failure) refl (ground arith))
    | inl enough ↦
        let header = take 4 r.left in
        let rest = drop 4 r.left in
        let four : length header ≡ 4 = ground (arith, length-take 4 r.left) in
        let split = append-take-drop 4 r.left in
        rw enough (elim (Bool-cases (ltb max_frame_bytes (from_be_bytes header))) [
          | inl big ↦
              rw big (
                too_large header rest split four
                  (ltb→lt max_frame_bytes (from_be_bytes header) big))
          | inr fits ↦ rw fits (elim (Bool-cases (leb (from_be_bytes header) (length rest))) [
            | inl there ↦
                let n = from_be_bytes header in
                let size : n ≡ length (take n rest) = ground (arith, length-take n rest) in
                rw there (
                  complete header (take n rest) (drop n rest)
                    (split ∙ ap (λ l. header ++ l) (append-take-drop n rest)) four size
                    (ground arith))
            | inr cut ↦ rw cut (truncated header rest split four (ground arith) (ground arith))
          ])
        ])
  ]
