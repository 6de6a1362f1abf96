-- ===== src/Daemon/Framing/Cut.antt =====
-- `read_frame` of crates/ats-daemon/src/framing.rs on a part of a frame.
use agent_term_status.Prelude.{
  ℕ, ◌+◌, ◌≤◌, ◌<◌, ◌≡◌, ◌≢◌, sym, ap, ◌∙◌, Option, some, List, ◌++◌, length, take, drop,
  append-take-drop, length-take, take-append, append_assoc, length-append, Result, ok, arith,
}
use agent_term_status.Daemon.Framing.{
  Reader, FrameError, IoError, read_frame, max_frame_bytes, from_be_bytes, to_be_bytes,
}
use agent_term_status.Daemon.Framing.Reading.{
  Reads, read_frame-Reads, ended, broken, too_large, truncated, complete,
}
use agent_term_status.Daemon.Framing.RoundTrip.{frame, from_be_bytes-to_be_bytes}

module _ (payload : List ℕ) (small : length payload ≤ max_frame_bytes) (n : ℕ)
    (part : n < length (frame payload)) where
  -- The header of what begins a frame is the frame's.
  header_lem :
      (header body : List ℕ)
      → take n (frame payload) ≡ header ++ body
      → length header ≡ 4
      → header ≡ to_be_bytes (length payload)
  unfolding to_be_bytes
  header_lem header body split four =
      sym (take-append header (body ++ drop n (frame payload)))
      ∙ ap (λ k. take k (header ++ (body ++ drop n (frame payload)))) four
      ∙ ap (take 4) (
          sym (append_assoc header body (drop n (frame payload)))
          ∙ ap (λ l. l ++ drop n (frame payload)) (sym split)
          ∙ sym (append-take-drop n (frame payload)))

  cut-Reads :
      (e : Option IoError) (x : Reader × Result (Option (List ℕ)) FrameError) (q : List ℕ)
      → Reads (record { left = take n (frame payload); failure = e }) x
      → x.1 ≢ ok (some q)
  cut-Reads e _ q (ended short f) h = cc h
  cut-Reads e _ q (broken f short ends ne) h = cc h
  cut-Reads e _ q (too_large header rest split four big) h = cc h
  cut-Reads e _ q (truncated header rest split four few fits) h = cc h
  cut-Reads e _ q (complete header body rest split four size fits) h =
      let same : from_be_bytes header ≡ length payload =
        ap from_be_bytes (header_lem header (body ++ rest) split four)
        ∙ from_be_bytes-to_be_bytes (length payload) (omega arith) in
      let whole : length (take n (frame payload)) ≡ length header + (length body + length rest) =
        ap length split
        ∙ length-append header (body ++ rest)
        ∙ ap (length header +◌) (length-append body rest) in
      unfold to_be_bytes in omega (arith, same, whole, length-take n (frame payload))

  -- A proper part of a frame is read as no payload.
  pub read_frame-cut :
      (e : Option IoError) (q : List ℕ)
      → (read_frame (record { left = take n (frame payload); failure = e })).1 ≢ ok (some q)
  read_frame-cut e q = cut-Reads e _ q (read_frame-Reads _)
