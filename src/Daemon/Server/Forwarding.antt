-- ===== src/Daemon/Server/Forwarding.antt =====
-- `handle_connection` of crates/ats-daemon/src/server.rs: what of a client's frames comes to the
-- broker.
use Prim.Native.Nat.add
use agent_term_status.Prelude.{
  ℕ, zero, suc, ◌+◌, ◌≤◌, ◌<◌, ◌≡◌, ◌≢◌, refl, ap, Bool, true, false, Option, some, none, List, [],
  ◌∷◌, ◌++◌, length, length-append, append_assoc, All, Result, ok, err, arith, Bool-cases, inl, inr,
}
use agent_term_status.Daemon.Framing.{
  Reader, FrameError, IoError, read_frame, read_exact, max_frame_bytes,
}
use agent_term_status.Daemon.Framing.Reading.{
  Reads, read_frame-Reads, ended, broken, too_large, truncated, complete,
}
use agent_term_status.Daemon.Framing.RoundTrip.{frame, read_frame-frame}
use agent_term_status.Daemon.Server.{Served, round, handle_connection}

-- The bytes of a client that sends these payloads.
unfoldable pub frames : List (List ℕ) → List ℕ
frames [] = []
frames (p ∷ ps) = frame p ++ frames ps

abbrev pub IsSmall : List ℕ → Type 0
IsSmall p = length p ≤ max_frame_bytes

shrinks :
    (r : Reader) (x : Reader × Result (Option (List ℕ)) FrameError) (p : List ℕ)
    → Reads r x
    → x.1 ≡ ok (some p)
    → length x.0.left < length r.left
shrinks r _ p (ended short e) h = absurd (cc h)
shrinks r _ p (broken e short ends ne) h = absurd (cc h)
shrinks r _ p (too_large header rest split four big) h = absurd (cc h)
shrinks r _ p (truncated header rest split four few fits) h = absurd (cc h)
shrinks r _ p (complete header payload rest split four size fits) h =
    rw split (omega (arith, length-append header (payload ++ rest), length-append payload rest))

abbrev pub Prefix : List (List ℕ) → List (List ℕ) → Type 0
Prefix xs ys = (zs : List (List ℕ)) × (ys ≡ xs ++ zs)

module _ (elapsed is_open : ℕ → Bool) where
  -- A round that goes on has taken the bytes of a frame from the stream.
  round-ends :
      (x : Result (Option (List ℕ)) FrameError) (open_ : Bool) (rest : Served)
      → ((p : List ℕ) → x ≡ ok (some p) → rest.ending ≢ none)
      → (round x open_ rest).ending ≢ none
  round-ends (ok none) open_ rest h = λ e. cc e
  round-ends (ok (some p)) false rest h = λ e. cc e
  round-ends (ok (some p)) true rest h = h p refl
  round-ends (err e) open_ rest h = λ e. cc e

  -- The loop that serves a connection breaks before it has made more rounds than the stream has
  -- bytes left.
  handle_connection-ends :
      (fuel i : ℕ) (r : Reader)
      → length r.left < fuel
      → (handle_connection elapsed is_open fuel i r).ending ≢ none
  unfolding handle_connection
  handle_connection-ends zero i r h = absurd (omega arith)
  handle_connection-ends (suc fuel) i r h = elim (Bool-cases (elapsed i)) [
    | inl late ↦ rw late (λ e. cc e)
    | inr on_time ↦ rw on_time (
        round-ends (read_frame r).1 (is_open i)
          (handle_connection elapsed is_open fuel (suc i) (read_frame r).0)
          (λ p e.
            handle_connection-ends fuel (suc i) (read_frame r).0
              (omega (arith, shrinks r (read_frame r) p (read_frame-Reads r) e))))
  ]

  -- Whatever reads time out, and whenever the broker's channel closes or the transport fails, what
  -- the server forwards of a client's frames of at most 64 KiB is a prefix of their payloads.
  handle_connection-Prefix :
      (fuel i : ℕ) (ps : List (List ℕ)) (e : Option IoError)
      → All IsSmall ps
      → Prefix
          (handle_connection elapsed is_open fuel i
            (record { left = frames ps; failure = e })).events
          ps
  unfolding handle_connection frames
  handle_connection-Prefix zero i ps e small = (ps, refl)
  handle_connection-Prefix (suc fuel) i [] e small =
      ([], unfold read_frame read_exact in ground arith)
  handle_connection-Prefix (suc fuel) i (p ∷ ps) e small =
      let (zs, h) = handle_connection-Prefix fuel (suc i) ps e small.1 in
      rw (read_frame-frame p (frames ps) e small.0) (elim (Bool-cases (elapsed i)) [
        | inl late ↦ rw late (p ∷ ps, refl)
        | inr on_time ↦ rw on_time (elim (Bool-cases (is_open i)) [
          | inl open_ ↦ rw open_ (zs, ap (◌∷◌ p) h)
          | inr closed ↦ rw closed (p ∷ ps, refl)
        ])
      ])

  -- Of a client that sends frames of at most 64 KiB, and then any other bytes, the server forwards
  -- the payloads to the broker unchanged and in order, and then does with the other bytes as it
  -- would on a new connection, as long as no read times out and the broker's channel is open.
  pub handle_connection-frames :
      (fuel i : ℕ) (ps : List (List ℕ)) (rest : List ℕ) (e : Option IoError)
      → All IsSmall ps
      → ((j : ℕ) → elapsed j ≡ false)
      → ((j : ℕ) → is_open j ≡ true)
      → let all =
          handle_connection elapsed is_open
            (length ps + fuel)
            i
            (record { left = frames ps ++ rest; failure = e }) in
        let after =
          handle_connection elapsed is_open fuel
            (length ps + i)
            (record { left = rest; failure = e }) in
        (all.events ≡ ps ++ after.events) × (all.ending ≡ after.ending)
  unfolding handle_connection frames
  handle_connection-frames fuel i [] rest e small on_time open_ =
      rw (add.zero fuel, add.zero i) (refl, refl)
  handle_connection-frames fuel i (p ∷ ps) rest e small on_time open_ =
      let ih = handle_connection-frames fuel (suc i) ps rest e small.1 on_time open_ in
      let turn : suc (length ps) + fuel ≡ suc (length ps + fuel) = omega arith in
      let next : suc (length ps) + i ≡ length ps + suc i = omega arith in
      rw
        (
          turn,
          next,
          append_assoc (frame p) (frames ps) rest,
          read_frame-frame p (frames ps ++ rest) e small.0,
          on_time i,
          open_ i,
        )
        (ap (◌∷◌ p) ih.0, ih.1)
