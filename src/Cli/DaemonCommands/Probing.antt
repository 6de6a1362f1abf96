-- ===== src/Cli/DaemonCommands/Probing.antt =====
-- `socket_reachable` ends once the time has run out.
use agent_term_status.Prelude.{
  ℕ, zero, suc, ◌+◌, ◌≤◌, ◌<◌, ◌≡◌, refl, Bool, true, false, some, arith, Bool-cases, ◌⊎◌, inl, inr,
}
use agent_term_status.Cli.DaemonCommands.{probe, socket_reachable}

module _ (connects elapsed : ℕ → Bool) where
  -- No attempt from one number up to another has been answered, or been too late.
  abbrev pub AllFailed : ℕ → ℕ → Type 0
  AllFailed i n = (j : ℕ) → i ≤ j → j < n → (connects j ≡ false) × (elapsed j ≡ false)

  -- How the loop ends: the first attempt that is answered, or the first that is too late.
  pub data Probed (i : ℕ) : Bool → Type 0 where
    answered : (n : ℕ) → i ≤ n → AllFailed i n → connects n ≡ true → Probed i true
    timed_out :
        (n : ℕ) → i ≤ n → AllFailed i n → connects n ≡ false → elapsed n ≡ true → Probed i false

  le-cases : (i j : ℕ) → i ≤ j → (i ≡ j) ⊎ (suc i ≤ j)
  le-cases i j h = ground arith

  -- The time has not run out yet.
  still_before : (i n : ℕ) → i ≤ n → elapsed i ≡ false → elapsed n ≡ true → suc i ≤ n
  still_before i n h e t = elim (le-cases i n h) [
    | inl same ↦ absurd (cc (same, e, t))
    | inr above ↦ above
  ]

  none_before : (i : ℕ) → AllFailed i i
  none_before i j a b = absurd (omega (arith, a, b))

  one_more :
      (i n : ℕ) → connects i ≡ false → elapsed i ≡ false → AllFailed (suc i) n → AllFailed i n
  one_more i n c e f j a b = elim (le-cases i j a) [
    | inl same ↦ (rw (← same) c, rw (← same) e)
    | inr above ↦ f j above b
  ]

  later :
      (i : ℕ) (b : Bool) → connects i ≡ false → elapsed i ≡ false → Probed (suc i) b → Probed i b
  later i b c e (answered n l f t) = answered n (omega (arith, l)) (one_more i n c e f) t
  later i b c e (timed_out n l f t x) = timed_out n (omega (arith, l)) (one_more i n c e f) t x

  probe-Probed :
      (fuel i n : ℕ)
      → i ≤ n
      → n < i + fuel
      → elapsed n ≡ true
      → (b : Bool) × ((probe connects elapsed fuel i ≡ some b) × Probed i b)
  unfolding probe
  probe-Probed zero i n l m t = absurd (omega (arith, l, m))
  probe-Probed (suc fuel) i n l m t = elim (Bool-cases (connects i)) [
    | inl c ↦ (true, (rw c refl, answered i (omega arith) (none_before i) c))
    | inr c ↦ elim (Bool-cases (elapsed i)) [
      | inl e ↦ (false, (rw (c, e) refl, timed_out i (omega arith) (none_before i) c e))
      | inr e ↦
          let rest = probe-Probed fuel (suc i) n (still_before i n l e t) (omega (arith, m)) t in
          (rest.0, (rw (c, e) rest.1.0, later i rest.0 c e rest.1.1))
    ]
  ]

  -- If the time has run out at some attempt, socket_reachable ends, and no later than there: it
  -- tells that the socket is reachable at the first attempt that is answered, or that it is not at
  -- the first that fails after the time has run out. More units of fuel than that attempt's number
  -- are enough.
  pub socket_reachable-Probed :
      (fuel n : ℕ)
      → n < fuel
      → elapsed n ≡ true
      → (b : Bool) × ((socket_reachable connects elapsed fuel ≡ some b) × Probed 0 b)
  unfolding socket_reachable
  socket_reachable-Probed fuel n l t = probe-Probed fuel 0 n (omega arith) (omega (arith, l)) t
