-- ===== src/Daemon/PidFile/Outcomes.antt =====
-- How `PidFile::acquire` (crates/ats-daemon/src/pidfile.rs) ends.
use agent_term_status.Prelude.{
  ℕ, ◌+◌, ◌*◌, ◌≤◌, ◌<◌, String, true, false, Option, some, none, List, [], ◌∷◌, length, ◌≡◌, ◌⊎◌,
  inl, inr, refl, arith, Bool-cases, Option-cases, nat_eq_iff,
}
use agent_term_status.Prelude.Int.{ℤ}
use agent_term_status.Daemon.PidFile.{
  File, Disk, Phase, creating, writing, reading, removing, acquired, refused, PidFileError,
  already_running, Killed, is_live, step, run, acquire, max_attempts,
}

-- How many steps are left at most.
abbrev rank : Phase → ℕ
rank (creating n) = 3 * n + 1
rank (writing inode) = 1
rank (reading n) = 3 * n + 3
rank (removing n) = 3 * n + 2
rank acquired = 0
rank (refused e) = 0

abbrev pub IsFinal : Phase → Type 0
IsFinal p = (p ≡ acquired) ⊎ ((e : PidFileError) × (p ≡ refused e))

rank-IsFinal : (p : Phase) → rank p ≡ 0 → IsFinal p
rank-IsFinal (creating n) h = absurd (omega arith)
rank-IsFinal (writing inode) h = absurd (omega arith)
rank-IsFinal (reading n) h = absurd (omega arith)
rank-IsFinal (removing n) h = absurd (omega arith)
rank-IsFinal acquired h = inl refl
rank-IsFinal (refused e) h = inr (e, refl)

module _ (kill : ℤ → Killed) (parse : String → Option ℤ) (show : ℤ → String) (own : ℤ) where
  step-rank :
      (fault : Option ℕ) (p : Phase) (d : Disk)
      → (rank (step kill parse show own fault p d).0 < rank p)
        ⊎ (rank (step kill parse show own fault p d).0 ≡ 0)
  unfolding step
  step-rank fault p d = ground arith

  run-rank :
      (xs : List (Option ℕ × (Disk → Disk))) (p : Phase) (d : Disk)
      → rank p ≤ length xs
      → rank (run kill parse show own xs p d).0 ≡ 0
  unfolding run
  run-rank [] p d h = omega arith
  run-rank ((fault, others) ∷ xs) p d h =
      let (p1, d1) = step kill parse show own fault p (others d) in
      run-rank xs p1 d1 (omega (arith, step-rank fault p (others d)))

  -- Whatever other processes do to the file between its system calls, and whatever faults these
  -- have, acquire has acquired or given an error after at most 10 steps.
  pub acquire-IsFinal :
      (xs : List (Option ℕ × (Disk → Disk))) (d : Disk)
      → 10 ≤ length xs
      → IsFinal (acquire kill parse show own xs d).0
  unfolding acquire
  acquire-IsFinal xs d h =
      rank-IsFinal (acquire kill parse show own xs d).0 (run-rank xs (creating max_attempts) d h)

-- A step with no fault and nobody else at the disk.
abbrev pub idle_step : Option ℕ × (Disk → Disk)
idle_step = (none, λ d. d)

abbrev pub alone : List (Option ℕ × (Disk → Disk))
alone =
    idle_step ∷ idle_step ∷ idle_step ∷ idle_step ∷ idle_step ∷ idle_step ∷ idle_step ∷ idle_step
    ∷ idle_step ∷ idle_step ∷ []

module _ (kill : ℤ → Killed) (parse : String → Option ℤ) (show : ℤ → String) (own : ℤ) where
  -- The process that the file names is a live one, and not this one.
  pub record IsHeld (d : Disk) (pid : ℤ) : Type 0 where
    pub file : File
    pub there : d.file ≡ some file
    pub named : parse file.contents ≡ some pid
    pub live : is_live kill parse show own pid ≡ true

  pub data Alone (d : Disk) : Phase × Disk → Type 0 where
    held : {pid : ℤ} → IsHeld d pid → Alone d (refused (already_running pid), d)
    free :
        {d' : Disk}
        → ((pid : ℤ) → IsHeld d pid → ⊥)
        → d'.file ≡ some (record { inode = d.next; contents = show own })
        → Alone d (acquired, d')

  -- A file that names no process, or none that holds it, is stale.
  not_named :
      (f : File) (next : ℕ) (pid : ℤ)
      → parse f.contents ≡ none
      → IsHeld (record { file = some f; next = next }) pid
      → ⊥
  not_named f next pid h x = let same : f ≡ x.file = cc (x.there) in cc (h, same, x.named)

  not_live :
      (f : File) (next : ℕ) (named : ℤ) (pid : ℤ)
      → parse f.contents ≡ some named
      → is_live kill parse show own named ≡ false
      → IsHeld (record { file = some f; next = next }) pid
      → ⊥
  not_live f next named pid h dead x =
      let same : f ≡ x.file = cc (x.there) in
      let which : named ≡ pid = cc (h, same, x.named) in cc (which, dead, x.live)

  acquired_alone :
      (next : ℕ) (file : Option File)
      → Alone
          (record { file = file; next = next })
          (acquire kill parse show own alone (record { file = file; next = next }))
  unfolding acquire run step
  acquired_alone next none = rw ((nat_eq_iff next next).1 refl) (free (λ pid x. cc x.there) refl)
  acquired_alone next (some f) = elim (Option-cases (parse f.contents)) [
    | inl nobody ↦
        rw (nobody, (nat_eq_iff next next).1 refl) (free (λ pid. not_named f next pid nobody) refl)
    | inr (pid, named) ↦ elim (Bool-cases (is_live kill parse show own pid)) [
      | inl live ↦
          rw (named, live) (held (record { file = f; there = refl; named = named; live = live }))
      | inr dead ↦
          rw (named, dead, (nat_eq_iff next next).1 refl)
            (free (λ p. not_live f next pid p named dead) refl)
    ]
  ]

  -- With no fault and no other process at the file, acquire refuses, and leaves the disk as it is,
  -- exactly when the file names a live process that is not its own; otherwise it acquires, and the
  -- file is a new one that holds its own number.
  pub acquire-Alone : (d : Disk) → Alone d (acquire kill parse show own alone d)
  acquire-Alone d = acquired_alone d.next d.file
