-- ===== src/Daemon/Server/Accept/Permits.antt =====
-- How many connections are served at a time.
use agent_term_status.Prelude.{
  ℕ, zero, suc, ◌+◌, ◌<◌, ◌≡◌, refl, true, false, List, [], ◌∷◌, ◌++◌, length, length-append, arith,
}
use agent_term_status.Daemon.Server.Accept.{
  ServerConfig, Serving, Phase, accepting, draining, stopped, Event, shutdown_changed, accepted,
  grace_elapsed, unlinked, returning, serve, ended, step_in, accepting_step, draining_step,
  dropping_step, ending_step, admit, task_end, drained, step, run,
}

-- Each permit is free, or held by a task.
abbrev pub IsBalanced : ℕ → Serving → Type 0
IsBalanced max s = s.permits + length s.running ≡ max

length-ended : (c : ℕ) (ds : List ℕ) → length (ended c ds).0 + (ended c ds).1 ≡ length ds
unfolding ended
length-ended c [] = omega arith
length-ended c (d ∷ ds) = ground (arith, length-ended c ds)

drained-IsBalanced : (max : ℕ) (s : Serving) → IsBalanced max s → IsBalanced max (drained s)
drained-IsBalanced max s b = ground (arith, b)

task_end-IsBalanced : (max c : ℕ) (s : Serving) → IsBalanced max s → IsBalanced max (task_end c s)
task_end-IsBalanced max c s b = omega (arith, b, length-ended c s.running)

admit-IsBalanced :
    (max c n : ℕ) (s : Serving) → s.permits ≡ n → IsBalanced max s → IsBalanced max (admit c n s)
admit-IsBalanced max c zero s e b = b
admit-IsBalanced max c (suc n) s e b = omega (arith, e, b, length-append s.running (c ∷ []))

accepting_step-IsBalanced :
    (max : ℕ) (e : Event) (s : Serving) → IsBalanced max s → IsBalanced max (accepting_step e s)
accepting_step-IsBalanced max Event.shutdown_dropped s b =
    drained-IsBalanced max (record s { phase = draining }) b
accepting_step-IsBalanced max (shutdown_changed true) s b =
    drained-IsBalanced max (record s { phase = draining }) b
accepting_step-IsBalanced max (shutdown_changed false) s b = b
accepting_step-IsBalanced max Event.accept_failed s b = b
accepting_step-IsBalanced max (accepted c) s b = admit-IsBalanced max c s.permits s refl b
accepting_step-IsBalanced max Event.joined s b = b
accepting_step-IsBalanced max (Event.task_ended c) s b = task_end-IsBalanced max c s b
accepting_step-IsBalanced max grace_elapsed s b = b
accepting_step-IsBalanced max (unlinked ok_) s b = b

draining_step-IsBalanced :
    (max : ℕ) (e : Event) (s : Serving) → IsBalanced max s → IsBalanced max (draining_step e s)
draining_step-IsBalanced max Event.joined s b = drained-IsBalanced max _ b
draining_step-IsBalanced max (Event.task_ended c) s b = task_end-IsBalanced max c s b
draining_step-IsBalanced max grace_elapsed s b = b
draining_step-IsBalanced max Event.shutdown_dropped s b = b
draining_step-IsBalanced max (shutdown_changed c) s b = b
draining_step-IsBalanced max Event.accept_failed s b = b
draining_step-IsBalanced max (accepted c) s b = b
draining_step-IsBalanced max (unlinked ok_) s b = b

ending_step-IsBalanced :
    (max : ℕ) (e : Event) (s : Serving) → IsBalanced max s → IsBalanced max (ending_step e s)
ending_step-IsBalanced max (Event.task_ended c) s b = task_end-IsBalanced max c s b
ending_step-IsBalanced max Event.joined s b = b
ending_step-IsBalanced max grace_elapsed s b = b
ending_step-IsBalanced max Event.shutdown_dropped s b = b
ending_step-IsBalanced max (shutdown_changed c) s b = b
ending_step-IsBalanced max Event.accept_failed s b = b
ending_step-IsBalanced max (accepted c) s b = b
ending_step-IsBalanced max (unlinked ok_) s b = b

dropping_step-IsBalanced :
    (max : ℕ) (e : Event) (s : Serving) → IsBalanced max s → IsBalanced max (dropping_step e s)
dropping_step-IsBalanced max (unlinked true) s b = b
dropping_step-IsBalanced max (unlinked false) s b = b
dropping_step-IsBalanced max (Event.task_ended c) s b = task_end-IsBalanced max c s b
dropping_step-IsBalanced max Event.joined s b = b
dropping_step-IsBalanced max grace_elapsed s b = b
dropping_step-IsBalanced max Event.shutdown_dropped s b = b
dropping_step-IsBalanced max (shutdown_changed c) s b = b
dropping_step-IsBalanced max Event.accept_failed s b = b
dropping_step-IsBalanced max (accepted c) s b = b

step_in-IsBalanced :
    (max : ℕ) (p : Phase) (e : Event) (s : Serving)
    → IsBalanced max s
    → IsBalanced max (step_in p e s)
step_in-IsBalanced max accepting e s b = accepting_step-IsBalanced max e s b
step_in-IsBalanced max draining e s b = draining_step-IsBalanced max e s b
step_in-IsBalanced max returning e s b = dropping_step-IsBalanced max e s b
step_in-IsBalanced max stopped e s b = ending_step-IsBalanced max e s b

run-IsBalanced :
    (max : ℕ) (es : List Event) (s : Serving) → IsBalanced max s → IsBalanced max (run es s)
unfolding run step
run-IsBalanced max [] s b = b
run-IsBalanced max (e ∷ es) s b =
    run-IsBalanced max es (step e s) (step_in-IsBalanced max s.phase e s b)

-- What becomes of a client: it is served, or turned away where so many are being served already.
pub data Admitted (max c : ℕ) (s : Serving) : Serving → Type 0 where
  served :
      {s' : Serving}
      → length s.running < max
      → s'.running ≡ s.running ++ c ∷ []
      → s'.turned_away ≡ s.turned_away
      → Admitted max c s s'
  full :
      {s' : Serving}
      → length s.running ≡ max
      → s'.running ≡ s.running
      → s'.turned_away ≡ s.turned_away ++ c ∷ []
      → Admitted max c s s'

admit-Admitted :
    (max c n : ℕ) (s : Serving) → s.permits ≡ n → IsBalanced max s → Admitted max c s (admit c n s)
admit-Admitted max c zero s e b = full (omega (arith, e, b)) refl refl
admit-Admitted max c (suc n) s e b = served (omega (arith, e, b)) refl refl

step_in-Admitted :
    (max c : ℕ) (p : Phase) (s : Serving)
    → p ≡ accepting
    → IsBalanced max s
    → Admitted max c s (step_in p (accepted c) s)
step_in-Admitted max c accepting s e b = admit-Admitted max c s.permits s refl b
step_in-Admitted max c draining s e b = absurd (cc e)
step_in-Admitted max c returning s e b = absurd (cc e)
step_in-Admitted max c stopped s e b = absurd (cc e)

-- While the server accepts, after any events, a client is served if fewer than max_connections
-- connections are being served; if as many are, it is turned away and those go on.
pub step-Admitted :
    (config : ServerConfig) (es : List Event) (c : ℕ)
    → (run es (serve config)).phase ≡ accepting
    → Admitted config.max_connections c
        (run es (serve config))
        (step (accepted c) (run es (serve config)))
unfolding step serve
step-Admitted config es c p =
    let s : Serving = run es (serve config) in
    step_in-Admitted config.max_connections c s.phase s p
      (run-IsBalanced config.max_connections es (serve config) (omega arith))
