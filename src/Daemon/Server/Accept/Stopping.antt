-- ===== src/Daemon/Server/Accept/Stopping.antt =====
-- What a server that is told to shut down comes to.
use agent_term_status.Prelude.{ℕ, zero, suc, ◌≡◌, refl, ◌⊎◌, inl, inr, true, false, List, [], ◌∷◌}
use agent_term_status.Daemon.Server.Accept.{
  ServerConfig, Serving, Phase, accepting, draining, returning, stopped, Event, shutdown_changed,
  accepted, grace_elapsed, unlinked, serve, step_in, accepting_step, dropping_step, ending_step,
  admit, step, run,
}
use agent_term_status.Daemon.Server.Accept.Leaving.{
  IsOver, IsTold, IsLeaving, HasNoNew, HasNoNew-trans, Leaves, drained-Leaves, IsLeaving-IsOver,
  step_in-Leaves, run-Leaves,
}

-- Once the grace period elapses, a server that leaves waits for none of its tasks.
step_in-grace :
    (p : Phase) (s : Serving)
    → s.phase ≡ p
    → IsLeaving s
    → IsOver (step_in p grace_elapsed s).phase × IsTold (step_in p grace_elapsed s)
step_in-grace accepting s h (inl d) = absurd (cc (h, d))
step_in-grace accepting s h (inr (inl r, t)) = absurd (cc (h, r))
step_in-grace accepting s h (inr (inr r, t)) = absurd (cc (h, r))
step_in-grace draining s h l = (inl refl, inr refl)
step_in-grace returning s h l = IsLeaving-IsOver returning s h (inl refl) l
step_in-grace stopped s h l = IsLeaving-IsOver stopped s h (inr refl) l

ending_step-IsOver : (e : Event) (s : Serving) → IsOver s.phase → IsOver (ending_step e s).phase
ending_step-IsOver (Event.task_ended c) s o = o
ending_step-IsOver Event.joined s o = o
ending_step-IsOver grace_elapsed s o = o
ending_step-IsOver Event.shutdown_dropped s o = o
ending_step-IsOver (shutdown_changed b) s o = o
ending_step-IsOver Event.accept_failed s o = o
ending_step-IsOver (accepted c) s o = o
ending_step-IsOver (unlinked b) s o = o

dropping_step-IsOver : (e : Event) (s : Serving) → IsOver s.phase → IsOver (dropping_step e s).phase
dropping_step-IsOver (unlinked true) s o = inr refl
dropping_step-IsOver (unlinked false) s o = inr refl
dropping_step-IsOver (Event.task_ended c) s o = o
dropping_step-IsOver Event.joined s o = o
dropping_step-IsOver grace_elapsed s o = o
dropping_step-IsOver Event.shutdown_dropped s o = o
dropping_step-IsOver (shutdown_changed b) s o = o
dropping_step-IsOver Event.accept_failed s o = o
dropping_step-IsOver (accepted c) s o = o

step_in-IsOver :
    (p : Phase) (e : Event) (s : Serving)
    → s.phase ≡ p
    → IsOver s.phase
    → IsOver (step_in p e s).phase
step_in-IsOver accepting e s h (inl r) = absurd (cc (h, r))
step_in-IsOver accepting e s h (inr r) = absurd (cc (h, r))
step_in-IsOver draining e s h (inl r) = absurd (cc (h, r))
step_in-IsOver draining e s h (inr r) = absurd (cc (h, r))
step_in-IsOver returning e s h o = dropping_step-IsOver e s o
step_in-IsOver stopped e s h o = ending_step-IsOver e s o

run-IsOver : (es : List Event) (s : Serving) → IsOver s.phase → IsOver (run es s).phase
unfolding run step
run-IsOver [] s o = o
run-IsOver (e ∷ es) s o = run-IsOver es (step e s) (step_in-IsOver s.phase e s refl o)

-- A server that has been started accepts, or leaves.
abbrev IsKnown : Serving → Type 0
IsKnown s = (s.phase ≡ accepting) ⊎ IsLeaving s

admit-accepting : (c n : ℕ) (s : Serving) → s.phase ≡ accepting → (admit c n s).phase ≡ accepting
admit-accepting c zero s p = p
admit-accepting c (suc n) s p = p

accepting_step-IsKnown :
    (e : Event) (s : Serving) → s.phase ≡ accepting → IsKnown (accepting_step e s)
accepting_step-IsKnown Event.shutdown_dropped s p =
    inr (drained-Leaves (record s { phase = draining }) refl).leaving
accepting_step-IsKnown (shutdown_changed true) s p =
    inr (drained-Leaves (record s { phase = draining }) refl).leaving
accepting_step-IsKnown (shutdown_changed false) s p = inl p
accepting_step-IsKnown Event.accept_failed s p = inl p
accepting_step-IsKnown (accepted c) s p = inl (admit-accepting c s.permits s p)
accepting_step-IsKnown Event.joined s p = inl p
accepting_step-IsKnown (Event.task_ended c) s p = inl p
accepting_step-IsKnown grace_elapsed s p = inl p
accepting_step-IsKnown (unlinked b) s p = inl p

step_in-IsKnown :
    (p : Phase) (e : Event) (s : Serving) → s.phase ≡ p → IsKnown s → IsKnown (step_in p e s)
step_in-IsKnown accepting e s h k = accepting_step-IsKnown e s h
step_in-IsKnown draining e s h k = inr (step_in-Leaves draining e s h (inl h)).leaving
step_in-IsKnown returning e s h (inl a) = absurd (cc (h, a))
step_in-IsKnown returning e s h (inr l) = inr (step_in-Leaves returning e s h l).leaving
step_in-IsKnown stopped e s h (inl a) = absurd (cc (h, a))
step_in-IsKnown stopped e s h (inr l) = inr (step_in-Leaves stopped e s h l).leaving

run-IsKnown : (es : List Event) (s : Serving) → IsKnown s → IsKnown (run es s)
unfolding run step
run-IsKnown [] s k = k
run-IsKnown (e ∷ es) s k = run-IsKnown es (step e s) (step_in-IsKnown s.phase e s refl k)

-- A server that is told to leaves, and keeps the clients that it has.
step_in-shutdown :
    (p : Phase) (s : Serving)
    → s.phase ≡ p
    → IsKnown s
    → Leaves s (step_in p (shutdown_changed true) s)
step_in-shutdown accepting s h k =
    let d = drained-Leaves (record s { phase = draining }) refl in
    record {
      leaving = d.leaving;
      no_new = record { old_ones = d.no_new.old_ones; none_refused = d.no_new.none_refused };
    }
step_in-shutdown draining s h k = step_in-Leaves draining (shutdown_changed true) s h (inl h)
step_in-shutdown returning s h (inl a) = absurd (cc (h, a))
step_in-shutdown returning s h (inr l) = step_in-Leaves returning (shutdown_changed true) s h l
step_in-shutdown stopped s h (inl a) = absurd (cc (h, a))
step_in-shutdown stopped s h (inr l) = step_in-Leaves stopped (shutdown_changed true) s h l

-- What has become of a server: the function returns or has returned, and of the clients that it had
-- at the shutdown those that are left have been told to abort.
pub record IsShutDown (s s' : Serving) : Type 0 where
  pub over : IsOver s'.phase
  pub told : IsTold s'
  pub no_new : HasNoNew s s'

shut_down :
    (es : List Event) (s t : Serving)
    → HasNoNew s t
    → IsOver t.phase
    → IsTold t
    → IsShutDown s (run es t)
shut_down es s t n o told =
    let x = run-Leaves es t (inr (o, told)) in
    let over = run-IsOver es t o in
    record {
      over = over;
      told = (IsLeaving-IsOver (run es t).phase (run es t) refl over x.leaving).1;
      no_new = HasNoNew-trans s t (run es t) n x.no_new;
    }

-- Whatever happens before, between and after, once the shutdown has been signalled and then the
-- grace period elapses, the accept loop's function returns or has returned, waiting for no
-- connection; of the connections that were served when the shutdown was signalled, none is left or
-- those that are have been told to abort, and since then no client has been added and none turned
-- away.
pub run-grace :
    (config : ServerConfig) (before after rest : List Event)
    → let s = run before (serve config) in
      IsShutDown s (run rest (step grace_elapsed (run after (step (shutdown_changed true) s))))
unfolding step serve
run-grace config before after rest =
    let s : Serving = run before (serve config) in
    let s1 : Serving = step (shutdown_changed true) s in
    let t : Serving = run after s1 in
    let x = step_in-shutdown s.phase s refl (run-IsKnown before (serve config) (inl refl)) in
    let y = run-Leaves after s1 x.leaving in
    let z = step_in-Leaves t.phase grace_elapsed t refl y.leaving in
    let (over, told) = step_in-grace t.phase t refl y.leaving in
    shut_down rest s (step grace_elapsed t)
      (HasNoNew-trans s s1 (step grace_elapsed t) x.no_new
        (HasNoNew-trans s1 t (step grace_elapsed t) y.no_new z.no_new))
      over told
