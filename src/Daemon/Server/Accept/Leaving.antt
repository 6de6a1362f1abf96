-- ===== src/Daemon/Server/Accept/Leaving.antt =====
-- What the steps of a server that accepts no more leave (crates/ats-daemon/src/server.rs).
use agent_term_status.Prelude.{
  ℕ, ◌≡◌, refl, ◌∙◌, ap, ◌⊎◌, inl, inr, true, false, List, [], ◌∷◌, is_empty, nat_eq, Bool-cases,
  ◌-◌,
}
use agent_term_status.Daemon.Server.Accept.{
  Serving, Phase, accepting, draining, returning, stopped, Event, shutdown_changed, accepted,
  grace_elapsed, unlinked, ended, step_in, draining_step, dropping_step, ending_step, drained,
  task_end, step, run,
}

-- A list without some of its elements.
pub data Sublist : List ℕ → List ℕ → Type 0 where
  nil : Sublist [] []
  keep : {c : ℕ} {xs ys : List ℕ} → Sublist xs ys → Sublist (c ∷ xs) (c ∷ ys)
  skip : {c : ℕ} {xs ys : List ℕ} → Sublist xs ys → Sublist xs (c ∷ ys)

Sublist-refl : (xs : List ℕ) → Sublist xs xs
Sublist-refl [] = nil
Sublist-refl (x ∷ xs) = keep (Sublist-refl xs)

Sublist-trans : {xs ys zs : List ℕ} → Sublist xs ys → Sublist ys zs → Sublist xs zs
Sublist-trans s nil = s
Sublist-trans s (skip t) = skip (Sublist-trans s t)
Sublist-trans (keep s) (keep t) = keep (Sublist-trans s t)
Sublist-trans (skip s) (keep t) = skip (Sublist-trans s t)

ended-Sublist : (c : ℕ) (ds : List ℕ) → Sublist (ended c ds).0 ds
unfolding ended
ended-Sublist c [] = nil
ended-Sublist c (d ∷ ds) = elim (Bool-cases (nat_eq c d)) [
  | inl same ↦ rw same (skip (Sublist-refl ds))
  | inr other ↦ rw other (keep (ended-Sublist c ds))
]

-- The loop is over, and the function returns or has returned.
abbrev pub IsOver : Phase → Type 0
IsOver p = (p ≡ returning) ⊎ (p ≡ stopped)

-- Nothing runs, or what runs has been told to abort.
abbrev pub IsTold : Serving → Type 0
IsTold s = (s.running ≡ []) ⊎ (s.aborted ≡ true)

-- A server that accepts no more: it waits for its tasks, or for none any longer.
abbrev pub IsLeaving : Serving → Type 0
IsLeaving s = (s.phase ≡ draining) ⊎ (IsOver s.phase × IsTold s)

-- No client has been added to those of a state, or turned away since.
pub record HasNoNew (s s' : Serving) : Type 0 where
  pub old_ones : Sublist s'.running s.running
  pub none_refused : s'.turned_away ≡ s.turned_away

-- What a step does to a server that leaves.
pub record Leaves (s s' : Serving) : Type 0 where
  pub leaving : IsLeaving s'
  pub no_new : HasNoNew s s'

HasNoNew-refl : (s : Serving) → HasNoNew s s
HasNoNew-refl s = record { old_ones = Sublist-refl s.running; none_refused = refl }

pub HasNoNew-trans : (a b c : Serving) → HasNoNew a b → HasNoNew b c → HasNoNew a c
HasNoNew-trans a b c x y = record {
  old_ones = Sublist-trans y.old_ones x.old_ones;
  none_refused = y.none_refused ∙ x.none_refused;
}

same : (s : Serving) → IsLeaving s → Leaves s s
same s l = record { leaving = l; no_new = HasNoNew-refl s }

pub drained-Leaves : (s : Serving) → s.phase ≡ draining → Leaves s (drained s)
drained-Leaves s p = elim (Bool-cases (nat_eq s.finished 0)) [
  | inl joined_all ↦ elim (Bool-cases (is_empty s.running)) [
    | inl none_left ↦
        rw (joined_all, none_left)
          (record {
            leaving = inr (inl refl, inl (empty s.running none_left));
            no_new = record { old_ones = Sublist-refl s.running; none_refused = refl };
          })
    | inr some_left ↦ rw (joined_all, some_left) (same s (inl p))
  ]
  | inr some_ended ↦ rw some_ended (same s (inl p))
]
  where
    empty : (l : List ℕ) → is_empty l ≡ true → l ≡ []
    empty [] h = refl
    empty (c ∷ l) h = absurd (cc h)

task_end-HasNoNew : (c : ℕ) (s : Serving) → HasNoNew s (task_end c s)
task_end-HasNoNew c s = record { old_ones = ended-Sublist c s.running; none_refused = refl }

task_end-IsTold : (c : ℕ) (s : Serving) → IsTold s → IsTold (task_end c s)
unfolding ended
task_end-IsTold c s (inl none_left) = inl (ap (λ l. (ended c l).0) none_left)
task_end-IsTold c s (inr told) = inr told

draining_step-Leaves : (e : Event) (s : Serving) → s.phase ≡ draining → Leaves s (draining_step e s)
draining_step-Leaves Event.joined s p =
    let d = drained-Leaves (record s { finished = s.finished - 1 }) p in
    record {
      leaving = d.leaving;
      no_new = record { old_ones = d.no_new.old_ones; none_refused = d.no_new.none_refused };
    }
draining_step-Leaves (Event.task_ended c) s p = record {
  leaving = inl p;
  no_new = task_end-HasNoNew c s;
}
draining_step-Leaves grace_elapsed s p = record {
  leaving = inr (inl refl, inr refl);
  no_new = record { old_ones = Sublist-refl s.running; none_refused = refl };
}
draining_step-Leaves Event.shutdown_dropped s p = same s (inl p)
draining_step-Leaves (shutdown_changed b) s p = same s (inl p)
draining_step-Leaves Event.accept_failed s p = same s (inl p)
draining_step-Leaves (accepted c) s p = same s (inl p)
draining_step-Leaves (unlinked b) s p = same s (inl p)

ending_step-Leaves :
    (e : Event) (s : Serving) → IsOver s.phase → IsTold s → Leaves s (ending_step e s)
ending_step-Leaves (Event.task_ended c) s o t = record {
  leaving = inr (o, task_end-IsTold c s t);
  no_new = task_end-HasNoNew c s;
}
ending_step-Leaves Event.joined s o t = same s (inr (o, t))
ending_step-Leaves grace_elapsed s o t = same s (inr (o, t))
ending_step-Leaves Event.shutdown_dropped s o t = same s (inr (o, t))
ending_step-Leaves (shutdown_changed b) s o t = same s (inr (o, t))
ending_step-Leaves Event.accept_failed s o t = same s (inr (o, t))
ending_step-Leaves (accepted c) s o t = same s (inr (o, t))
ending_step-Leaves (unlinked b) s o t = same s (inr (o, t))

dropping_step-Leaves :
    (e : Event) (s : Serving) → IsOver s.phase → IsTold s → Leaves s (dropping_step e s)
dropping_step-Leaves (unlinked true) s o t = record {
  leaving = inr (inr refl, t);
  no_new = record { old_ones = Sublist-refl s.running; none_refused = refl };
}
dropping_step-Leaves (unlinked false) s o t = record {
  leaving = inr (inr refl, t);
  no_new = record { old_ones = Sublist-refl s.running; none_refused = refl };
}
dropping_step-Leaves (Event.task_ended c) s o t = ending_step-Leaves (Event.task_ended c) s o t
dropping_step-Leaves Event.joined s o t = same s (inr (o, t))
dropping_step-Leaves grace_elapsed s o t = same s (inr (o, t))
dropping_step-Leaves Event.shutdown_dropped s o t = same s (inr (o, t))
dropping_step-Leaves (shutdown_changed b) s o t = same s (inr (o, t))
dropping_step-Leaves Event.accept_failed s o t = same s (inr (o, t))
dropping_step-Leaves (accepted c) s o t = same s (inr (o, t))

pub IsLeaving-IsOver :
    (p : Phase) (s : Serving) → s.phase ≡ p → IsOver p → IsLeaving s → IsOver s.phase × IsTold s
IsLeaving-IsOver p s h (inl r) (inl d) = absurd (cc (h, r, d))
IsLeaving-IsOver p s h (inr r) (inl d) = absurd (cc (h, r, d))
IsLeaving-IsOver p s h o (inr x) = x

-- A server that leaves, at its phase.
pub step_in-Leaves :
    (p : Phase) (e : Event) (s : Serving) → s.phase ≡ p → IsLeaving s → Leaves s (step_in p e s)
step_in-Leaves accepting e s h (inl d) = absurd (cc (h, d))
step_in-Leaves accepting e s h (inr (inl r, t)) = absurd (cc (h, r))
step_in-Leaves accepting e s h (inr (inr r, t)) = absurd (cc (h, r))
step_in-Leaves draining e s h l = draining_step-Leaves e s h
step_in-Leaves returning e s h l =
    let (o, t) = IsLeaving-IsOver returning s h (inl refl) l in dropping_step-Leaves e s o t
step_in-Leaves stopped e s h l =
    let (o, t) = IsLeaving-IsOver stopped s h (inr refl) l in ending_step-Leaves e s o t

pub run-Leaves : (es : List Event) (s : Serving) → IsLeaving s → Leaves s (run es s)
unfolding run step
run-Leaves [] s l = same s l
run-Leaves (e ∷ es) s l =
    let x = step_in-Leaves s.phase e s refl l in
    let y = run-Leaves es (step e s) x.leaving in
    record {
      leaving = y.leaving;
      no_new = HasNoNew-trans s (step e s) (run es (step e s)) x.no_new y.no_new;
    }
