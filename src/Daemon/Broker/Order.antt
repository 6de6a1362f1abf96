-- ===== src/Daemon/Broker/Order.antt =====
-- How far the order of a session's events matters (`ingest`, `drain_and_process` of
-- crates/ats-daemon/src/broker.rs).
use Prim.Native.Nat.{max}
use mathlib.Core.List.{Perm, Permᴰ}
use mathlib.Core.Logic.{∥∥₁_elim}
use native.Mathlib.Nat.{ℕ_set}
use agent_term_status.Prelude.{
  ℕ, ◌≡◌, ◌≢◌, refl, false, arith, some, [], ◌∷◌, sym, ◌∙◌, ap, ℕ_eq, inl,
}
use agent_term_status.Prelude.Time.{DateTime}
use agent_term_status.Prelude.HashMap.{HashSet, contains, set_insert}
use agent_term_status.Core.{NormalizedEvent, Uuid, provider_disconnected}
use agent_term_status.StateEngine.Priority.{priority, state_from_event}
use agent_term_status.StateEngine.Machine.{SessionState, forced_transition, apply}
use agent_term_status.StateEngine.Engine.{event_is_risk}
use agent_term_status.StateEngine.Transitions.{priority-injective, apply_new, resolve_joined}
use agent_term_status.Daemon.Broker.{Timed}
use agent_term_status.Daemon.Broker.Session.{run_session}

module _ {M : Type 0} where
  -- New events that can only raise the state.
  abbrev pub IsQuiet : HashSet Uuid → Timed M → Type 0
  IsQuiet seen [] = Unit
  IsQuiet seen ((_, e) ∷ l) =
      (contains e.event_id seen ≡ false)
      × (forced_transition e.event_type ≡ false)
      × (e.event_type ≢ provider_disconnected)
      × IsQuiet (e.event_id ∷ seen) l

  abbrev proposed : NormalizedEvent M → ℕ
  proposed e = priority (state_from_event e.event_type (event_is_risk e))

  -- The highest of a priority and those that a list of events proposes.
  pub top : ℕ → Timed M → ℕ
  top p [] = p
  top p ((_, e) ∷ l) = max (proposed e) (top p l)

  top-max : (p q : ℕ) (l : Timed M) → top (max p q) l ≡ max q (top p l)
  unfolding top
  top-max p q [] = omega arith
  top-max p q ((_, e) ∷ l) = omega (arith, top-max p q l)

  apply_quiet :
      (s : SessionState) (e : NormalizedEvent M)
      → contains e.event_id s.seen_event_ids ≡ false
      → forced_transition e.event_type ≡ false
      → e.event_type ≢ provider_disconnected
      → let s' = (apply s e.event_id e.event_type (event_is_risk e) e.timestamp).0 in
        (priority s'.state ≡ max (priority s.state) (proposed e))
        × (s'.seen_event_ids ≡ e.event_id ∷ s.seen_event_ids)
  unfolding set_insert
  apply_quiet s e fresh unforced n =
      let (st, _, _, seen) =
        apply_new s e.event_id e.event_type (event_is_risk e) e.timestamp fresh in
      (
        rw st (resolve_joined s.state s.error_type e.event_type (event_is_risk e) unforced (inl n)),
        ground arith,
      )

  run_session-top :
      (now : DateTime) (s : SessionState) (l : Timed M)
      → IsQuiet s.seen_event_ids l
      → (s' : SessionState) × (run_session now (some s) l ≡ some s')
        × (priority s'.state ≡ top (priority s.state) l)
  unfolding run_session top
  run_session-top now s [] q = (s, refl, refl)
  run_session-top now s ((_, e) ∷ l) q =
      let s1 : SessionState = (apply s e.event_id e.event_type (event_is_risk e) e.timestamp).0 in
      let (p, seen) = apply_quiet s e q.0 q.1 q.2 in
      let (s', r, t) = run_session-top now s1 l (rw seen q.3) in
      (s', r, t ∙ (rw p (top-max (priority s.state) (proposed e) l)))

  top-permᴰ : (p : ℕ) {l r : Timed M} → Permᴰ l r → top p l ≡ top p r
  unfolding top
  top-permᴰ p Permᴰ.nil = refl
  top-permᴰ p (Permᴰ.cons {a = x} {b = y} e d) =
      let h : proposed x.1 ≡ proposed y.1 = ap (λ z. proposed z.1) e in omega (arith, top-permᴰ p d)
  top-permᴰ p (Permᴰ.swap {a = x} {b = y} {a' = z} {b' = w} {l = l} e f) =
      let h : proposed x.1 ≡ proposed w.1 = ap (λ v. proposed v.1) e in
      let k : proposed y.1 ≡ proposed z.1 = ap (λ v. proposed v.1) f in omega arith
  top-permᴰ p (Permᴰ.trans d d') = top-permᴰ p d ∙ top-permᴰ p d'

  top-perm : (p : ℕ) (l r : Timed M) → Perm l r → top p l ≡ top p r
  top-perm p l r h = ∥∥₁_elim h (ℕ_set (top p l) (top p r)) (top-permᴰ p)

  -- Whatever the order in which a session takes a list of events, none of them seen before or
  -- sharing its id with another, forced, or reporting a lost provider, it ends in the same state:
  -- the one of the highest priority among its own and those that the events propose.
  pub run_session-perm :
      (now : DateTime) (s : SessionState) (l r : Timed M)
      → IsQuiet s.seen_event_ids l
      → IsQuiet s.seen_event_ids r
      → Perm l r
      → (a b : SessionState) × (run_session now (some s) l ≡ some a)
        × (run_session now (some s) r ≡ some b)
        × (a.state ≡ b.state)
        × (priority a.state ≡ top (priority s.state) l)
  run_session-perm now s l r ql qr h =
      let (a, ra, ta) = run_session-top now s l ql in
      let (b, rb, tb) = run_session-top now s r qr in
      (
        a,
        b,
        ra,
        rb,
        priority-injective a.state b.state (ta ∙ top-perm (priority s.state) l r h ∙ sym tb),
        ta,
      )
