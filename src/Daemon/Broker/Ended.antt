-- ===== src/Daemon/Broker/Ended.antt =====
-- How the loop of `Broker::run` (crates/ats-daemon/src/broker.rs) ends.
use agent_term_status.Prelude.{
  ◌≡◌, refl, ap, true, false, Option, List, [], ◌∷◌, ◌++◌, Bool-cases, inl, inr, ℕ,
}
use agent_term_status.Prelude.Time.{DateTime}
use agent_term_status.Core.{NormalizedEvent}
use agent_term_status.Daemon.Broker.{Broker, drain_and_process}
use agent_term_status.Daemon.Broker.Loop.{
  Input, Clock, shutdown_changed, received, closed, drain_tick, ttl_tick, LoopState, drain, step,
  run,
}
use agent_term_status.Daemon.Broker.Drain.{IsDrained, drain_and_process-IsDrained}
use agent_term_status.Daemon.Broker.Ready.{IsReady, dispatch_keeps, step-IsReady}

-- The two branches that break: the shutdown, and a channel that is closed.
pub data IsLast (now : DateTime) : Input → Type 0 where
  shut_down : {clock : Clock} → IsLast now (shutdown_changed true now clock)
  hung_up : {clock : Clock} → IsLast now (closed now clock)

module _ {W M : Type 0} (from_slice : List ℕ → Option (NormalizedEvent M)) where
  drain-IsDrained :
      (s : LoopState W M) (now : DateTime) (clock : Clock)
      → IsReady s.broker
      → IsDrained s.broker now (drain s now clock).broker
  unfolding drain
  drain-IsDrained s now clock r =
      let (b, ts) = drain_and_process s.broker now in
      let (engine, pending) = dispatch_keeps (record s { broker = b }) ts clock in
      let d = drain_and_process-IsDrained s.broker now r.keyed in
      record {
        settled = λ j. rw engine (d.settled j);
        empty = λ j. rw pending (d.empty j);
        valid = λ v. rw engine (d.valid v);
      }

  -- A branch that breaks, and what it leaves.
  pub record Breaks (s : LoopState W M) (x : Input) (b' : Broker W M) : Type 0 where
    pub now : DateTime
    pub last : IsLast now x
    pub left : IsDrained s.broker now b'

  step-Breaks :
      (x : Input) (s : LoopState W M)
      → IsReady s.broker
      → (step from_slice x s).1 ≡ false
      → Breaks s x (step from_slice x s).0.broker
  unfolding step
  step-Breaks (shutdown_changed true now clock) s r h = record {
    now = now;
    last = shut_down;
    left = drain-IsDrained s now clock r;
  }
  step-Breaks (shutdown_changed false now clock) s r h = absurd (cc h)
  step-Breaks (received raw) s r h = absurd (cc h)
  step-Breaks (closed now clock) s r h = record {
    now = now;
    last = hung_up;
    left = drain-IsDrained s now clock r;
  }
  step-Breaks (drain_tick now clock) s r h = absurd (cc h)
  step-Breaks (ttl_tick now clock) s r h = absurd (cc h)

  -- A run that has ended: the branches before the last one, the state they led to, and the last.
  pub record Ended (xs : List Input) (s : LoopState W M) (b' : Broker W M) : Type 0 where
    pub before : List Input
    pub reached : LoopState W M
    pub ending : Input
    pub unread : List Input
    pub split : xs ≡ before ++ ending ∷ unread
    pub goes_on : run from_slice before s ≡ (reached, true)
    pub breaks : Breaks reached ending b'

  -- Where the broker's loop, started from any ready broker, has ended after some inputs, it ended
  -- in a shutdown or the channel's closing, after branches that all went on, and it drained the
  -- broker of that moment: every session is as its own buffered events, in the order of their
  -- timestamps, leave it, and nothing is left buffered. The inputs after that one are not read.
  pub run-Ended :
      (xs : List Input) (s : LoopState W M)
      → IsReady s.broker
      → (run from_slice xs s).1 ≡ false
      → Ended xs s (run from_slice xs s).0.broker
  unfolding run
  run-Ended [] s r h = absurd (cc h)
  run-Ended (x ∷ xs) s r h = elim (Bool-cases (step from_slice x s).1) [
    | inl on ↦
        let s1 = (step from_slice x s).0 in
        let e = run-Ended xs s1 (step-IsReady from_slice x s r) (rw on at h) in
        rw on (record {
          before = x ∷ e.before;
          reached = e.reached;
          ending = e.ending;
          unread = e.unread;
          split = ap (x ∷◌) e.split;
          goes_on = rw on e.goes_on;
          breaks = e.breaks;
        })
    | inr off ↦ rw off (record {
      before = [];
      reached = s;
      ending = x;
      unread = xs;
      split = refl;
      goes_on = refl;
      breaks = step-Breaks x s r off;
    })
  ]
