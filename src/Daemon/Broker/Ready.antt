-- ===== src/Daemon/Broker/Ready.antt =====
-- What holds of the broker between two branches of its loop (`Broker::run`,
-- crates/ats-daemon/src/broker.rs).
use agent_term_status.Prelude.{
  ℕ, ◌≡◌, true, false, arith, Option, List, [], ◌∷◌, ◌++◌, String, String_eq, str_eq, eq_iff,
  Bool-cases, inl, inr, Option-cases, if◌then◌else◌,
}
use agent_term_status.Prelude.Time.{DateTime}
use agent_term_status.Prelude.HashMap.{get-insert}
use agent_term_status.Core.{NormalizedEvent}
use agent_term_status.StateEngine.Engine.{StateTransition}
use agent_term_status.StateEngine.Valid.{IsValid, expire_ttls-IsValid}
use agent_term_status.Daemon.Broker.{
  Broker, Timed, push_pending, buffer_event, drain_and_process, check_ttls,
}
use agent_term_status.Daemon.Broker.Loop.{
  Input, Clock, shutdown_changed, received, closed, drain_tick, ttl_tick, LoopState, dispatch,
  drain, unless_empty, note_event, step, run,
}
use agent_term_status.Daemon.Broker.Session.{IsFor}
use agent_term_status.Daemon.Broker.Drain.{IsKeyed, buffer_of, drain_and_process-IsDrained}

module _ {M : Type 0} where
  IsFor-append :
      (sid : String) (l : Timed M) (t : DateTime) (event : NormalizedEvent M)
      → IsFor sid l
      → event.session.id ≡ sid
      → IsFor sid (l ++ (t, event) ∷ [])
  IsFor-append sid [] t event f e = (e, tt)
  IsFor-append sid ((_, x) ∷ l) t event f e = (f.0, IsFor-append sid l t event f.1 e)

module _ {W M : Type 0} where
  pub record IsReady (b : Broker W M) : Type 0 where
    pub valid : IsValid b.state_engine
    pub keyed : IsKeyed b

  -- Rendering changes neither the sessions nor the buffers.
  pub dispatch_keeps :
      (s : LoopState W M) (ts : List StateTransition) (clock : Clock)
      → ((dispatch s ts clock).broker.state_engine ≡ s.broker.state_engine)
        × ((dispatch s ts clock).broker.pending ≡ s.broker.pending)
  unfolding dispatch
  dispatch_keeps s ts clock = ground arith

  IsReady-of_same :
      (b b' : Broker W M)
      → b'.state_engine ≡ b.state_engine
      → b'.pending ≡ b.pending
      → IsReady b
      → IsReady b'
  IsReady-of_same b b' e p r = record {
    valid = rw e r.valid;
    keyed = record { own = λ sid. rw p (r.keyed.own sid) };
  }

  dispatch-IsReady :
      (s : LoopState W M) (ts : List StateTransition) (clock : Clock)
      → IsReady s.broker
      → IsReady (dispatch s ts clock).broker
  dispatch-IsReady s ts clock =
      IsReady-of_same s.broker (dispatch s ts clock).broker (dispatch_keeps s ts clock).0
        (dispatch_keeps s ts clock).1

  unless_empty-IsReady :
      (s : LoopState W M) (ts : List StateTransition) (clock : Clock)
      → IsReady s.broker
      → IsReady (unless_empty s ts clock).broker
  unfolding unless_empty
  unless_empty-IsReady s [] clock r = r
  unless_empty-IsReady s (t ∷ ts) clock r = dispatch-IsReady s (t ∷ ts) clock r

  drained-IsReady :
      (b : Broker W M) (now : DateTime) → IsReady b → IsReady (drain_and_process b now).0
  drained-IsReady b now r =
      let d = drain_and_process-IsDrained b now r.keyed in
      record { valid = d.valid r.valid; keyed = record { own = λ sid. rw (d.empty sid) tt } }

  pushed :
      (b : Broker W M) (event : NormalizedEvent M) (sid : String)
      → buffer_of (push_pending b event) sid ≡ (
          if str_eq event.session.id sid
          then buffer_of b event.session.id ++ (event.timestamp, event) ∷ []
          else buffer_of b sid)
  pushed b event sid = ground (
    arith,
    get-insert event.session.id sid (buffer_of b event.session.id ++ (event.timestamp, event) ∷ [])
        b.pending,
  )

  pub push_pending-IsReady :
      (b : Broker W M) (event : NormalizedEvent M) → IsReady b → IsReady (push_pending b event)
  push_pending-IsReady b event r = record {
    valid = r.valid;
    keyed = record {
      own = λ sid. elim (Bool-cases (str_eq event.session.id sid)) [
        | inl same ↦
            let e : event.session.id ≡ sid = (eq_iff event.session.id sid).0 same in
            rw (pushed b event sid, same)
              (IsFor-append sid (buffer_of b event.session.id) event.timestamp event
                (rw e (r.keyed.own sid)) e)
        | inr other ↦ rw (pushed b event sid, other) (r.keyed.own sid)
      ];
    };
  }

  module _ (from_slice : List ℕ → Option (NormalizedEvent M)) where
    received-IsReady :
        (s : LoopState W M) (raw : List ℕ)
        → IsReady s.broker
        → IsReady (note_event s (buffer_event from_slice s.broker raw)).broker
    unfolding note_event buffer_event
    received-IsReady s raw r = elim (Option-cases (from_slice raw)) [
      | inl bad ↦ rw bad r
      | inr (event, good) ↦ rw good (push_pending-IsReady s.broker event r)
    ]

    drain-IsReady :
        (s : LoopState W M) (now : DateTime) (clock : Clock)
        → IsReady s.broker
        → IsReady (drain s now clock).broker
    unfolding drain
    drain-IsReady s now clock r =
        let (b, ts) = drain_and_process s.broker now in
        dispatch-IsReady (record s { broker = b }) ts clock (drained-IsReady s.broker now r)

    -- Every branch of the loop keeps the sessions valid and each buffer to its own session.
    pub step-IsReady :
        (x : Input) (s : LoopState W M) → IsReady s.broker → IsReady (step from_slice x s).0.broker
    unfolding step
    step-IsReady (shutdown_changed true now clock) s r = drain-IsReady s now clock r
    step-IsReady (shutdown_changed false now clock) s r = r
    step-IsReady (received raw) s r = received-IsReady s raw r
    step-IsReady (closed now clock) s r = drain-IsReady s now clock r
    step-IsReady (drain_tick now clock) s r =
        let (b, ts) = drain_and_process s.broker now in
        unless_empty-IsReady (record s { broker = b }) ts clock (drained-IsReady s.broker now r)
    step-IsReady (ttl_tick now clock) s r =
        let (b, ts) = check_ttls s.broker now in
        unless_empty-IsReady (record s { broker = b }) ts clock
          (unfold check_ttls in
            record {
              valid = expire_ttls-IsValid s.broker.state_engine now r.valid;
              keyed = record { own = r.keyed.own };
            })

    -- Through any sequence of branches of the broker's loop the table of sessions stays valid and
    -- each buffer holds the events of its own session.
    pub run-IsReady :
        (xs : List Input) (s : LoopState W M)
        → IsReady s.broker
        → IsReady (run from_slice xs s).0.broker
    unfolding run
    run-IsReady [] s r = r
    run-IsReady (x ∷ xs) s r =
        let ready = step-IsReady x s r in
        elim (Bool-cases (step from_slice x s).1) [
          | inl on ↦ rw on (run-IsReady xs (step from_slice x s).0 ready)
          | inr off ↦ rw off ready
        ]
