-- ===== src/Daemon/Broker/Loop.antt =====
-- `Broker::run` of crates/ats-daemon/src/broker.rs as a step for each branch of its `select!`: the
-- environment chooses the branch and gives the readings of the clock.
use agent_term_status.Prelude.{
  ℕ, Bool, true, false, Option, some, none, List, [], ◌∷◌, String_eq, if◌then◌else◌, is_empty,
  Result, ok, err,
}
use agent_term_status.Prelude.Time.{DateTime}
use agent_term_status.Prelude.HashMap.{insert}
use agent_term_status.Core.{NormalizedEvent, Activity, ActivityLabel}
use agent_term_status.StateEngine.Engine.{StateTransition}
use agent_term_status.Rendering.Engine.{RenderingEngine}
use agent_term_status.Daemon.Broker.{
  Broker, BrokerError, SessionInfo, buffer_event, drain_and_process, check_ttls, dispatch_render,
}

-- The two readings of the clock that each render of a branch makes.
abbrev pub Clock : Type 0
Clock = ℕ → DateTime × DateTime

pub data Input : Type 0 where
  -- whether the channel is gone or holds `true`
  shutdown_changed : Bool → DateTime → Clock → Input
  received : List ℕ → Input
  closed drain_tick ttl_tick : DateTime → Clock → Input

pub record LoopState (W M : Type 0) : Type 0 where
  pub broker : Broker W M
  pub session_info : SessionInfo
  pub world : W

abbrev pub label_of : Option Activity → Option ActivityLabel
label_of none = none
label_of (some a) = a.label

module _ {W M : Type 0} where
  dispatch_with :
      LoopState W M → Option (RenderingEngine W) → List StateTransition → Clock → LoopState W M
  dispatch_with s none ts clock = s
  dispatch_with s (some engine) ts clock =
      let (engine', w) = dispatch_render engine ts s.session_info clock s.world in
      record s { broker = record s.broker { rendering_engine = some engine' }; world = w }

  -- `if let Some(engine) = &self.rendering_engine { dispatch_render(...) }`
  unfoldable pub dispatch : LoopState W M → List StateTransition → Clock → LoopState W M
  unfolding dispatch_with
  dispatch s ts clock = dispatch_with s s.broker.rendering_engine ts clock

  unfoldable pub drain : LoopState W M → DateTime → Clock → LoopState W M
  drain s now clock =
      let (b, ts) = drain_and_process s.broker now in dispatch (record s { broker = b }) ts clock

  unfoldable pub unless_empty : LoopState W M → List StateTransition → Clock → LoopState W M
  unless_empty s ts clock = if is_empty ts then s else dispatch s ts clock

  unfoldable pub note_event :
      LoopState W M → Broker W M × Result (NormalizedEvent M) BrokerError → LoopState W M
  note_event s (b, ok event) = record s {
    broker = b;
    session_info =
        insert event.session.id (label_of event.activity, event.session.terminal) s.session_info;
  }
  note_event s (b, err e) = record s { broker = b }

  module _ (from_slice : List ℕ → Option (NormalizedEvent M)) where
    -- The state after one branch, and whether the loop goes on.
    unfoldable pub step : Input → LoopState W M → LoopState W M × Bool
    unfolding unless_empty note_event
    step (shutdown_changed true now clock) s = (drain s now clock, false)
    step (shutdown_changed false now clock) s = (s, true)
    step (received raw) s = (note_event s (buffer_event from_slice s.broker raw), true)
    step (closed now clock) s = (drain s now clock, false)
    step (drain_tick now clock) s =
        let (b, ts) = drain_and_process s.broker now in
        (unless_empty (record s { broker = b }) ts clock, true)
    step (ttl_tick now clock) s =
        let (b, ts) = check_ttls s.broker now in
        (unless_empty (record s { broker = b }) ts clock, true)

    -- The loop over the inputs until a branch breaks; the flag says whether it is still going.
    unfoldable pub run : List Input → LoopState W M → LoopState W M × Bool
    run [] s = (s, true)
    run (x ∷ xs) s =
        let (s', go_on) = step x s in let rest = run xs s' in if go_on then rest else (s', false)
