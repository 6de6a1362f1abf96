-- ===== src/Daemon/Broker.antt =====
-- crates/ats-daemon/src/broker.rs. The JSON decoder is the parameter `from_slice`; a method that
-- mutates `self` returns the new broker. `M` is the JSON library's type of objects, `W` the world
-- that renderers draw on.
pub mod Sorting
pub mod Session
pub mod Drain
pub mod Loop
pub mod Ready
pub mod Ended
pub mod Order
use agent_term_status.Prelude.{
  ℕ, suc, String, Bool, true, false, Option, some, none, List, [], ◌∷◌, ◌++◌, map, Result, ok, err,
  if◌then◌else◌, String_eq, length, leb, is_empty,
}
use agent_term_status.Prelude.Time.{DateTime}
use agent_term_status.Prelude.HashMap.{HashMap, get, insert, keys}
use agent_term_status.Core.{AgentState, ActivityLabel, Activity, TerminalContext, NormalizedEvent}
use agent_term_status.StateEngine.Engine
use agent_term_status.StateEngine.Engine.{StateEngine, StateTransition, ingest, expire_ttls}
use agent_term_status.Renderer.{RenderTarget, StateView}
use agent_term_status.Rendering.Engine.{RenderingEngine, render}

pub record BrokerConfig : Type 0 where
  pub ordering_window_ms : ℕ
  pub ttl_check_interval_ms : ℕ

abbrev pub default_config : BrokerConfig
default_config = record { ordering_window_ms = 50; ttl_check_interval_ms = 1000 }

pub data BrokerError : Type 0 where
  deserialize : ℕ → BrokerError
  no_rendering_engine : BrokerError

abbrev pub Timed : Type 0 → Type 0
Timed M = List (DateTime × NormalizedEvent M)

pub record Broker (W M : Type 0) : Type 0 where
  pub state_engine : StateEngine
  pub rendering_engine : Option (RenderingEngine W)
  pub config : BrokerConfig
  pub pending : HashMap String (Timed M)

-- `session_info`: the label and the terminal of the last event of each session.
abbrev pub SessionInfo : Type 0
SessionInfo = HashMap String (Option ActivityLabel × Option TerminalContext)

abbrev pub collect : Option StateTransition → List StateTransition → List StateTransition
collect none l = l
collect (some t) l = t ∷ l

module _ {M : Type 0} where
  abbrev pub or_empty : Option (Timed M) → Timed M
  or_empty none = []
  or_empty (some l) = l

  insert_by_time : DateTime × NormalizedEvent M → Timed M → Timed M
  insert_by_time x [] = x ∷ []
  insert_by_time x (y ∷ l) = if leb x.0 y.0 then x ∷ y ∷ l else y ∷ insert_by_time x l

  -- The stable sort of the standard library, `sort_by_key(|(ts, _)| *ts)`.
  unfoldable pub sort_by_time : Timed M → Timed M
  unfolding insert_by_time
  sort_by_time [] = []
  sort_by_time (x ∷ l) = insert_by_time x (sort_by_time l)

  -- `for (_, event) in events.drain(..)`: the engine, and the transitions in order.
  unfoldable pub ingest_all : StateEngine → DateTime → Timed M → StateEngine × List StateTransition
  ingest_all eng now [] = (eng, [])
  ingest_all eng now ((_, event) ∷ l) =
      let (eng1, t) = ingest eng event now in
      let (eng2, ts) = ingest_all eng1 now l in (eng2, collect t ts)

module _ {W M : Type 0} where
  unfoldable pub new : StateEngine → Option (RenderingEngine W) → BrokerConfig → Broker W M
  new state_engine rendering_engine config = record {
    state_engine = state_engine;
    rendering_engine = rendering_engine;
    config = config;
    pending = [];
  }

  abbrev pub push_pending : Broker W M → NormalizedEvent M → Broker W M
  push_pending b event = record b {
    pending =
        insert event.session.id
          (or_empty (get event.session.id b.pending) ++ (event.timestamp, event) ∷ []) b.pending;
  }

  abbrev buffered :
      Broker W M
      → ℕ
      → Option (NormalizedEvent M)
      → Broker W M × Result (NormalizedEvent M) BrokerError
  buffered b len none = (b, err (deserialize len))
  buffered b len (some event) = (push_pending b event, ok event)

  unfoldable pub buffer_event :
      (List ℕ → Option (NormalizedEvent M))
      → Broker W M
      → List ℕ
      → Broker W M × Result (NormalizedEvent M) BrokerError
  buffer_event from_slice b raw = buffered b (length raw) (from_slice raw)

  -- The body of the loop over the sessions: a session with no entry or an empty one is passed over.
  drain_events :
      Broker W M → DateTime → String → Option (Timed M) → Broker W M × List StateTransition
  drain_events b now sid none = (b, [])
  drain_events b now sid (some []) = (b, [])
  drain_events b now sid (some (x ∷ l)) =
      let (eng, ts) = ingest_all b.state_engine now (sort_by_time (x ∷ l)) in
      (record b { state_engine = eng; pending = insert sid [] b.pending }, ts)

  unfoldable pub drain_session : Broker W M → DateTime → String → Broker W M × List StateTransition
  unfolding drain_events
  drain_session b now sid = drain_events b now sid (get sid b.pending)

  unfoldable pub drain_sessions :
      Broker W M → DateTime → List String → Broker W M × List StateTransition
  drain_sessions b now [] = (b, [])
  drain_sessions b now (sid ∷ sids) =
      let (b1, ts1) = drain_session b now sid in
      let (b2, ts2) = drain_sessions b1 now sids in (b2, ts1 ++ ts2)

  unfoldable pub drain_and_process : Broker W M → DateTime → Broker W M × List StateTransition
  drain_and_process b now = drain_sessions b now (keys b.pending)

  unfoldable pub check_ttls : Broker W M → DateTime → Broker W M × List StateTransition
  check_ttls b now =
      let (eng, ts) = expire_ttls b.state_engine now in (record b { state_engine = eng }, ts)

  unfoldable pub session_count : Broker W M → ℕ
  session_count b = Engine.session_count b.state_engine

  unfoldable pub get_state : Broker W M → String → Option AgentState
  get_state b session_id = Engine.get_state b.state_engine session_id

abbrev or_default :
    Option (Option ActivityLabel × Option TerminalContext)
    → Option ActivityLabel × Option TerminalContext
or_default none = (none, none)
or_default (some x) = x

abbrev terminal_or_default : Option TerminalContext → TerminalContext
terminal_or_default none = record { tty = none; term_program = none; tmux_pane = none }
terminal_or_default (some t) = t

abbrev pub view_of : SessionInfo → StateTransition → StateView
view_of info t =
    let (label, terminal) = or_default (get t.session_id info) in
    record {
      state = t.new;
      label = label;
      target = record { session_id = t.session_id; terminal = terminal_or_default terminal };
    }

module _ {W : Type 0} where
  -- `clock i` are the two readings of the clock that the i-th render makes.
  unfoldable pub dispatch_render :
      RenderingEngine W
      → List StateTransition
      → SessionInfo
      → (ℕ → DateTime × DateTime)
      → W
      → RenderingEngine W × W
  dispatch_render eng [] info clock w = (eng, w)
  dispatch_render eng (t ∷ ts) info clock w =
      let (now, later) = clock 0 in
      let (eng1, w1, _) = render eng (view_of info t) now later w in
      dispatch_render eng1 ts info (λ i. clock (suc i)) w1
