-- ===== src/StateEngine/Engine.antt =====
-- crates/ats-state-engine/src/engine.rs: the table of sessions. A method that mutates `self` returns
-- the new record beside its result.
use agent_term_status.Prelude.{
  ℕ, Bool, true, false, ◌&&◌, Option, none, some, String, List, [], ◌∷◌, not, if◌then◌else◌, ◌==◌,
  length, leb, String_eq,
}
use agent_term_status.Prelude.Time.{DateTime}
use agent_term_status.Prelude.HashMap.{HashMap, get, insert, remove, any_value}
use agent_term_status.Core.{AgentState, idle, RiskLevel, high, critical, NormalizedEvent, Activity}
use agent_term_status.Core.Equality.{AgentState_eq}
use agent_term_status.StateEngine.Priority.{priority}
use agent_term_status.StateEngine.Machine
use agent_term_status.StateEngine.Machine.{
  SessionState, TransitionResult, changed, unchanged, idempotent, apply, check_ttl,
  extend_heartbeat,
}

pub record StateTransition : Type 0 where
  pub session_id : String
  pub previous : AgentState
  pub new : AgentState

pub record StateEngine : Type 0 where
  pub sessions : HashMap String SessionState
  pub parent_map : HashMap String String

unfoldable pub new : StateEngine
new = record { sessions = []; parent_map = [] }

-- `matches!(r, RiskLevel::High | RiskLevel::Critical)`
abbrev pub is_high : RiskLevel → Bool
is_high high = true
is_high critical = true
is_high _ = false

abbrev risk_flag : Option RiskLevel → Bool
risk_flag none = false
risk_flag (some r) = is_high r

abbrev pub activity_risk : Option Activity → Bool
activity_risk none = false
activity_risk (some a) = risk_flag a.risk

-- `entry(session_id).or_insert_with(|| SessionState::new(now))`
abbrev pub or_new : DateTime → Option SessionState → SessionState
or_new now none = Machine.new now
or_new now (some s) = s

unfoldable pub note_parent : String → Option String → HashMap String String → HashMap String String
note_parent session_id none parent_map = parent_map
note_parent session_id (some parent_id) parent_map =
    if parent_id == session_id then parent_map else insert session_id parent_id parent_map

abbrev transition_of : String → TransitionResult → Option StateTransition
transition_of session_id (changed previous new) =
    some (record { session_id = session_id; previous = previous; new = new })
transition_of session_id unchanged = none
transition_of session_id idempotent = none

module _ {M : Type 0} where
  abbrev pub event_is_risk : NormalizedEvent M → Bool
  event_is_risk event = activity_risk event.activity

  unfoldable pub ingest :
      StateEngine → NormalizedEvent M → DateTime → StateEngine × Option StateTransition
  ingest eng event now =
      let session_id = event.session.id in
      let session = or_new now (get session_id eng.sessions) in
      let (session', r) =
        apply session event.event_id event.event_type (event_is_risk event) event.timestamp in
      (
        record {
          sessions = insert session_id session' eng.sessions;
          parent_map = note_parent session_id event.session.parent_id eng.parent_map;
        },
        transition_of session_id r,
      )

-- What the loop of `expire_ttls` has collected.
pub record Expiry : Type 0 where
  pub sessions : HashMap String SessionState
  pub transitions : List StateTransition
  pub expired_ids : List String

abbrev pub is_parent : String → HashMap String String → Bool
is_parent id parent_map = any_value (λ p. p == id) parent_map

-- One round of the loop, before the rounds that follow it.
expire_entry :
    HashMap String String
    → String
    → SessionState
    → SessionState × Option AgentState
    → Expiry
    → Expiry
expire_entry parent_map id session (session', none) rest = record rest {
  sessions = (id, session') ∷ rest.sessions;
}
expire_entry parent_map id session (session', some _) rest = record {
  sessions = (id, session') ∷ rest.sessions;
  transitions =
      record { session_id = id; previous = session.state; new = session'.state } ∷ rest.transitions;
  expired_ids =
      if session'.state == idle && not (is_parent id parent_map)
      then id ∷ rest.expired_ids
      else rest.expired_ids;
}

unfoldable pub expire_loop : HashMap String String → DateTime → HashMap String SessionState → Expiry
unfolding expire_entry
expire_loop parent_map now [] = record { sessions = []; transitions = []; expired_ids = [] }
expire_loop parent_map now ((id, session) ∷ m) =
    expire_entry parent_map id session (check_ttl session now) (expire_loop parent_map now m)

unfoldable pub remove_session : StateEngine → String → StateEngine × Option SessionState
remove_session eng session_id = (
  record {
    sessions = remove session_id eng.sessions;
    parent_map = remove session_id eng.parent_map;
  },
  get session_id eng.sessions,
)

unfoldable pub remove_sessions : StateEngine → List String → StateEngine
remove_sessions eng [] = eng
remove_sessions eng (id ∷ ids) = remove_sessions (remove_session eng id).0 ids

unfoldable pub expire_ttls : StateEngine → DateTime → StateEngine × List StateTransition
expire_ttls eng now =
    let x = expire_loop eng.parent_map now eng.sessions in
    (remove_sessions (record eng { sessions = x.sessions }) x.expired_ids, x.transitions)

abbrev state_of : Option SessionState → Option AgentState
state_of none = none
state_of (some s) = some s.state

unfoldable pub get_state : StateEngine → String → Option AgentState
get_state eng session_id = state_of (get session_id eng.sessions)

abbrev has_parent : String → Option String → Bool
has_parent parent_id none = false
has_parent parent_id (some p) = p == parent_id

-- The states of the sessions that `parent_map` gives this parent.
unfoldable pub children_states :
    HashMap String String → String → HashMap String SessionState → List AgentState
children_states parent_map parent_id [] = []
children_states parent_map parent_id ((child_id, session) ∷ m) =
    let rest = children_states parent_map parent_id m in
    if has_parent parent_id (get child_id parent_map) then session.state ∷ rest else rest

-- `max_by_key(|s| priority(*s))`: of equal keys the last one.
unfoldable pub max_by_priority : AgentState → List AgentState → AgentState
max_by_priority best [] = best
max_by_priority best (s ∷ l) =
    max_by_priority (if leb (priority best) (priority s) then s else best) l

abbrev max_state : List AgentState → Option AgentState
max_state [] = none
max_state (s ∷ l) = some (max_by_priority s l)

unfoldable pub get_aggregated_state : StateEngine → String → Option AgentState
get_aggregated_state eng parent_id =
    max_state (children_states eng.parent_map parent_id eng.sessions)

abbrev update_session : StateEngine → String → DateTime → Option SessionState → StateEngine
update_session eng session_id now none = eng
update_session eng session_id now (some session) = record eng {
  sessions = insert session_id (extend_heartbeat session now) eng.sessions;
}

unfoldable pub heartbeat : StateEngine → String → DateTime → StateEngine
heartbeat eng session_id now = update_session eng session_id now (get session_id eng.sessions)

unfoldable pub session_count : StateEngine → ℕ
session_count eng = length eng.sessions
