-- ===== src/Claude/Adapter/Sessions.antt =====
-- The events of crates/ats-provider-claude/src/adapter.rs in the state engine.
use agent_term_status.Prelude.{
  String, String_eq, str_eq, eq_iff, Bool, some, [], ◌∷◌, ok, ◌≡◌, ◌≢◌, ◌⊎◌, inl, inr, sym, arith,
  Bool-cases,
}
use agent_term_status.Prelude.Time.{DateTime}
use agent_term_status.Prelude.HashMap.{get, get-insert_self, get-insert_ne}
use agent_term_status.Core.{risk, EventType, NormalizedEvent, Uuid}
use agent_term_status.Provider.{Json}
use agent_term_status.StateEngine.Priority.{state_from_event}
use agent_term_status.StateEngine.Machine
use agent_term_status.StateEngine.Machine.{SessionState, apply, resolve_effective_state}
use agent_term_status.StateEngine.Engine.{StateEngine, ingest, get_state, event_is_risk, or_new}
use agent_term_status.Claude.Adapter.{ClaudeAdapter, Process, parse}
use agent_term_status.Claude.Adapter.Parsing.{parse-harmless}

-- A session comes into RISK only by an event that means RISK.
apply-risk :
    (s : SessionState) (id : Uuid) (ty : EventType) (is_risk : Bool) (t : DateTime)
    → (apply s id ty is_risk t).0.state ≡ risk
    → (s.state ≡ risk) ⊎ (state_from_event ty is_risk ≡ risk)
unfolding apply resolve_effective_state
apply-risk s id ty is_risk t h = ground arith

-- The entry of the session that an event is for.
own_session :
    {M : Type 0} (e : NormalizedEvent M) (eng : StateEngine) (now : DateTime)
    → state_from_event e.event_type (event_is_risk e) ≢ risk
    → get_state (ingest eng e now).0 e.session.id ≡ some risk
    → get_state eng e.session.id ≡ some risk
unfolding get_state ingest Machine.new
own_session e eng now harmless h =
    let found =
      get-insert_self e.session.id
        (apply (or_new now (get e.session.id eng.sessions)) e.event_id e.event_type
          (event_is_risk e) e.timestamp).0
        eng.sessions in
    let before =
      apply-risk (or_new now (get e.session.id eng.sessions)) e.event_id e.event_type
        (event_is_risk e) e.timestamp (ground (arith, found)) in
    ground (arith, before)

module _ (json : Json) (show_uuid : Uuid → String) (to_lowercase : String → String)
    (adapter : ClaudeAdapter) (process : Process) where
  open json use {Value, Map}

  -- An event that the Claude adapter makes brings no session into RISK: a session that is in RISK
  -- after the event was in RISK before.
  pub ingest-parse :
      (input : Value) (e : NormalizedEvent Map)
      → parse json show_uuid to_lowercase adapter process input ≡ some (ok (e ∷ []))
      → (eng : StateEngine) (now : DateTime) (id : String)
      → get_state (ingest eng e now).0 id ≡ some risk
      → get_state eng id ≡ some risk
  unfolding get_state ingest
  ingest-parse input e p eng now id h = elim (Bool-cases (str_eq e.session.id id)) [
    | inl same ↦
        let own : e.session.id ≡ id = (eq_iff e.session.id id).0 same in
        rw (sym own) (
          own_session e eng now
            (parse-harmless json show_uuid to_lowercase adapter process input e p)
            (rw (sym own) at h))
    | inr other ↦
        let ne : e.session.id ≢ id = λ q. cc (other, (eq_iff e.session.id id).1 q) in
        rw
          (get-insert_ne e.session.id id
            (apply (or_new now (get e.session.id eng.sessions)) e.event_id e.event_type
              (event_is_risk e) e.timestamp).0
            eng.sessions ne)
          at h
  ]
