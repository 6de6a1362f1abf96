-- ===== src/StateEngine/Ingest.antt =====
-- `StateEngine::ingest` (crates/ats-state-engine/src/engine.rs): repeated events, other sessions,
-- and what is returned.
use agent_term_status.Prelude.{
  ◌≡◌, refl, true, arith, Option, ◌≢◌, some, none, String, String_eq, test_refl, inl, inr, ℕ_eq,
}
use agent_term_status.Prelude.Time.{DateTime}
use agent_term_status.Prelude.HashMap.{
  HashMap, get, insert, contains, get-insert_self, get-insert_ne, insert_same,
}
use agent_term_status.Core.{NormalizedEvent}
use agent_term_status.StateEngine.Machine.{SessionState, apply}
use agent_term_status.StateEngine.Transitions.{apply_seen, apply_reports, contains-apply}
use agent_term_status.StateEngine.Engine.{
  StateEngine, StateTransition, or_new, note_parent, event_is_risk, ingest, get_state,
}

note_parent_twice :
    (id : String) (p : Option String) (m : HashMap String String)
    → note_parent id p (note_parent id p m) ≡ note_parent id p m
unfolding note_parent
note_parent_twice id none m = refl
note_parent_twice id (some p) m =
    ground (arith, insert_same id p (insert id p m), get-insert_self id p m)

get-note_parent_ne :
    (id j : String) (p : Option String) (m : HashMap String String)
    → id ≢ j
    → get j (note_parent id p m) ≡ get j m
unfolding note_parent
get-note_parent_ne id j none m h = refl
get-note_parent_ne id j (some p) m h = ground (arith, get-insert_ne id j p m)

module _ {M : Type 0} (eng : StateEngine) (event : NormalizedEvent M) (now : DateTime) where
  -- The session as the engine finds or creates it, and as the event leaves it.
  abbrev pub before : SessionState
  before = or_new now (get event.session.id eng.sessions)

  abbrev pub after : SessionState
  after = (apply before event.event_id event.event_type (event_is_risk event) event.timestamp).0

  pub get-ingest_self : get event.session.id (ingest eng event now).0.sessions ≡ some after
  unfolding ingest
  get-ingest_self = get-insert_self event.session.id after eng.sessions

  -- An event changes no other session's entry, in the table or in the parent map.
  pub get-ingest_ne :
      (id : String)
      → event.session.id ≢ id
      → (get id (ingest eng event now).0.sessions ≡ get id eng.sessions)
        × (get id (ingest eng event now).0.parent_map ≡ get id eng.parent_map)
  unfolding ingest
  get-ingest_ne id h = (
    get-insert_ne event.session.id id after eng.sessions h,
    get-note_parent_ne event.session.id id event.session.parent_id eng.parent_map h,
  )

  -- The session has seen the event afterwards.
  pub after-contains : contains event.event_id after.seen_event_ids ≡ true
  after-contains = rw (
    contains-apply before event.event_id event.event_id event.event_type (event_is_risk event)
        event.timestamp,
    test_refl event.event_id,
  )

  -- What `ingest` returns: a transition exactly when the state of the session changed, and then its
  -- old and its new state.
  pub data Reports : StateEngine × Option StateTransition → Type 0 where
    moved :
        {r : StateEngine × Option StateTransition}
        → r.1
          ≡ some
              (record { session_id = event.session.id; previous = before.state; new = after.state })
        → after.state ≢ before.state
        → Reports r
    stayed :
        {r : StateEngine × Option StateTransition}
        → r.1 ≡ none
        → after.state ≡ before.state
        → Reports r

  -- What ingest returns: a transition exactly when the session's state changed, with its old and
  -- its new state.
  ingest-Reports : Reports (ingest eng event now)
  unfolding ingest
  ingest-Reports =
      elim (apply_reports before event.event_id event.event_type (event_is_risk event)
        event.timestamp) [
          | inl (e, ne) ↦ moved (rw e) ne
          | inr (inl e, same) ↦ stayed (rw e) same
          | inr (inr e, same) ↦ stayed (rw e) same
        ]

  -- The state that a later query reads.
  pub get_state-ingest : get_state (ingest eng event now).0 event.session.id ≡ some after.state
  unfolding get_state
  get_state-ingest = rw get-ingest_self

module _ {M : Type 0} (eng : StateEngine) (event : NormalizedEvent M) (now later : DateTime) where
  -- Ingesting an event a second time, at any time, leaves the engine as it is and returns no
  -- transition.
  pub ingest_twice : let eng' = (ingest eng event now).0 in ingest eng' event later ≡ (eng', none)
  unfolding ingest
  ingest_twice = ground (
    arith,
    apply_seen (after eng event now) event.event_id event.event_type (event_is_risk event)
        event.timestamp,
    after-contains eng event now,
    get-insert_self event.session.id (after eng event now) eng.sessions,
    insert_same event.session.id (after eng event now) (ingest eng event now).0.sessions,
    note_parent_twice event.session.id event.session.parent_id eng.parent_map,
  )
