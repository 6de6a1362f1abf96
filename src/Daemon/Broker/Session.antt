-- ===== src/Daemon/Broker/Session.antt =====
-- The inner loop of `drain_and_process` (crates/ats-daemon/src/broker.rs): a buffer of events and
-- the session that it is for.
use agent_term_status.Prelude.{
  ◌≡◌, ◌≢◌, refl, Option, some, [], ◌∷◌, String, String_eq, sym, ◌∙◌, Bool-cases, inl, inr, ap, leb,
}
use agent_term_status.Prelude.Time.{DateTime}
use agent_term_status.Prelude.HashMap.{get}
use agent_term_status.Core.{NormalizedEvent}
use agent_term_status.StateEngine.Engine.{StateEngine, ingest, or_new, event_is_risk}
use agent_term_status.StateEngine.Machine.{SessionState, apply}
use agent_term_status.StateEngine.Ingest.{get-ingest_self, get-ingest_ne}
use agent_term_status.StateEngine.Valid.{IsValid, ingest-IsValid}
use agent_term_status.Daemon.Broker.{Timed, sort_by_time, insert_by_time, ingest_all}

get-ingest_own :
    {M : Type 0} (eng : StateEngine) (event : NormalizedEvent M) (now : DateTime) (sid : String)
    → event.session.id ≡ sid
    → get sid (ingest eng event now).0.sessions
      ≡ some
          (apply
            (or_new now (get sid eng.sessions))
            event.event_id
            event.event_type
            (event_is_risk event)
            event.timestamp).0
get-ingest_own eng event now sid e = rw (← e) (get-ingest_self eng event now)

module _ {M : Type 0} where
  -- All events of a buffer belong to one session.
  abbrev pub IsFor : String → Timed M → Type 0
  IsFor sid [] = Unit
  IsFor sid ((_, event) ∷ l) = (event.session.id ≡ sid) × IsFor sid l

  pub ingest_all-IsValid :
      (eng : StateEngine) (now : DateTime) (l : Timed M)
      → IsValid eng
      → IsValid (ingest_all eng now l).0
  unfolding ingest_all
  ingest_all-IsValid eng now [] v = v
  ingest_all-IsValid eng now ((_, event) ∷ l) v =
      ingest_all-IsValid (ingest eng event now).0 now l (ingest-IsValid eng event now v)

  -- What a list of events does to one session, on its own.
  unfoldable pub run_session : DateTime → Option SessionState → Timed M → Option SessionState
  run_session now o [] = o
  run_session now o ((_, event) ∷ l) =
      run_session now
        (some
          (apply (or_new now o) event.event_id event.event_type (event_is_risk event)
            event.timestamp).0)
        l

  pub get-ingest_all :
      (eng : StateEngine) (now : DateTime) (l : Timed M) (sid : String)
      → IsFor sid l
      → get sid (ingest_all eng now l).0.sessions ≡ run_session now (get sid eng.sessions) l
  unfolding ingest_all run_session
  get-ingest_all eng now [] sid f = refl
  get-ingest_all eng now ((ts, event) ∷ l) sid f =
      get-ingest_all (ingest eng event now).0 now l sid f.1
      ∙ ap (λ o. run_session now o l) (get-ingest_own eng event now sid f.0)

  insert_by_time-IsFor :
      (sid : String) (x : DateTime × NormalizedEvent M) (l : Timed M)
      → x.1.session.id ≡ sid
      → IsFor sid l
      → IsFor sid (insert_by_time x l)
  unfolding insert_by_time
  insert_by_time-IsFor sid x [] e f = (e, tt)
  insert_by_time-IsFor sid x (y ∷ l) e f = elim (Bool-cases (leb x.0 y.0)) [
    | inl before ↦ rw before (e, f)
    | inr after ↦ rw after (f.0, insert_by_time-IsFor sid x l e f.1)
  ]

  pub sort_by_time-IsFor : (sid : String) (l : Timed M) → IsFor sid l → IsFor sid (sort_by_time l)
  unfolding sort_by_time
  sort_by_time-IsFor sid [] f = tt
  sort_by_time-IsFor sid (x ∷ l) f =
      insert_by_time-IsFor sid x (sort_by_time l) f.0 (sort_by_time-IsFor sid l f.1)

  -- A buffer of one session's events leaves every other session as it is.
  pub get-ingest_all_ne :
      (eng : StateEngine) (now : DateTime) (l : Timed M) (sid j : String)
      → IsFor sid l
      → sid ≢ j
      → get j (ingest_all eng now l).0.sessions ≡ get j eng.sessions
  unfolding ingest_all
  get-ingest_all_ne eng now [] sid j f h = refl
  get-ingest_all_ne eng now ((_, event) ∷ l) sid j f h =
      get-ingest_all_ne (ingest eng event now).0 now l sid j f.1 h
      ∙ (get-ingest_ne eng event now j (λ e. h (sym f.0 ∙ e))).0
