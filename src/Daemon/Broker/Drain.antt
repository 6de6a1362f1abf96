-- ===== src/Daemon/Broker/Drain.antt =====
-- `drain_and_process` of crates/ats-daemon/src/broker.rs: the loop over the sessions.
use agent_term_status.Prelude.{
  ◌≡◌, ◌≢◌, refl, Bool, true, false, arith, Option, some, none, List, [], ◌∷◌, String, String_eq,
  sym, ◌∙◌, str_eq, eq_iff, Bool-cases, inl, inr, if◌then◌else◌, ◌⊎◌, ap,
}
use agent_term_status.Prelude.Time.{DateTime}
use agent_term_status.Prelude.HashMap.{HashMap, get, insert, keys, contains, get-insert}
use agent_term_status.StateEngine.Engine.{StateEngine}
use agent_term_status.StateEngine.Machine.{SessionState}
use agent_term_status.StateEngine.Valid.{IsValid}
use agent_term_status.Daemon.Broker.Session.{
  IsFor, run_session, get-ingest_all, get-ingest_all_ne, sort_by_time-IsFor, ingest_all-IsValid,
}
use agent_term_status.Daemon.Broker.{
  Broker, Timed, or_empty, sort_by_time, ingest_all, drain_events, drain_session, drain_sessions,
  drain_and_process,
}

run_session-sort-nil :
    (M : Type 0) (now : DateTime) (o : Option SessionState)
    → run_session {M = M} now o (sort_by_time []) ≡ o
unfolding run_session sort_by_time
run_session-sort-nil M now o = refl

contains-keys :
    {V : Type 0} (j : String) (m : HashMap String V)
    → (get j m ≡ none) ⊎ (contains j (keys m) ≡ true)
unfolding get keys contains
contains-keys j [] = inl refl
contains-keys j ((i, v) ∷ m) = ground (arith, contains-keys j m)

if_same : {A : Type 0} (c : Bool) (a : A) → (if c then a else a) ≡ a
if_same true a = refl
if_same false a = refl

module _ {W M : Type 0} where
  abbrev pub buffer_of : Broker W M → String → Timed M
  buffer_of b sid = or_empty (get sid b.pending)

  -- Every buffer holds the events of the session that it is kept for.
  pub record IsKeyed (b : Broker W M) : Type 0 where
    pub own : (sid : String) → IsFor sid (buffer_of b sid)

  -- What is due to a session: its state after its buffered events, in the order of time.
  abbrev pub due : DateTime → Broker W M → String → Option SessionState
  due now b j = run_session now (get j b.state_engine.sessions) (sort_by_time (buffer_of b j))

  -- One session drained.
  record Drained (b : Broker W M) (now : DateTime) (sid : String) (b' : Broker W M) : Type 0 where
    keyed : IsKeyed b'
    same_due : (j : String) → due now b' j ≡ due now b j
    emptied : (j : String) → str_eq sid j ≡ true → buffer_of b' j ≡ []
    still_empty : (j : String) → buffer_of b j ≡ [] → buffer_of b' j ≡ []
    valid : IsValid b.state_engine → IsValid b'.state_engine

  module _ (b : Broker W M) (now : DateTime) (sid : String) where
    -- A session with an empty buffer is passed over.
    passed_over : buffer_of b sid ≡ [] → IsKeyed b → Drained b now sid b
    passed_over e k = record {
      keyed = k;
      same_due = λ j. refl;
      emptied = λ j h. rw (← (eq_iff sid j).0 h) e;
      still_empty = λ j h. h;
      valid = λ v. v;
    }

    abbrev emptied_broker : StateEngine → Broker W M
    emptied_broker eng = record b { state_engine = eng; pending = insert sid [] b.pending }

    buffer_after :
        (eng : StateEngine) (j : String)
        → buffer_of (emptied_broker eng) j ≡ (if str_eq sid j then [] else buffer_of b j)
    buffer_after eng j = ground (arith, get-insert sid j [] b.pending)

    module _ (l : Timed M) (buffer : buffer_of b sid ≡ l) (k : IsKeyed b) where
      abbrev events : Timed M
      events = sort_by_time l

      own_events : IsFor sid events
      own_events = sort_by_time-IsFor sid l (rw buffer at (k.own sid))

      abbrev engine : StateEngine
      engine = (ingest_all b.state_engine now events).0

      due_after : (j : String) → due now (emptied_broker engine) j ≡ due now b j
      due_after j = elim (Bool-cases (str_eq sid j)) [
        | inl same ↦
            let e : sid ≡ j = (eq_iff sid j).0 same in
            rw (buffer_after engine j, same)
              (rw (← e, buffer)
                (run_session-sort-nil M now (get sid engine.sessions)
                  ∙ get-ingest_all b.state_engine now events sid own_events))
        | inr other ↦
            let ne : sid ≢ j = λ e. cc (other, (eq_iff sid j).1 e) in
            rw (buffer_after engine j, other)
              (ap (λ o. run_session now o (sort_by_time (buffer_of b j)))
                (get-ingest_all_ne b.state_engine now events sid j own_events ne))
      ]

      own_after : (j : String) → IsFor j (buffer_of (emptied_broker engine) j)
      own_after j = elim (Bool-cases (str_eq sid j)) [
        | inl same ↦ rw (buffer_after engine j, same) tt
        | inr other ↦ rw (buffer_after engine j, other) (k.own j)
      ]

      ingested : Drained b now sid (emptied_broker engine)
      ingested = record {
        keyed = record { own = own_after };
        same_due = due_after;
        emptied = λ j h. rw (buffer_after engine j, h);
        still_empty = λ j h. rw (buffer_after engine j, h) (if_same (str_eq sid j) []);
        valid = ingest_all-IsValid b.state_engine now events;
      }

  drain_events-Drained :
      (b : Broker W M) (now : DateTime) (sid : String) (o : Option (Timed M))
      → get sid b.pending ≡ o
      → IsKeyed b
      → Drained b now sid (drain_events b now sid o).0
  unfolding drain_events
  drain_events-Drained b now sid none e k = passed_over b now sid (rw e) k
  drain_events-Drained b now sid (some []) e k = passed_over b now sid (rw e) k
  drain_events-Drained b now sid (some (x ∷ l)) e k = ingested b now sid (x ∷ l) (rw e) k

  drain_session-Drained :
      (b : Broker W M) (now : DateTime) (sid : String)
      → IsKeyed b
      → Drained b now sid (drain_session b now sid).0
  unfolding drain_session
  drain_session-Drained b now sid k = drain_events-Drained b now sid (get sid b.pending) refl k

  -- All the sessions of a list drained, one after the other.
  record DrainedAll (b : Broker W M) (now : DateTime) (sids : List String) (b' : Broker W M)
      : Type 0 where
    keyed : IsKeyed b'
    same_due : (j : String) → due now b' j ≡ due now b j
    emptied : (j : String) → contains j sids ≡ true → buffer_of b' j ≡ []
    still_empty : (j : String) → buffer_of b j ≡ [] → buffer_of b' j ≡ []
    valid : IsValid b.state_engine → IsValid b'.state_engine

  drain_sessions-DrainedAll :
      (b : Broker W M) (now : DateTime) (sids : List String)
      → IsKeyed b
      → DrainedAll b now sids (drain_sessions b now sids).0
  unfolding drain_sessions contains
  drain_sessions-DrainedAll b now [] k = record {
    keyed = k;
    same_due = λ j. refl;
    emptied = λ j h. cc h;
    still_empty = λ j h. h;
    valid = λ v. v;
  }
  drain_sessions-DrainedAll b now (sid ∷ sids) k =
      let d = drain_session-Drained b now sid k in
      let r = drain_sessions-DrainedAll (drain_session b now sid).0 now sids d.keyed in
      record {
        keyed = r.keyed;
        same_due = λ j. r.same_due j ∙ d.same_due j;
        emptied = λ j h. elim (Bool-cases (str_eq sid j)) [
          | inl same ↦ r.still_empty j (d.emptied j same)
          | inr other ↦ r.emptied j (rw other at h)
        ];
        still_empty = λ j h. r.still_empty j (d.still_empty j h);
        valid = λ v. r.valid (d.valid v);
      }

  -- What a drain is to leave, session by session.
  pub record IsDrained (b : Broker W M) (now : DateTime) (b' : Broker W M) : Type 0 where
    pub settled : (j : String) → get j b'.state_engine.sessions ≡ due now b j
    pub empty : (j : String) → buffer_of b' j ≡ []
    pub valid : IsValid b.state_engine → IsValid b'.state_engine

  settle :
      (b : Broker W M) (now : DateTime) (j : String)
      → buffer_of b j ≡ []
      → get j b.state_engine.sessions ≡ due now b j
  settle b now j e = rw e (sym (run_session-sort-nil M now (get j b.state_engine.sessions)))

  -- After drain_and_process every session is as its own buffered events, in the order of their
  -- timestamps, leave it, whatever the other sessions hold and in whatever order they are drained;
  -- nothing is left buffered, and the table of sessions keeps its invariant. The buffers must hold
  -- the events of the session that they are kept for.
  pub drain_and_process-IsDrained :
      (b : Broker W M) (now : DateTime) → IsKeyed b → IsDrained b now (drain_and_process b now).0
  unfolding drain_and_process
  drain_and_process-IsDrained b now k =
      let d = drain_sessions-DrainedAll b now (keys b.pending) k in
      let empty : (j : String) → buffer_of (drain_sessions b now (keys b.pending)).0 j ≡ [] = λ j.
        elim (contains-keys j b.pending) [
          | inl absent ↦ d.still_empty j (rw absent)
          | inr there ↦ d.emptied j there
        ] in
      record {
        settled =
            λ j. settle (drain_sessions b now (keys b.pending)).0 now j (empty j) ∙ d.same_due j;
        empty = empty;
        valid = d.valid;
      }
