-- ===== src/StateEngine/Valid.antt =====
-- The invariant of the table of sessions of crates/ats-state-engine/src/engine.rs.
use agent_term_status.Prelude.{
  ◌≡◌, refl, arith, Option, ◌≢◌, some, none, String, String_eq, sym, ◌∙◌, Option-cases, inl, inr,
  List, [], ◌∷◌, str_eq, eq_iff, Bool-cases,
}
use agent_term_status.Prelude.Time.{DateTime}
use agent_term_status.Prelude.HashMap.{
  HashMap, get, insert, Distinct, insert-Distinct, remove-Distinct, get-insert, get-remove,
}
use agent_term_status.Core.{NormalizedEvent}
use agent_term_status.StateEngine.Machine.{SessionState, check_ttl, extend_heartbeat}
use agent_term_status.StateEngine.Session.{
  IsConsistent, new-IsConsistent, apply-IsConsistent, check_ttl-IsConsistent,
  extend_heartbeat-IsConsistent,
}
use agent_term_status.StateEngine.Ingest.{before, after, get-ingest_self, get-ingest_ne}
use agent_term_status.StateEngine.Sweep.{kept, loop_sessions}
use agent_term_status.StateEngine.Engine.{
  StateEngine, new, or_new, note_parent, event_is_risk, ingest, expire_loop, remove_session,
  remove_sessions, expire_ttls, heartbeat,
}

pub record IsValid (eng : StateEngine) : Type 0 where
  pub distinct : Distinct eng.sessions
  pub parents_distinct : Distinct eng.parent_map
  pub consistent : (id : String) (s : SessionState) → get id eng.sessions ≡ some s → IsConsistent s
  pub no_self_parent : (id : String) → get id eng.parent_map ≢ some id

pub new-IsValid : IsValid new
unfolding new get
new-IsValid = record {
  distinct = tt;
  parents_distinct = tt;
  consistent = λ id s h. cc h;
  no_self_parent = λ id h. cc h;
}

note_parent-Distinct :
    (id : String) (p : Option String) (m : HashMap String String)
    → Distinct m
    → Distinct (note_parent id p m)
unfolding note_parent
note_parent-Distinct id none m d = d
note_parent-Distinct id (some p) m d = elim (Bool-cases (str_eq p id)) [
  | inl e ↦ rw e d
  | inr e ↦ rw e (insert-Distinct id p m d)
]

note_parent_self :
    (id j : String) (p : Option String) (m : HashMap String String)
    → get j m ≢ some j
    → get j (note_parent id p m) ≢ some j
unfolding note_parent
note_parent_self id j none m h = h
note_parent_self id j (some p) m h = ground (arith, get-insert id j p m, eq_iff p id, eq_iff id j)

or_new-IsConsistent :
    (now : DateTime) (o : Option SessionState)
    → ((s : SessionState) → o ≡ some s → IsConsistent s)
    → IsConsistent (or_new now o)
or_new-IsConsistent now none h = new-IsConsistent now
or_new-IsConsistent now (some s) h = h s refl

module _ {M : Type 0} (eng : StateEngine) (event : NormalizedEvent M) (now : DateTime) where
  after-IsConsistent : IsValid eng → IsConsistent (after eng event now)
  after-IsConsistent v =
      apply-IsConsistent (before eng event now) event.event_id event.event_type
        (event_is_risk event) event.timestamp
        (or_new-IsConsistent now (get event.session.id eng.sessions)
          (v.consistent event.session.id))

  ingest-IsConsistent :
      IsValid eng
      → (id : String) (s : SessionState) → get id (ingest eng event now).0.sessions ≡ some s
      → IsConsistent s
  ingest-IsConsistent v id s h = elim (Bool-cases (str_eq event.session.id id)) [
    | inl same ↦
        let e : id ≡ event.session.id = sym ((eq_iff event.session.id id).0 same) in
        let k : s ≡ after eng event now = cc (rw e at h, get-ingest_self eng event now) in
        rw k (after-IsConsistent v)
    | inr other ↦
        let ne : event.session.id ≢ id = λ q. cc (other, (eq_iff event.session.id id).1 q) in
        v.consistent id s (sym (get-ingest_ne eng event now id ne).0 ∙ h)
  ]

  -- Ingesting an event keeps the invariant of the table of sessions.
  pub ingest-IsValid : IsValid eng → IsValid (ingest eng event now).0
  ingest-IsValid v = record {
    distinct =
        unfold ingest in
        insert-Distinct event.session.id (after eng event now) eng.sessions v.distinct;
    parents_distinct =
        unfold ingest in
        note_parent-Distinct event.session.id event.session.parent_id eng.parent_map
          v.parents_distinct;
    consistent = ingest-IsConsistent v;
    no_self_parent = λ id.
        unfold ingest in
        note_parent_self event.session.id id event.session.parent_id eng.parent_map
          (v.no_self_parent id);
  }

remove_sessions-IsValid :
    (eng : StateEngine) (ids : List String) → IsValid eng → IsValid (remove_sessions eng ids)
unfolding remove_sessions remove_session
remove_sessions-IsValid eng [] v = v
remove_sessions-IsValid eng (id ∷ ids) v =
    remove_sessions-IsValid (remove_session eng id).0 ids (record {
      distinct = remove-Distinct id eng.sessions v.distinct;
      parents_distinct = remove-Distinct id eng.parent_map v.parents_distinct;
      consistent = λ j s h. v.consistent j s (ground (arith, get-remove id j eng.sessions));
      no_self_parent = λ j h. v.no_self_parent j (ground (arith, get-remove id j eng.parent_map));
    })

expire_loop-none :
    (pm : HashMap String String) (now : DateTime) (id : String) (m : HashMap String SessionState)
    → get id m ≡ none
    → get id (expire_loop pm now m).sessions ≡ none
unfolding expire_loop get
expire_loop-none pm now id [] h = refl
expire_loop-none pm now id ((j, s) ∷ m) h = ground (arith, expire_loop-none pm now id m)

expire_loop-Distinct :
    (pm : HashMap String String) (now : DateTime) (m : HashMap String SessionState)
    → Distinct m
    → Distinct (expire_loop pm now m).sessions
unfolding expire_loop
expire_loop-Distinct pm now [] d = tt
expire_loop-Distinct pm now ((j, s) ∷ m) d =
    ground (arith, expire_loop-none pm now j m, expire_loop-Distinct pm now m d.1)

kept-IsConsistent :
    (now : DateTime) (o : Option SessionState) (s : SessionState)
    → ((t : SessionState) → o ≡ some t → IsConsistent t)
    → kept now o ≡ some s
    → IsConsistent s
kept-IsConsistent now none s h e = cc
kept-IsConsistent now (some t) s h e =
    let k : s ≡ (check_ttl t now).0 = cc e in rw k (check_ttl-IsConsistent t now (h t refl))

-- A sweep keeps the invariant of the table: one entry for each key, every session's TTL and
-- recorded error as its state demands, no session its own parent.
pub expire_ttls-IsValid :
    (eng : StateEngine) (now : DateTime) → IsValid eng → IsValid (expire_ttls eng now).0
unfolding expire_ttls
expire_ttls-IsValid eng now v =
    let x = expire_loop eng.parent_map now eng.sessions in
    remove_sessions-IsValid (record eng { sessions = x.sessions }) x.expired_ids
      (record {
        distinct = expire_loop-Distinct eng.parent_map now eng.sessions v.distinct;
        parents_distinct = v.parents_distinct;
        consistent = λ id s h.
            kept-IsConsistent now (get id eng.sessions) s (v.consistent id)
              (sym (loop_sessions eng.parent_map now id eng.sessions) ∙ h);
        no_self_parent = v.no_self_parent;
      })

beat-IsValid :
    (eng : StateEngine) (id : String) (now : DateTime) (s : SessionState)
    → get id eng.sessions ≡ some s
    → IsValid eng
    → IsValid (record eng { sessions = insert id (extend_heartbeat s now) eng.sessions })
beat-IsValid eng id now s found v = record {
  distinct = insert-Distinct id (extend_heartbeat s now) eng.sessions v.distinct;
  parents_distinct = v.parents_distinct;
  consistent = λ j t h. elim (Bool-cases (str_eq id j)) [
    | inl same ↦
        let k : t ≡ extend_heartbeat s now =
          ground (arith, get-insert id j (extend_heartbeat s now) eng.sessions) in
        rw k (extend_heartbeat-IsConsistent s now (v.consistent id s found))
    | inr other ↦
        v.consistent j t (ground (arith, get-insert id j (extend_heartbeat s now) eng.sessions))
  ];
  no_self_parent = v.no_self_parent;
}

-- A heartbeat keeps the invariant.
pub heartbeat-IsValid :
    (eng : StateEngine) (id : String) (now : DateTime)
    → IsValid eng
    → IsValid (heartbeat eng id now)
unfolding heartbeat
heartbeat-IsValid eng id now v = elim (Option-cases (get id eng.sessions)) [
  | inl e ↦ rw e v
  | inr (s, e) ↦ rw e (beat-IsValid eng id now s e v)
]
