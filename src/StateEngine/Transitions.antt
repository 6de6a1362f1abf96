-- ===== src/StateEngine/Transitions.antt =====
-- How one event moves a session: `resolve_effective_state` and `apply` of
-- crates/ats-state-engine/src/machine.rs against the priority order.
use Prim.Native.Nat.{max}
use agent_term_status.Prelude.{
  ◌≡◌, refl, Bool, true, false, arith, ◌⊎◌, Option, ◌≢◌, Bool-cases, inl, inr, List, test_refl,
  ℕ_eq, nat_eq, nat_eq_iff, ◌||◌,
}
use agent_term_status.Prelude.Time.{DateTime}
use agent_term_status.Prelude.HashMap.{set_insert, contains}
use agent_term_status.Core.{AgentState, attention, EventType, provider_disconnected, Uuid}
use agent_term_status.Core.Equality.{state_eq_iff}
use agent_term_status.StateEngine.Priority.{
  priority, state_from_event, event_is_provider_disconnect, ttl_duration,
}
use agent_term_status.StateEngine.Machine.{
  SessionState, changed, unchanged, idempotent, forced_transition, resolve_effective_state, apply,
}

-- Two states of the same priority are one state.
pub priority-injective : (a b : AgentState) → priority a ≡ priority b → a ≡ b
unfolding priority
priority-injective a b h = ground arith

-- The three rules by which an event decides the next state of a session; their conditions exclude one
-- another, and forced events are those of `forced_transition`.
pub data Decides (current : AgentState) (event_type : EventType) (is_risk : Bool) (new : AgentState)
    : Type 0 where
  -- a lost provider does not hide that the user is waited for
  disconnected :
      event_type ≡ provider_disconnected
      → current ≡ attention
      → new ≡ attention
      → Decides current event_type is_risk new
  forced :
      forced_transition event_type ≡ true
      → new ≡ state_from_event event_type is_risk
      → Decides current event_type is_risk new
  joined :
      forced_transition event_type ≡ false
      → (event_type ≢ provider_disconnected) ⊎ (current ≢ attention)
      → priority new ≡ max (priority current) (priority (state_from_event event_type is_risk))
      → Decides current event_type is_risk new

resolve_disconnected :
    (e : Option EventType) (ty : EventType) (is_risk : Bool)
    → ty ≡ provider_disconnected
    → resolve_effective_state attention (state_from_event ty is_risk) e ty ≡ attention
unfolding resolve_effective_state event_is_provider_disconnect
resolve_disconnected e ty is_risk h = ground arith

resolve_forced :
    (current : AgentState) (e : Option EventType) (ty : EventType) (is_risk : Bool)
    → forced_transition ty ≡ true
    → resolve_effective_state current (state_from_event ty is_risk) e ty
      ≡ state_from_event ty is_risk
unfolding resolve_effective_state event_is_provider_disconnect forced_transition
resolve_forced current e ty is_risk h = ground arith

pub resolve_joined :
    (current : AgentState) (e : Option EventType) (ty : EventType) (is_risk : Bool)
    → forced_transition ty ≡ false
    → (ty ≢ provider_disconnected) ⊎ (current ≢ attention)
    → priority (resolve_effective_state current (state_from_event ty is_risk) e ty)
      ≡ max (priority current) (priority (state_from_event ty is_risk))
unfolding resolve_effective_state event_is_provider_disconnect priority
resolve_joined current e ty is_risk h n = ground arith

EventType-cases :
    (ty : EventType) (current : AgentState)
    → ((ty ≡ provider_disconnected) × (current ≡ attention))
      ⊎ ((ty ≢ provider_disconnected) ⊎ (current ≢ attention))
EventType-cases ty current = ground arith

resolve-Decides :
    (current : AgentState) (e : Option EventType) (ty : EventType) (is_risk : Bool)
    → Decides current ty is_risk
        (resolve_effective_state current (state_from_event ty is_risk) e ty)
resolve-Decides current e ty is_risk = elim (EventType-cases ty current) [
  | inl (d, a) ↦ disconnected d a (rw a (resolve_disconnected e ty is_risk d))
  | inr n ↦ elim (Bool-cases (forced_transition ty)) [
    | inl f ↦ forced f (resolve_forced current e ty is_risk f)
    | inr f ↦ joined f n (resolve_joined current e ty is_risk f n)
  ]
]

-- An event that a session has seen changes nothing.
pub apply_seen :
    (s : SessionState) (id : Uuid) (ty : EventType) (is_risk : Bool) (t : DateTime)
    → contains id s.seen_event_ids ≡ true
    → apply s id ty is_risk t ≡ (s, idempotent)
unfolding apply set_insert
apply_seen s id ty is_risk t h = ground arith

-- A new event decides the state by the three rules, restarts the TTL of the state it leaves the
-- session in at the event's own timestamp, and is remembered.
pub record Applied (s : SessionState) (id : Uuid) (ty : EventType) (is_risk : Bool) (t : DateTime)
    (s' : SessionState) : Type 0 where
  pub decides : Decides s.state ty is_risk s'.state
  pub updated : s'.updated_at ≡ t
  pub ttl : s'.ttl ≡ ttl_duration s'.state
  pub seen : contains id s'.seen_event_ids ≡ true

contains-set_insert : (id : Uuid) (l : List Uuid) → contains id (set_insert id l).0 ≡ true
unfolding contains set_insert
contains-set_insert id l = ground (arith, test_refl id)

pub apply_new :
    (s : SessionState) (id : Uuid) (ty : EventType) (is_risk : Bool) (t : DateTime)
    → contains id s.seen_event_ids ≡ false
    → let e = resolve_effective_state s.state (state_from_event ty is_risk) s.error_type ty in
      let s' = (apply s id ty is_risk t).0 in
      (s'.state ≡ e)
      × (s'.updated_at ≡ t)
      × (s'.ttl ≡ ttl_duration e)
      × (s'.seen_event_ids ≡ (set_insert id s.seen_event_ids).0)
unfolding apply set_insert
apply_new s id ty is_risk t h = ground arith

-- An event whose id the session has not seen decides the session's state by one of three rules (a
-- lost provider does not hide ATTENTION; a forced event sets the state it means; any other leaves
-- the higher of the two priorities), restarts the TTL at the event's timestamp, and is remembered
-- as seen.
pub apply-Applied :
    (s : SessionState) (id : Uuid) (ty : EventType) (is_risk : Bool) (t : DateTime)
    → contains id s.seen_event_ids ≡ false
    → Applied s id ty is_risk t (apply s id ty is_risk t).0
apply-Applied s id ty is_risk t h =
    let (st, up, ttl, seen) = apply_new s id ty is_risk t h in
    record {
      decides = rw st (resolve-Decides s.state s.error_type ty is_risk);
      updated = up;
      ttl = rw (ttl, st) refl;
      seen = rw seen (contains-set_insert id s.seen_event_ids);
    }

-- The result that `apply` reports says what happened to the state.
pub apply_reports :
    (s : SessionState) (id : Uuid) (ty : EventType) (is_risk : Bool) (t : DateTime)
    → let (s', r) = apply s id ty is_risk t in
      ((r ≡ changed s.state s'.state) × (s'.state ≢ s.state))
      ⊎ (((r ≡ unchanged) ⊎ (r ≡ idempotent)) × (s'.state ≡ s.state))
unfolding apply set_insert
apply_reports s id ty is_risk t = ground (
  arith,
  state_eq_iff (resolve_effective_state s.state (state_from_event ty is_risk) s.error_type ty)
      s.state,
)

-- After `apply` the event has been seen, and so has all that was seen before.
pub contains-apply :
    (s : SessionState) (id j : Uuid) (ty : EventType) (is_risk : Bool) (t : DateTime)
    → contains j (apply s id ty is_risk t).0.seen_event_ids
      ≡ (nat_eq id j || contains j s.seen_event_ids)
unfolding apply set_insert contains
contains-apply s id j ty is_risk t = ground (arith, nat_eq_iff id j)
