-- ===== src/Daemon/Broker/Sorting.antt =====
-- The ordering correction of crates/ats-daemon/src/broker.rs.
use agent_term_status.Prelude.{
  ◌≤◌, ◌≡◌, refl, arith, [], ◌∷◌, if◌then◌else◌, nat_eq, leb, Bool-cases, inl, inr, ◌∙◌,
}
use agent_term_status.Prelude.Time.{DateTime}
use agent_term_status.Core.{NormalizedEvent}
use agent_term_status.Daemon.Broker.{Timed, sort_by_time, insert_by_time}

module _ {M : Type 0} where
  -- No event of the list is earlier than `t`.
  abbrev pub StartsFrom : DateTime → Timed M → Type 0
  StartsFrom t [] = Unit
  StartsFrom t (y ∷ l) = t ≤ y.0

  abbrev pub IsSorted : Timed M → Type 0
  IsSorted [] = Unit
  IsSorted (x ∷ l) = StartsFrom x.0 l × IsSorted l

  -- The events of one timestamp, in their order.
  pub at_time : DateTime → Timed M → Timed M
  at_time t [] = []
  at_time t (x ∷ l) = if nat_eq x.0 t then x ∷ at_time t l else at_time t l

  insert_by_time-StartsFrom :
      (t : DateTime) (x : DateTime × NormalizedEvent M) (l : Timed M)
      → t ≤ x.0
      → StartsFrom t l
      → StartsFrom t (insert_by_time x l)
  unfolding insert_by_time
  insert_by_time-StartsFrom t x [] h k = h
  insert_by_time-StartsFrom t x (y ∷ l) h k = ground arith

  insert_by_time-IsSorted :
      (x : DateTime × NormalizedEvent M) (l : Timed M) → IsSorted l → IsSorted (insert_by_time x l)
  unfolding insert_by_time
  insert_by_time-IsSorted x [] s = (tt, tt)
  insert_by_time-IsSorted x (y ∷ l) s = elim (Bool-cases (leb x.0 y.0)) [
    | inl before ↦ rw before (ground arith, s)
    | inr after ↦
        rw after
          (insert_by_time-StartsFrom y.0 x l (ground arith) s.0, insert_by_time-IsSorted x l s.1)
  ]

  at_time-insert_by_time :
      (t : DateTime) (x : DateTime × NormalizedEvent M) (l : Timed M)
      → at_time t (insert_by_time x l) ≡ at_time t (x ∷ l)
  unfolding insert_by_time at_time
  at_time-insert_by_time t x [] = refl
  at_time-insert_by_time t x (y ∷ l) = ground (arith, at_time-insert_by_time t x l)

  sort_by_time-IsSorted : (l : Timed M) → IsSorted (sort_by_time l)
  unfolding sort_by_time
  sort_by_time-IsSorted [] = tt
  sort_by_time-IsSorted (x ∷ l) =
      insert_by_time-IsSorted x (sort_by_time l) (sort_by_time-IsSorted l)

  at_time-cons :
      (t : DateTime) (x : DateTime × NormalizedEvent M) (l r : Timed M)
      → at_time t l ≡ at_time t r
      → at_time t (x ∷ l) ≡ at_time t (x ∷ r)
  unfolding at_time
  at_time-cons t x l r h = ground arith

  at_time-sort_by_time : (t : DateTime) (l : Timed M) → at_time t (sort_by_time l) ≡ at_time t l
  unfolding sort_by_time
  at_time-sort_by_time t [] = refl
  at_time-sort_by_time t (x ∷ l) =
      at_time-insert_by_time t x (sort_by_time l)
      ∙ at_time-cons t x (sort_by_time l) l (at_time-sort_by_time t l)

  -- The ordering correction puts events in the order of their timestamps, loses and makes up none,
  -- and keeps those of one timestamp in the order of arrival.
  sort_by_time_lem :
      (l : Timed M)
      → IsSorted (sort_by_time l) × ((t : DateTime) → at_time t (sort_by_time l) ≡ at_time t l)
  sort_by_time_lem l = (sort_by_time-IsSorted l, λ t. at_time-sort_by_time t l)
