-- ===== src/StateEngine/Expiry.antt =====
-- The TTL of one session: `check_ttl` of crates/ats-state-engine/src/machine.rs.
use agent_term_status.Prelude.{ℕ, ◌≤◌, ◌+◌, ◌*◌, ◌≡◌, arith, ◌⊎◌, ◌≢◌, some, none}
use agent_term_status.Prelude.Time.{DateTime, nanos_per_second}
use agent_term_status.Prelude.Int.{pos_part}
use agent_term_status.Core.{AgentState, idle}
use agent_term_status.StateEngine.Priority.{ttl_duration}
use agent_term_status.StateEngine.Machine.{SessionState, check_ttl}
use agent_term_status.StateEngine.Session.{IsConsistent}

-- The nanoseconds that a state lasts.
abbrev pub lifetime : AgentState → ℕ
lifetime s = pos_part (ttl_duration s)

-- The instant at which a session's TTL has run out.
abbrev pub deadline : SessionState → ℕ
deadline s = s.updated_at + lifetime s.state

-- Whatever expires goes to UNKNOWN first, and only from there to IDLE; the TTL starts anew.
pub check_ttl_stages :
    (s : SessionState) (now : DateTime) (new : AgentState)
    → (check_ttl s now).1 ≡ some new
    → let s' = (check_ttl s now).0 in
      (s'.state ≡ new)
      × (s'.updated_at ≡ now)
      × (((s.state ≡ AgentState.unknown) × (new ≡ idle))
          ⊎ ((s.state ≢ AgentState.unknown) × (s.state ≢ idle) × (new ≡ AgentState.unknown)))
unfolding check_ttl
check_ttl_stages s now new h = ground arith

pub check_ttl-none :
    (s : SessionState) (now : DateTime) → (check_ttl s now).1 ≡ none → (check_ttl s now).0 ≡ s
unfolding check_ttl
check_ttl-none s now h = ground arith

-- Two checks, the first no earlier than the deadline of a consistent session and the second at
-- least 30 seconds later, bring it to IDLE.
check_ttl_twice :
    (s : SessionState) (now later : DateTime)
    → IsConsistent s
    → deadline s ≤ now
    → now + 30 * nanos_per_second ≤ later
    → (check_ttl (check_ttl s now).0 later).0.state ≡ idle
unfolding check_ttl ttl_duration
check_ttl_twice s now later h d e = ground arith
