-- ===== src/Core/Equality.antt =====
-- The derived `PartialEq` of `AgentState` (crates/ats-core/src/state.rs).
use agent_term_status.Prelude.{ℕ, ◌≡◌, ◌↔◌, Bool, true, arith, nat_eq, PartialEq}
use agent_term_status.Core.{AgentState, idle, working, attention, risk, result, error, unknown}

-- The discriminant of a variant.
abbrev pub tag : AgentState → ℕ
tag idle = 0
tag working = 1
tag attention = 2
tag risk = 3
tag result = 4
tag error = 5
tag unknown = 6

abbrev pub state_eq : AgentState → AgentState → Bool
state_eq a b = nat_eq (tag a) (tag b)

pub state_eq_iff : (a b : AgentState) → (state_eq a b ≡ true) ↔ (a ≡ b)
state_eq_iff a b = ground arith

instance abbrev pub AgentState_eq : PartialEq AgentState
AgentState_eq = record { test = state_eq; test_iff = state_eq_iff }
