-- ===== src/Rendering/Policy.antt =====
-- crates/ats-rendering/src/lib.rs, `NotificationPolicy`. A time of day is a number of nanoseconds
-- since midnight; the local time is an argument.
use agent_term_status.Prelude.{
  ℕ, ◌<◌, ◌≡◌, ◌↔◌, Bool, true, false, ◌&&◌, ◌||◌, Option, some, none, List, [], ◌∷◌, any, not,
  if◌then◌else◌, leb, ltb, arith, ◌==◌, ◌+◌, ◌-◌, ◌%◌,
}
use agent_term_status.Core.{AgentState, attention, risk, result, error}
use agent_term_status.Core.Equality.{AgentState_eq}

abbrev pub NaiveTime : Type 0
NaiveTime = ℕ

pub record NotificationPolicy : Type 0 where
  pub notify_states : List AgentState
  pub quiet_hours_start : Option NaiveTime
  pub quiet_hours_end : Option NaiveTime
  pub quiet_hours_allow : List AgentState

abbrev pub default_policy : NotificationPolicy
default_policy = record {
  notify_states = attention ∷ risk ∷ result ∷ error ∷ [];
  quiet_hours_start = none;
  quiet_hours_end = none;
  quiet_hours_allow = risk ∷ [];
}

unfoldable pub should_notify : NotificationPolicy → AgentState → Bool
should_notify p state = any (λ s. s == state) p.notify_states

-- The window test that this crate and ats-renderer-notification both contain.
unfoldable pub in_quiet_hours : Option NaiveTime → Option NaiveTime → NaiveTime → Bool
in_quiet_hours (some start) (some end) now =
    if leb start end then leb start now && ltb now end else leb start now || ltb now end
in_quiet_hours _ _ now = false

unfoldable pub is_quiet_hours : NotificationPolicy → NaiveTime → Bool
is_quiet_hours p now = in_quiet_hours p.quiet_hours_start p.quiet_hours_end now

unfoldable pub quiet_hours_allows : NotificationPolicy → AgentState → NaiveTime → Bool
quiet_hours_allows p state now =
    if not (is_quiet_hours p now) then true else any (λ s. s == state) p.quiet_hours_allow

-- The time that passes on a clock of 24 hours from one time of day to the next.
abbrev pub day : ℕ
day = 86_400_000_000_000

abbrev pub clock_distance : NaiveTime → NaiveTime → ℕ
clock_distance a b = (b + day - a) % day

-- For times below 24 hours, quiet hours are the half-open interval of the 24-hour clock from the
-- start to the end, over midnight where the end is the earlier of the two, and empty where they are
-- the same.
pub in_quiet_hours_iff :
    (start end now : NaiveTime)
    → start < day
    → end < day
    → now < day
    → (in_quiet_hours (some start) (some end) now ≡ true)
      ↔ (clock_distance start now < clock_distance start end)
unfolding in_quiet_hours
in_quiet_hours_iff start end now hs he hn = ground arith
