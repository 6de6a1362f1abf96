-- ===== src/Prelude/Time.antt =====
-- `chrono`'s instants and durations: a `DateTime<Utc>` is the number of nanoseconds since the
-- earliest instant that chrono represents, a `Duration` is a signed number of nanoseconds.
use Prim.Native.Nat.{ℕ, ◌*◌}
use agent_term_status.Prelude.Int.{ℤ, pos, sub_ℕ, div_trunc}

abbrev pub DateTime : Type 0
DateTime = ℕ

abbrev pub Duration : Type 0
Duration = ℤ

abbrev pub nanos_per_second : ℕ
nanos_per_second = 1_000_000_000

abbrev pub seconds : ℕ → Duration
seconds n = pos (n * nanos_per_second)

abbrev pub minutes : ℕ → Duration
minutes n = seconds (n * 60)

abbrev pub hours : ℕ → Duration
hours n = seconds (n * 3600)

abbrev pub no_time : Duration
no_time = pos 0

-- `now.signed_duration_since(then)`
abbrev pub signed_duration_since : DateTime → DateTime → Duration
signed_duration_since now before = sub_ℕ now before

abbrev pub num_milliseconds : Duration → ℤ
num_milliseconds d = div_trunc d 1_000_000

abbrev pub num_seconds : Duration → ℤ
num_seconds d = div_trunc d nanos_per_second
