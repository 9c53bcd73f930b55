-- ===== src/Util.antt =====
-- src/util.rs: times and the constant-time comparison. A `DateTime<Utc>` is the number of nanoseconds
-- since the Unix epoch; times before 1970 are not modelled. `format_time` writes RFC 3339 with three
-- decimals, whose text stands here as the number of milliseconds that it spells: for the years 1970 to
-- 9999 these texts are compared by SQLite, byte by byte, as the numbers are.
pub mod TimingEq
use auth_mini_gateway.Prelude.{ℕ, ◌*◌, ◌/◌, ◌≤◌, ◌<◌, ◌≡◌, arith, ◌+◌}

abbrev pub DateTime : Type 0
DateTime = ℕ

-- The text of a stored time, as its milliseconds.
abbrev pub Stamp : Type 0
Stamp = ℕ

-- Duration::seconds
abbrev pub seconds : ℕ → ℕ
seconds n = n * 1000000000

unfoldable pub format_time : DateTime → Stamp
format_time t = t / 1000000

unfoldable pub parse_time : Stamp → DateTime
parse_time m = m * 1000000

pub format_time-parse_time : (m : Stamp) → format_time (parse_time m) ≡ m
unfolding format_time parse_time
format_time-parse_time m = omega arith

-- A time that is stored and read back loses its part below a millisecond.
pub parse_time-format_time-le :
    (t : DateTime) → (parse_time (format_time t) ≤ t) × (t < parse_time (format_time t) + 1000000)
unfolding format_time parse_time
parse_time-format_time-le t = omega arith

pub format_time_mono : (t u : DateTime) → t ≤ u → format_time t ≤ format_time u
unfolding format_time
format_time_mono t u h = omega arith
