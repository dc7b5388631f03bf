-- ===== src/Time.antt =====
-- Go's `time.Time` as nanoseconds since a fixed instant, and `time.Duration` as nanoseconds.
-- Durations are not negative here, and instants do not wrap.
use kite_mcp_oauth.Prelude.{ℕ, ◌*◌, ◌^◌}

abbrev pub second : ℕ
second = 10 ^ 9

abbrev pub minute : ℕ
minute = 60 * second

abbrev pub hour : ℕ
hour = 60 * minute
