-- ===== src/Base/Clock.antt =====
-- Times and durations in nanoseconds. A time counts from Go's zero `time.Time`, which is 0 here, so
-- `t.IsZero()` is `t == 0`, and `t.Before(u)` is `ltb t u`.
use Prim.Native.Nat.{ℕ, ◌*◌}

abbrev pub Time : Type 0
Time = ℕ

abbrev pub Duration : Type 0
Duration = ℕ

abbrev pub second : Duration
second = 1_000_000_000

abbrev pub minute : Duration
minute = 60 * second

abbrev pub hour : Duration
hour = 60 * minute

abbrev pub day : Duration
day = 24 * hour
