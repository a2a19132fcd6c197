-- ===== src/RateLimit/Tests.antt =====
-- The token bucket at concrete times, and instances of its theorems.
use my_tech_pulse.Base.{
  ◌+◌, ◌*◌, ◌≤◌, ◌<◌, ◌≡◌, ◌⊎◌, refl, true, false, [], ◌∷◌, List, Text, text_eq, codes, lookup,
  insert, retain, length, Time, Duration, arith, second, minute,
}
use my_tech_pulse.RateLimit.{
  Floats, Bucket, Limiter, new, per_window, until_one, refill, sweep, sweep_full, evict, touch,
  allow, wait, take_one, max_keys, retry_after_seconds,
}
use my_tech_pulse.RateLimit.Available.{available, IsValid}
use my_tech_pulse.RateLimit.Calls.{allow-IsValid}
use my_tech_pulse.RateLimit.Waiting.{run, tolerance, allow_after_wait}
use my_tech_pulse.RateLimit.Rate.{Call, allows, step, granted, granted-le, new-IsValid}

program : Unit {0}
unfolding new per_window allow wait take_one touch sweep sweep_full evict refill until_one lookup
    insert retain text_eq step granted available retry_after_seconds
program = tt

at_most_one : (every : Duration) (b : Bucket) → 1 ≤ 1
at_most_one every b = omega arith

-- A float64 that is a nanosecond off in every answer.
instance abbrev late : Floats
late = record { ceil_error = λ every b. 1; ceil_error-le = at_most_one }

abbrev home : Text
home = codes "192.0.2.1"

-- Two at once, then one each minute.
abbrev two : Limiter
two = new 2 minute

abbrev start : Time
start = 1_000_000 * second

abbrev calls : List (Time × Call)
calls =
    (start, allows home 0)
    ∷ (start + second, allows home 0)
    ∷ (start + 2 * second, allows home 0)
    ∷ (start + 60 * second, allows home 0)
    ∷ []

third_is_refused : granted home two calls ≡ 3
unfolding program
third_is_refused = refl

abbrev spent : Limiter
spent = (allow (allow two home start 0).0 home start 0).0

spent-IsValid : IsValid spent
spent-IsValid =
    allow-IsValid (allow two home start 0).0 home start 0
      (allow-IsValid two home start 0 (new-IsValid 2 minute))

refused : (allow spent home (start + second) 0).1 ≡ (false, 59 * second)
unfolding program
refused = refl

spent_room : length spent.buckets + 1 + 1 ≤ max_keys
unfolding program
spent_room = omega arith

-- Another address calls once in between.
abbrev between : List (Time × Call)
between = (start + 2 * second, allows (codes "192.0.2.2") 0) ∷ []

not_home : text_eq (codes "192.0.2.2") home ≡ false
unfolding text_eq
not_home = refl

allow_after_wait_example :
    ((start + minute + 500 < start + second + 59 * second + 500)
      ⊎ ((allow
            (run (allow spent home (start + second) 0).0 between)
            home
            (start + minute + 500)
            0).1
          ≡ (true, 0)))
    × ((start + second + 59 * second < start + minute + 500 + tolerance spent)
        ⊎ ((allow
              (run (allow spent home (start + second) 0).0 between)
              home
              (start + minute + 500)
              0).1.0
            ≡ false))
allow_after_wait_example =
    allow_after_wait spent home (start + second) (start + minute + 500) 0 0 (59 * second) between
      spent-IsValid spent_room refused (omega arith, omega arith) (not_home, tt)

granted-le_example :
    granted home two calls * (minute * 999_999_999) ≤ (2 * minute + 61 * second) * 1_000_000_000
unfolding new
granted-le_example =
    granted-le home calls two start (start + 61 * second) (new-IsValid 2 minute) (omega arith)
      (omega arith)
