-- ===== src/LoginLimiter/Tests.antt =====
-- The login limiter at concrete times and names, and instances of its theorems.
use my_tech_pulse.Base.{
  ◌+◌, ◌-◌, ◌*◌, ◌^◌, ◌≤◌, ◌≡◌, refl, some, none, lookup, insert, remove, arith, min, List, [], ◌∷◌,
  Text, codes, text_eq, Time, Duration, second, minute, hour, if◌then◌else◌, ltb, retain,
}
use my_tech_pulse.Unicode.{Unicode, ascii, fold, to_lower, trim_space, is_space}
use my_tech_pulse.LoginLimiter.{
  LimitEntry, LoginLimiter, allowed, too_many, new_login_limiter, is_over, entry_for, sweep,
  ip_wait, allow_begin, count_begin, failure, failure_ip, success, check, check_ip, account_key,
  account_wait, limiter_window, count_account_failure, lock_for, limiter_sweep_at, lockout_max,
  ip_max_begins, ip_max_failures,
}
use my_tech_pulse.LoginLimiter.Current.{IsValid}
use my_tech_pulse.LoginLimiter.Sweeping.{
  Call, checks, fails, ip_fails, begins, step, run, run-IsValid, run_any_threshold,
}
use my_tech_pulse.LoginLimiter.Lockout.{check-failure_locked}
use my_tech_pulse.LoginLimiter.Begins.{count_allowed, count_begins, count_allowed-min}
use my_tech_pulse.LoginLimiter.Addresses.{count_failures, check_ip-run}
use my_tech_pulse.LoginLimiter.Attempts.{account_wait-few}

program : Unit {0}
unfolding check check_ip allow_begin count_begin failure failure_ip success sweep entry_for ip_wait
    account_key account_wait count_account_failure lock_for run step lookup insert remove retain
    text_eq fold to_lower trim_space is_space is_over count_allowed count_begins count_failures
program = tt

instance abbrev table : Unicode
table = ascii

abbrev alice : Text
alice = codes "alice"

abbrev home : Text
home = codes "192.0.2.1"

abbrev start : Time
start = 1000 * hour

-- Four failures, one each second.
abbrev four : List (Time × Call)
four =
    (start + 1 * second, fails alice home)
    ∷ (start + 2 * second, fails (codes " Alice") home)
    ∷ (start + 3 * second, fails (codes "ALICE ") home)
    ∷ (start + 4 * second, fails alice home)
    ∷ []

abbrev guessed : LoginLimiter
guessed = (run limiter_sweep_at new_login_limiter four).0

new-IsValid : IsValid new_login_limiter
unfolding lookup
new-IsValid = record {
  accounts = tt;
  ips = tt;
  begins = tt;
  levels = λ k e q. cc;
  begun = λ k e q. cc;
}

guessed-IsValid : IsValid guessed
guessed-IsValid = run-IsValid limiter_sweep_at new_login_limiter four new-IsValid

-- All spellings count for one account; the fifth failure locks it for a minute.
fifth_locks :
    (run limiter_sweep_at guessed (
      (start + 5 * second, checks alice home)
      ∷ (start + 5 * second, fails alice home)
      ∷ (start + 6 * second, checks (codes "alicE") (codes "198.51.100.7"))
      ∷ (start + 65 * second, checks alice home)
      ∷ [])).1
    ≡ allowed ∷ allowed ∷ too_many (59 * second) ∷ allowed ∷ []
unfolding program
fifth_locks = refl

abbrev entry : LimitEntry
entry = record { failures = 4; window_start = start + 4 * second; lock_until = 0; level = 0 }

guessed_entry : entry_for guessed.accounts (account_key alice) (start + 5 * second) ≡ entry
unfolding program
guessed_entry = refl

run_any_threshold_example :
    (run 1 guessed ((start + 2 * hour, checks alice home) ∷ [])).1
    ≡ (run limiter_sweep_at guessed ((start + 2 * hour, checks alice home) ∷ [])).1
run_any_threshold_example =
    run_any_threshold 1 limiter_sweep_at guessed start ((start + 2 * hour, checks alice home) ∷ [])
      guessed-IsValid (omega arith)

check-failure_locked_example :
    (w : Duration) × (check
        (failure limiter_sweep_at guessed alice home (start + 5 * second))
        (codes "ALICE")
        (codes "198.51.100.7")
        (start + 6 * second)
      ≡ too_many w)
    × (start + 5 * second + min (minute * 2 ^ 0) lockout_max ≤ start + 6 * second + w)
check-failure_locked_example =
    check-failure_locked limiter_sweep_at guessed entry alice home (codes "ALICE")
      (codes "198.51.100.7") (start + 5 * second) (start + 6 * second) guessed-IsValid
      (unfold program in refl) guessed_entry (omega arith) (omega arith) (omega arith)

abbrev started : LoginLimiter
started =
    (run limiter_sweep_at new_login_limiter ((start, begins home) ∷ (start, ip_fails home) ∷ [])).0

started-IsValid : IsValid started
started-IsValid =
    run-IsValid limiter_sweep_at new_login_limiter
      ((start, begins home) ∷ (start, ip_fails home) ∷ []) new-IsValid

abbrev once : LimitEntry
once = record { failures = 1; window_start = start; lock_until = 0; level = 0 }

abbrev more_calls : List (Time × Call)
more_calls =
    (start + 1, begins home) ∷ (start + 2, fails alice home) ∷ (start + 3, begins alice) ∷ []

started_begins : lookup home started.begins ≡ some once
unfolding program
started_begins = refl

started_ips : lookup home started.ips ≡ some once
unfolding program
started_ips = refl

count_allowed-min_example :
    count_allowed home more_calls (run limiter_sweep_at started more_calls).1
    ≡ min (ip_max_begins - 1) (count_begins home more_calls)
count_allowed-min_example =
    count_allowed-min limiter_sweep_at home started once start more_calls started-IsValid
      started_begins (omega arith) (omega arith)

check_ip-run_example :
    check_ip (run limiter_sweep_at started more_calls).0 home (start + minute) ≡ (
      if ltb (1 + count_failures home more_calls) ip_max_failures
      then allowed
      else too_many (start + limiter_window - (start + minute)))
check_ip-run_example =
    check_ip-run limiter_sweep_at home started once start (start + minute) more_calls
      started-IsValid started_ips (omega arith) (omega arith) (omega arith) (omega arith)

new_unknown : lookup (account_key alice) new_login_limiter.accounts ≡ none
unfolding lookup
new_unknown = refl

account_wait-few_example :
    account_wait (run limiter_sweep_at new_login_limiter four).0 alice (start + minute) ≡ 0
account_wait-few_example =
    account_wait-few limiter_sweep_at new_login_limiter alice start (start + minute) four
      new-IsValid new_unknown (unfold program in omega arith) (omega arith) (omega arith)
      (omega arith)
