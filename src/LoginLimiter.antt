-- ===== src/LoginLimiter.antt =====
-- server/internal/auth/limiter.go: failed logins counted by user name and by client address, and the
-- begins of passkey logins by client address. Each method takes the time that its one call of
-- `Clock.Now` returns, and the mutex makes a method one step. A `*limitEntry` is read from the map,
-- changed and thereby stored: here it is put back. `threshold` is `limiterSweepAt`.
pub mod Current
pub mod Lockout
pub mod Begins
pub mod Addresses
pub mod Attempts
pub mod Sweeping
mod Tests
use my_tech_pulse.Base.{
  ℕ, ◌+◌, ◌-◌, ◌*◌, ◌%◌, ◌^◌, Bool, ◌&&◌, ◌||◌, not, none, some, [], ltb, leb, ◌==◌, if◌then◌else◌,
  Text, Assoc, lookup, insert, remove, retain, length, Time, Duration, minute,
}
use my_tech_pulse.Unicode.{Unicode, fold}

abbrev pub account_max_failures : ℕ
account_max_failures = 5

abbrev pub ip_max_failures : ℕ
ip_max_failures = 20

abbrev pub ip_max_begins : ℕ
ip_max_begins = 60

abbrev pub limiter_window : Duration
limiter_window = 15 * minute

abbrev pub lockout_base : Duration
lockout_base = minute

abbrev pub lockout_max : Duration
lockout_max = 15 * minute

abbrev pub limiter_sweep_at : ℕ
limiter_sweep_at = 10_000

pub record LimitEntry : Type 0 where
  pub failures : ℕ
  pub window_start : Time
  pub lock_until : Time
  pub level : ℕ

pub record LoginLimiter : Type 0 where
  pub accounts : Assoc LimitEntry
  pub ips : Assoc LimitEntry
  pub begins : Assoc LimitEntry

-- The result of a check: nil, or a `TooManyAttemptsError` with its `RetryAfter`.
pub data Verdict : Type 0 where
  allowed : Verdict
  too_many : Duration → Verdict

abbrev pub new_login_limiter : LoginLimiter
new_login_limiter = record { accounts = []; ips = []; begins = [] }

abbrev pub fresh : Time → LimitEntry
fresh now = record { failures = 0; window_start = now; lock_until = 0; level = 0 }

-- The window is over, and so is the lock.
unfoldable pub is_over : Time → LimitEntry → Bool
is_over now e = leb (e.window_start + limiter_window) now && leb e.lock_until now

-- The entry that `entryFor` returns. Its callers change the entry and it stays in the map, a fresh
-- one too, so each of them ends in `insert`.
unfoldable pub entry_for : Assoc LimitEntry → Text → Time → LimitEntry
unfolding is_over
entry_for m key now = elim (lookup key m) [
  | none ↦ fresh now
  | some e ↦ if is_over now e then fresh now else e
]

unfoldable pub sweep : ℕ → LoginLimiter → Time → LoginLimiter
unfolding is_over
sweep threshold l now =
    if ltb (length l.accounts + length l.ips + length l.begins) threshold then l else record {
      accounts = retain (λ e. not (is_over now e)) l.accounts;
      ips = retain (λ e. not (is_over now e)) l.ips;
      begins = retain (λ e. not (is_over now e)) l.begins;
    }

-- `lockoutBase << level` in an int64, cut to `lockoutMax`; a set top bit is a negative duration.
unfoldable pub lock_for : ℕ → Duration
lock_for level =
    let lock = lockout_base * 2 ^ level % 2 ^ 64 in
    if ltb lockout_max lock || leb (2 ^ 63) lock || lock == 0 then lockout_max else lock

-- What `Failure` does to the entry of the account.
unfoldable pub count_account_failure : LimitEntry → Time → LimitEntry
unfolding lock_for
count_account_failure e now =
    if leb account_max_failures (e.failures + 1)
    then record {
      failures = e.failures + 1;
      window_start = now + lock_for e.level;
      lock_until = now + lock_for e.level;
      level = if ltb e.level 10 then e.level + 1 else e.level;
    }
    else record e { failures = e.failures + 1; window_start = now }

unfoldable pub ip_wait : LoginLimiter → Text → Time → Duration
ip_wait l ip now = elim (lookup ip l.ips) [
  | none ↦ 0
  | some e ↦
      if ltb e.failures ip_max_failures || not (ltb now (e.window_start + limiter_window))
      then 0
      else e.window_start + limiter_window - now
]

abbrev pub verdict : Duration → Verdict
verdict wait = if ltb 0 wait then too_many wait else allowed

-- `CheckIP`.
unfoldable pub check_ip : LoginLimiter → Text → Time → Verdict
check_ip l ip now = verdict (ip_wait l ip now)

-- What `AllowBegin` does to the entry of the address, and its verdict.
unfoldable pub count_begin : LimitEntry → Time → LimitEntry × Verdict
count_begin e now =
    if leb ip_max_begins e.failures
    then (e, too_many (e.window_start + limiter_window - now))
    else (record e { failures = e.failures + 1 }, allowed)

-- `AllowBegin`: the limiter after the call, and its verdict.
unfoldable pub allow_begin : ℕ → LoginLimiter → Text → Time → LoginLimiter × Verdict
allow_begin threshold l ip now =
    let s = sweep threshold l now in
    let e = entry_for s.begins ip now in
    (record s { begins = insert ip (count_begin e now).0 s.begins }, (count_begin e now).1)

abbrev pub count_ip_failure : Text → Time → Assoc LimitEntry → Assoc LimitEntry
count_ip_failure ip now m =
    let e = entry_for m ip now in insert ip (record e { failures = e.failures + 1 }) m

-- `FailureIP`.
unfoldable pub failure_ip : ℕ → LoginLimiter → Text → Time → LoginLimiter
failure_ip threshold l ip now =
    let s = sweep threshold l now in record s { ips = count_ip_failure ip now s.ips }

module _ ⦃u : Unicode⦄ where
  unfoldable pub account_key : Text → Text
  account_key username = fold username

  -- The first part of `Check`: how long the account stays locked.
  unfoldable pub account_wait : LoginLimiter → Text → Time → Duration
  account_wait l username now = elim (lookup (account_key username) l.accounts) [
    | none ↦ 0
    | some e ↦ if ltb now e.lock_until then e.lock_until - now else 0
  ]

  unfoldable pub check : LoginLimiter → Text → Text → Time → Verdict
  check l username ip now =
      let wait = account_wait l username now in
      let w = ip_wait l ip now in verdict (if ltb wait w then w else wait)

  unfoldable pub failure : ℕ → LoginLimiter → Text → Text → Time → LoginLimiter
  failure threshold l username ip now =
      let s = sweep threshold l now in
      let key = account_key username in
      record s {
        accounts = insert key (count_account_failure (entry_for s.accounts key now) now) s.accounts;
        ips = count_ip_failure ip now s.ips;
      }

  unfoldable pub success : LoginLimiter → Text → LoginLimiter
  success l username = record l { accounts = remove (account_key username) l.accounts }
