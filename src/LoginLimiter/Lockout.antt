-- ===== src/LoginLimiter/Lockout.antt =====
-- When an account or an address is locked out, and for how long.
use my_tech_pulse.Base.{
  subst, ℕ, ◌+◌, ◌-◌, ◌*◌, ◌^◌, ◌≤◌, ◌<◌, ◌≡◌, refl, ap, ◌∙◌, arith, ltb, if◌then◌else◌, min, zero,
  suc, Text, text_eq, text_eq_refl, Time, Duration, minute,
}
use my_tech_pulse.Unicode.{Unicode}
use my_tech_pulse.LoginLimiter.{
  LimitEntry, LoginLimiter, too_many, is_over, entry_for, sweep, ip_wait, account_key, account_wait,
  check, failure, failure_ip, count_ip_failure, count_account_failure, lock_for, limiter_window,
  ip_max_failures, account_max_failures, lockout_max,
}
use my_tech_pulse.LoginLimiter.Current.{
  entry_for-Every, entry_for-insert, ip_wait-entry_for, account_wait-entry_for, IsValid, refresh,
}
use my_tech_pulse.LoginLimiter.Sweeping.{sweep-SameAnswers}

-- The length of a lockout doubles from one minute and stops at fifteen. Entries never pass level 10
-- (`Reachable`), so the shift does not overflow.
pub lock_for-min : (level : ℕ) → level ≤ 10 → lock_for level ≡ min (minute * 2 ^ level) lockout_max
unfolding lock_for
lock_for-min zero h = refl
lock_for-min (suc zero) h = refl
lock_for-min (suc (suc zero)) h = refl
lock_for-min (suc (suc (suc zero))) h = refl
lock_for-min (suc (suc (suc (suc zero)))) h = refl
lock_for-min (suc (suc (suc (suc (suc zero))))) h = refl
lock_for-min (suc (suc (suc (suc (suc (suc zero)))))) h = refl
lock_for-min (suc (suc (suc (suc (suc (suc (suc zero))))))) h = refl
lock_for-min (suc (suc (suc (suc (suc (suc (suc (suc zero)))))))) h = refl
lock_for-min (suc (suc (suc (suc (suc (suc (suc (suc (suc zero))))))))) h = refl
lock_for-min (suc (suc (suc (suc (suc (suc (suc (suc (suc (suc zero)))))))))) h = refl
lock_for-min (suc (suc (suc (suc (suc (suc (suc (suc (suc (suc (suc n))))))))))) h =
    absurd (omega arith)

refresh_wait : (t : Time) (e : LimitEntry) → (refresh t e).lock_until - t ≡ e.lock_until - t
unfolding is_over
refresh_wait t e = ground arith

abbrev pub count_failure : LimitEntry → LimitEntry
count_failure e = record e { failures = e.failures + 1 }

-- How long an address waits on its entry: to the end of the window once twenty failures are in.
abbrev pub ip_entry_wait : LimitEntry → Time → Duration
ip_entry_wait e t =
    if ltb e.failures ip_max_failures then 0 else e.window_start + limiter_window - t

refresh_ip_wait : (t : Time) (e : LimitEntry) → ip_entry_wait (refresh t e) t ≡ ip_entry_wait e t
unfolding is_over
refresh_ip_wait t e = ground arith

counted_ip :
    (threshold : ℕ) (l : LoginLimiter) (now t : Time)
    → IsValid l
    → now ≤ t
    → (r : LoginLimiter) (ip other : Text)
    → r.ips ≡ count_ip_failure ip now (sweep threshold l now).ips
    → ip_wait r other t ≡ (
        if text_eq ip other
        then ip_entry_wait (count_failure (entry_for l.ips ip now)) t
        else ip_wait l other t)
counted_ip threshold l now t v le r ip other e =
    let s = (sweep-SameAnswers threshold l now v).ips in
    rw
      (
        ip_wait-entry_for r other t,
        ip_wait-entry_for l other t,
        e,
        entry_for-insert other ip (count_failure (entry_for (sweep threshold l now).ips ip now))
            (sweep threshold l now).ips t,
        s ip now (omega arith),
        s other t le,
      )
      (ground (arith, refresh_ip_wait t (count_failure (entry_for l.ips ip now))))

module _ ⦃u : Unicode⦄ (threshold : ℕ) (l : LoginLimiter) (now t : Time) (v : IsValid l)
    (le : now ≤ t) where
  -- How long any account stays locked after a failure: the account that failed (under each spelling
  -- of its name) by its counted entry, every other account as before.
  pub account_wait-failure :
      (username ip other : Text)
      → account_wait (failure threshold l username ip now) other t ≡ (
          if text_eq (account_key username) (account_key other)
          then (count_account_failure
              (entry_for l.accounts (account_key username) now)
              now).lock_until
            - t
          else account_wait l other t)
  unfolding failure
  account_wait-failure username ip other =
      let s = (sweep-SameAnswers threshold l now v).accounts in
      rw
        (
          account_wait-entry_for (failure threshold l username ip now) other t,
          account_wait-entry_for l other t,
          entry_for-insert (account_key other) (account_key username)
              (count_account_failure
                (entry_for (sweep threshold l now).accounts (account_key username) now) now)
              (sweep threshold l now).accounts t,
          s (account_key username) now (omega arith),
          s (account_key other) t le,
        )
        (ground (
          arith,
          refresh_wait t
              (count_account_failure (entry_for l.accounts (account_key username) now) now),
        ))

  -- The IP failures likewise, whichever of the two methods counts them.
  pub ip_wait-failure_ip :
      (ip other : Text)
      → ip_wait (failure_ip threshold l ip now) other t ≡ (
          if text_eq ip other
          then ip_entry_wait (count_failure (entry_for l.ips ip now)) t
          else ip_wait l other t)
  unfolding failure_ip
  ip_wait-failure_ip ip other =
      counted_ip threshold l now t v le (failure_ip threshold l ip now) ip other refl

  pub ip_wait-failure :
      (username ip other : Text)
      → ip_wait (failure threshold l username ip now) other t ≡ (
          if text_eq ip other
          then ip_entry_wait (count_failure (entry_for l.ips ip now)) t
          else ip_wait l other t)
  unfolding failure
  ip_wait-failure username ip other =
      counted_ip threshold l now t v le (failure threshold l username ip now) ip other refl

count_account_failure-lock :
    (e : LimitEntry) (now : Time)
    → account_max_failures ≤ e.failures + 1
    → (count_account_failure e now).lock_until ≡ now + lock_for e.level
unfolding count_account_failure
count_account_failure-lock e now h = ground arith

module _ ⦃u : Unicode⦄ where
  -- The failure that is the fifth or a later one of its window locks the account, under every
  -- spelling of the name and from every address: until the lock ends each check is refused, with a
  -- wait that reaches at least to its end. The lock doubles with the entry's level, from one minute
  -- up to fifteen.
  pub check-failure_locked :
      (threshold : ℕ) (l : LoginLimiter) (e : LimitEntry) (username ip other from : Text)
      (now t : Time)
      → IsValid l
      → account_key username ≡ account_key other
      → entry_for l.accounts (account_key username) now ≡ e
      → account_max_failures ≤ e.failures + 1
      → now ≤ t
      → t < now + min (minute * 2 ^ e.level) lockout_max
      → (w : Duration) × (check (failure threshold l username ip now) other from t ≡ too_many w)
        × (now + min (minute * 2 ^ e.level) lockout_max ≤ t + w)
  unfolding check
  check-failure_locked threshold l e username ip other from now t v same current many le locked =
      (longest, ground (arith, waits, long), ground (arith, waits, long))
    where
      after : LoginLimiter
      after = failure threshold l username ip now

      longest : Duration
      longest =
          if ltb (account_wait after other t) (ip_wait after from t)
          then ip_wait after from t
          else account_wait after other t

      waits : account_wait after other t ≡ now + lock_for e.level - t
      waits =
          account_wait-failure threshold l now t v le username ip other
          ∙ rw (same, text_eq_refl (account_key other), ← same, current)
              (ap (λ d. d - t) (count_account_failure-lock e now many))

      long : lock_for e.level ≡ min (minute * 2 ^ e.level) lockout_max
      long = lock_for-min e.level (
          subst (λ (x : LimitEntry). x.level ≤ 10) current
            (entry_for-Every (λ x. x.level ≤ 10) l.accounts (account_key username) now (omega arith)
              v.levels))
