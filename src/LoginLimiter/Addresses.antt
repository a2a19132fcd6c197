-- ===== src/LoginLimiter/Addresses.antt =====
-- The failures of one address, over any interleaving of calls.
use my_tech_pulse.Base.{
  some, lookup, insert, ℕ, ◌+◌, ◌-◌, ◌≤◌, ◌<◌, ◌≡◌, refl, arith, ltb, if◌then◌else◌, false, Bool,
  List, [], ◌∷◌, Text, text_eq, text_eq_iff, Time, Duration,
}
use my_tech_pulse.Unicode.{Unicode}
use my_tech_pulse.LoginLimiter.{
  LimitEntry, LoginLimiter, allowed, too_many, is_over, entry_for, sweep, ip_wait, allow_begin,
  failure, failure_ip, success, check_ip, limiter_window, ip_max_failures,
}
use my_tech_pulse.LoginLimiter.Current.{
  entry_for-insert, entry_for_live, ip_wait-entry_for, IsValid, refresh,
}
use my_tech_pulse.LoginLimiter.Lockout.{count_failure, ip_entry_wait}
use my_tech_pulse.LoginLimiter.Sweeping.{
  sweep-SameAnswers, Call, checks, fails, ip_checks, ip_fails, begins, succeeds, step, run,
  step-IsValid, Chronological,
}
use my_tech_pulse.LoginLimiter.Begins.{AllBefore}

-- The calls that count a failure of the address: with a user name, and without one.
abbrev pub is_failure : Text → Call → Bool
is_failure ip (fails username from) = text_eq from ip
is_failure ip (ip_fails from) = text_eq from ip
is_failure ip (checks username from) = false
is_failure ip (ip_checks from) = false
is_failure ip (begins from) = false
is_failure ip (succeeds username) = false

unfoldable pub count_failures : Text → List (Time × Call) → ℕ
count_failures ip [] = 0
count_failures ip ((now, c) ∷ calls) = (if is_failure ip c then 1 else 0) + count_failures ip calls

abbrev Holds : LoginLimiter → Text → Time → LimitEntry → Type 0
Holds l ip now e =
    (t : Time) → now ≤ t → t < e.window_start + limiter_window → entry_for l.ips ip t ≡ e

module _ ⦃u : Unicode⦄ (threshold : ℕ) (ip : Text) where
  counted_failure :
      (l : LoginLimiter) (now t : Time) (from : Text)
      → IsValid l
      → now ≤ t
      → entry_for
          (insert from
            (count_failure (entry_for (sweep threshold l now).ips from now))
            (sweep threshold l now).ips)
          ip
          t
        ≡ (if text_eq from ip
            then refresh t (count_failure (entry_for l.ips ip now))
            else entry_for l.ips ip t)
  counted_failure l now t from v le =
      let s = (sweep-SameAnswers threshold l now v).ips in
      rw
        (
          entry_for-insert ip from (count_failure (entry_for (sweep threshold l now).ips from now))
              (sweep threshold l now).ips t,
          s from now (omega arith),
          s ip t le,
        )
        (ground (arith, text_eq_iff from ip))

  ips-step :
      (l : LoginLimiter) (now t : Time) (c : Call)
      → IsValid l
      → now ≤ t
      → entry_for (step threshold l now c).0.ips ip t ≡ (
          if is_failure ip c
          then refresh t (count_failure (entry_for l.ips ip now))
          else entry_for l.ips ip t)
  unfolding step failure failure_ip allow_begin success
  ips-step l now t (fails username from) v le = counted_failure l now t from v le
  ips-step l now t (ip_fails from) v le = counted_failure l now t from v le
  ips-step l now t (checks username from) v le = refl
  ips-step l now t (ip_checks from) v le = refl
  ips-step l now t (begins from) v le = (sweep-SameAnswers threshold l now v).ips ip t le
  ips-step l now t (succeeds username) v le = refl

  abbrev failed : LimitEntry → Call → LimitEntry
  failed e c = if is_failure ip c then count_failure e else e

  failed-Holds :
      (l : LoginLimiter) (e : LimitEntry) (now : Time) (c : Call)
      → IsValid l
      → now < e.window_start + limiter_window
      → Holds l ip now e
      → Holds (step threshold l now c).0 ip now (failed e c)
  unfolding is_over
  failed-Holds l e now c v inside h t le before =
      ground (arith, ips-step l now t c v le, h now (omega arith) inside, h t le)

  failed-window_start : (e : LimitEntry) (c : Call) → (failed e c).window_start ≡ e.window_start
  failed-window_start e c = ground arith

  counted_wait :
      (e : LimitEntry) (c : Call) (t : Time) (n : ℕ) (d : Duration)
      → d ≡ ip_entry_wait (record (failed e c) { failures = (failed e c).failures + n }) t
      → d
        ≡ ip_entry_wait
            (record e { failures = e.failures + ((if is_failure ip c then 1 else 0) + n) })
            t
  counted_wait e c t n d h = ground arith

  waits :
      (calls : List (Time × Call)) (l : LoginLimiter) (e : LimitEntry) (now t : Time)
      → IsValid l
      → Holds l ip now e
      → Chronological now calls
      → AllBefore (t + 1) calls
      → now ≤ t
      → t < e.window_start + limiter_window
      → ip_wait (run threshold l calls).0 ip t
        ≡ ip_entry_wait (record e { failures = e.failures + count_failures ip calls }) t
  unfolding run count_failures
  waits [] l e now t v h c b le before = rw (ip_wait-entry_for l ip t, h t le before) (ground arith)
  waits ((s, call) ∷ calls) l e now t v h c b le before =
      counted_wait e call t (count_failures ip calls) _ (
        waits calls (step threshold l s call).0 (failed e call) s t
          (step-IsValid threshold l s call v)
          (failed-Holds l e s call v (omega arith) (λ r le'. h r (omega arith))) c.1 b.1
          (omega arith) (rw (failed-window_start e call) before))

  -- After any calls inside the window of an address, its passkey logins are refused exactly when
  -- twenty failures are in, those counted with a user name and those without, and then until the
  -- window ends; no begin, check or success changes that.
  pub check_ip-run :
      (l : LoginLimiter) (e : LimitEntry) (now t : Time) (calls : List (Time × Call))
      → IsValid l
      → lookup ip l.ips ≡ some e
      → Chronological now calls
      → AllBefore (t + 1) calls
      → now ≤ t
      → t < e.window_start + limiter_window
      → check_ip (run threshold l calls).0 ip t ≡ (
          if ltb (e.failures + count_failures ip calls) ip_max_failures
          then allowed
          else too_many (e.window_start + limiter_window - t))
  unfolding check_ip
  check_ip-run l e now t calls v found c b le before =
      rw
        (waits calls l e now t v (λ s le' inside. entry_for_live ip l.ips e s found inside) c b le
          before)
        (ground arith)
