-- ===== src/LoginLimiter/Attempts.antt =====
-- The first failures of an account, and its success, over any interleaving of calls.
use my_tech_pulse.Base.{
  none, lookup, ℕ, ◌+◌, ◌≤◌, ◌<◌, ◌≡◌, refl, arith, if◌then◌else◌, false, Bool, List, [], ◌∷◌, Text,
  text_eq, text_eq_iff, Time,
}
use my_tech_pulse.Unicode.{Unicode}
use my_tech_pulse.LoginLimiter.{
  LoginLimiter, fresh, is_over, entry_for, sweep, allow_begin, failure, failure_ip, success,
  account_key, account_wait, account_max_failures, count_account_failure,
}
use my_tech_pulse.LoginLimiter.Current.{
  entry_for-insert, entry_for-remove, account_wait-entry_for, IsValid, refresh,
}
use my_tech_pulse.LoginLimiter.Sweeping.{
  sweep-SameAnswers, Call, checks, fails, ip_checks, ip_fails, begins, succeeds, step, run,
  step-IsValid, Chronological,
}
use my_tech_pulse.LoginLimiter.Begins.{AllBefore}

module _ ⦃u : Unicode⦄ where
  -- The calls that count a failure of the account, under any spelling of its name.
  abbrev pub is_account_failure : Text → Call → Bool
  is_account_failure key (fails username from) = text_eq (account_key username) key
  is_account_failure key (ip_fails from) = false
  is_account_failure key (checks username from) = false
  is_account_failure key (ip_checks from) = false
  is_account_failure key (begins from) = false
  is_account_failure key (succeeds username) = false

  abbrev pub is_account_success : Text → Call → Bool
  is_account_success key (succeeds username) = text_eq (account_key username) key
  is_account_success key (fails username from) = false
  is_account_success key (ip_fails from) = false
  is_account_success key (checks username from) = false
  is_account_success key (ip_checks from) = false
  is_account_success key (begins from) = false

  -- The failures of the account since its last success, after one more call.
  abbrev pub failures_after : Text → ℕ → Call → ℕ
  failures_after key n c =
      if is_account_success key c then 0 else if is_account_failure key c then n + 1 else n

  -- There are never five failures without a success between them.
  abbrev pub FewFailures : Text → ℕ → List (Time × Call) → Type 0
  FewFailures key n [] = n < account_max_failures
  FewFailures key n ((now, c) ∷ calls) =
      (n < account_max_failures) × FewFailures key (failures_after key n c) calls

  -- Up to n failures are counted for the key, and none has locked it.
  abbrev Few : LoginLimiter → Text → Time → ℕ → Type 0
  Few l key now n =
      (t : Time)
      → now ≤ t
      → ((entry_for l.accounts key t).failures ≤ n) × ((entry_for l.accounts key t).lock_until ≡ 0)

  module _ (threshold : ℕ) (key : Text) where
    accounts-step :
        (l : LoginLimiter) (now t : Time) (c : Call)
        → IsValid l
        → now ≤ t
        → entry_for (step threshold l now c).0.accounts key t ≡ (
            if is_account_success key c
            then fresh t
            else if is_account_failure key c
            then refresh t (count_account_failure (entry_for l.accounts key now) now)
            else entry_for l.accounts key t)
    unfolding step failure failure_ip allow_begin success
    accounts-step l now t (fails username from) v le =
        let s = (sweep-SameAnswers threshold l now v).accounts in
        rw
          (
            entry_for-insert key (account_key username)
                (count_account_failure
                  (entry_for (sweep threshold l now).accounts (account_key username) now) now)
                (sweep threshold l now).accounts t,
            s (account_key username) now (omega arith),
            s key t le,
          )
          (ground (arith, text_eq_iff (account_key username) key))
    accounts-step l now t (ip_fails from) v le =
        (sweep-SameAnswers threshold l now v).accounts key t le
    accounts-step l now t (checks username from) v le = refl
    accounts-step l now t (ip_checks from) v le = refl
    accounts-step l now t (begins from) v le =
        (sweep-SameAnswers threshold l now v).accounts key t le
    accounts-step l now t (succeeds username) v le =
        entry_for-remove key (account_key username) l.accounts t

    step-Few :
        (l : LoginLimiter) (now : Time) (c : Call) (n : ℕ)
        → IsValid l
        → failures_after key n c < account_max_failures
        → Few l key now n
        → Few (step threshold l now c).0 key now (failures_after key n c)
    unfolding count_account_failure is_over
    step-Few l now c n v below h t le =
        ground (arith, accounts-step l now t c v le, h t le, h now (omega arith))

    FewFailures-head :
        (n : ℕ) (calls : List (Time × Call)) → FewFailures key n calls → n < account_max_failures
    FewFailures-head n [] f = f
    FewFailures-head n (c ∷ calls) f = f.0

    run-Few :
        (calls : List (Time × Call)) (l : LoginLimiter) (now t : Time) (n : ℕ)
        → IsValid l
        → Few l key now n
        → FewFailures key n calls
        → Chronological now calls
        → AllBefore (t + 1) calls
        → now ≤ t
        → (entry_for (run threshold l calls).0.accounts key t).lock_until ≡ 0
    unfolding run
    run-Few [] l now t n v h f c b le = (h t le).1
    run-Few ((s, call) ∷ calls) l now t n v h f c b le =
        run-Few calls (step threshold l s call).0 s t (failures_after key n call)
          (step-IsValid threshold l s call v)
          (step-Few l s call n v (FewFailures-head (failures_after key n call) calls f.1)
            (λ r le'. h r (omega arith)))
          f.1 c.1 b.1 (omega arith)

  -- An account that the limiter does not know is not locked by any calls among which it never fails
  -- five times without a success in between, however many other accounts fail, and from wherever.
  pub account_wait-few :
      (threshold : ℕ) (l : LoginLimiter) (username : Text) (now t : Time)
      (calls : List (Time × Call))
      → IsValid l
      → lookup (account_key username) l.accounts ≡ none
      → FewFailures (account_key username) 0 calls
      → Chronological now calls
      → AllBefore (t + 1) calls
      → now ≤ t
      → account_wait (run threshold l calls).0 username t ≡ 0
  unfolding entry_for
  account_wait-few threshold l username now t calls v unknown f c b le =
      rw (account_wait-entry_for (run threshold l calls).0 username t) (
        let e =
          run-Few threshold (account_key username) calls l now t 0 v
            (λ s le'. (ground (arith, unknown), ground (arith, unknown))) f c b le in
        omega (arith, e))
