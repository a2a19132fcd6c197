-- ===== src/LoginLimiter/Sweeping.antt =====
-- Calls in the order of their times, and the sweep: when it runs changes no answer.
use my_tech_pulse.Base.{
  insert-Every, remove-Every, retain-Every, ℕ, ◌+◌, ◌≤◌, ◌≡◌, refl, sym, ◌∙◌, arith, ltb, List, [],
  ◌∷◌, Text, Assoc, insert, remove, insert-IsMap, remove-IsMap, retain-IsMap, Time, inl, inr,
  length, Bool-cases,
}
use my_tech_pulse.Unicode.{Unicode}
use my_tech_pulse.LoginLimiter.{
  ip_max_begins, count_begin, count_account_failure, account_key, LimitEntry, LoginLimiter, Verdict,
  allowed, entry_for, sweep, ip_wait, account_wait, check, check_ip, allow_begin, failure,
  failure_ip, success, count_ip_failure,
}
use my_tech_pulse.LoginLimiter.Current.{
  entry_for-Every, entry_for-insert, entry_for-remove, entry_for-retain, ip_wait-entry_for,
  account_wait-entry_for, IsValid,
}

-- The two maps have the same current entry at every key, now and later.
abbrev pub Agrees : Time → Assoc LimitEntry → Assoc LimitEntry → Type 0
Agrees now m n = (k : Text) (t : Time) → now ≤ t → entry_for m k t ≡ entry_for n k t

pub record SameAnswers (now : Time) (l r : LoginLimiter) : Type 0 where
  pub accounts : Agrees now l.accounts r.accounts
  pub ips : Agrees now l.ips r.ips
  pub begins : Agrees now l.begins r.begins

insert-Agrees :
    (now : Time) (key : Text) (e : LimitEntry) (m n : Assoc LimitEntry)
    → Agrees now m n
    → Agrees now (insert key e m) (insert key e n)
insert-Agrees now key e m n h k t le =
    rw (entry_for-insert k key e m t, entry_for-insert k key e n t, h k t le)

remove-Agrees :
    (now : Time) (key : Text) (m n : Assoc LimitEntry)
    → Agrees now m n
    → Agrees now (remove key m) (remove key n)
remove-Agrees now key m n h k t le =
    rw (entry_for-remove k key m t, entry_for-remove k key n t, h k t le)

later-SameAnswers :
    {now t : Time} {l r : LoginLimiter} → now ≤ t → SameAnswers now l r → SameAnswers t l r
later-SameAnswers le h = record {
  accounts = λ k s le'. h.accounts k s (omega arith);
  ips = λ k s le'. h.ips k s (omega arith);
  begins = λ k s le'. h.begins k s (omega arith);
}

pub sweep-IsValid :
    (threshold : ℕ) (l : LoginLimiter) (now : Time) → IsValid l → IsValid (sweep threshold l now)
unfolding sweep
sweep-IsValid threshold l now v =
    elim (Bool-cases (ltb (length l.accounts + length l.ips + length l.begins) threshold)) [
      | inl few ↦ rw few v
      | inr many ↦ rw many (record {
        accounts = retain-IsMap _ l.accounts v.accounts;
        ips = retain-IsMap _ l.ips v.ips;
        begins = retain-IsMap _ l.begins v.begins;
        levels = retain-Every _ _ l.accounts v.accounts v.levels;
        begun = retain-Every _ _ l.begins v.begins v.begun;
      })
    ]

pub sweep-SameAnswers :
    (threshold : ℕ) (l : LoginLimiter) (now : Time)
    → IsValid l
    → SameAnswers now (sweep threshold l now) l
unfolding sweep
sweep-SameAnswers threshold l now v =
    elim (Bool-cases (ltb (length l.accounts + length l.ips + length l.begins) threshold)) [
      | inl few ↦
          rw few
            (record { accounts = λ k t le. refl; ips = λ k t le. refl; begins = λ k t le. refl })
      | inr many ↦ rw many (record {
        accounts = λ k t. entry_for-retain k l.accounts now t v.accounts;
        ips = λ k t. entry_for-retain k l.ips now t v.ips;
        begins = λ k t. entry_for-retain k l.begins now t v.begins;
      })
    ]

abbrev Begun : LimitEntry → Type 0
Begun e = (e.lock_until ≡ 0) × (e.failures ≤ ip_max_begins)

count_begin-bound : (e : LimitEntry) (now : Time) → Begun e → Begun (count_begin e now).0
unfolding count_begin
count_begin-bound e now h = ground arith

count_account_failure-level :
    (e : LimitEntry) (now : Time) → e.level ≤ 10 → (count_account_failure e now).level ≤ 10
unfolding count_account_failure
count_account_failure-level e now h = ground arith

allow_begin-IsValid :
    (threshold : ℕ) (l : LoginLimiter) (ip : Text) (now : Time)
    → IsValid l
    → IsValid (allow_begin threshold l ip now).0
unfolding allow_begin
allow_begin-IsValid threshold l ip now v =
    let s = sweep-IsValid threshold l now v in
    record {
      accounts = s.accounts;
      ips = s.ips;
      begins = insert-IsMap ip _ _ s.begins;
      levels = s.levels;
      begun =
          insert-Every _ ip _ _
            (count_begin-bound _ now (entry_for-Every Begun _ ip now (omega arith) s.begun))
            s.begun;
    }

ip_wait-SameAnswers :
    (l r : LoginLimiter) (ip : Text) (now : Time)
    → SameAnswers now l r
    → ip_wait l ip now ≡ ip_wait r ip now
ip_wait-SameAnswers l r ip now h =
    rw (ip_wait-entry_for l ip now, ip_wait-entry_for r ip now, h.ips ip now (omega arith))

account_wait-SameAnswers :
    ⦃u : Unicode⦄ (l r : LoginLimiter) (username : Text) (now : Time)
    → SameAnswers now l r
    → account_wait l username now ≡ account_wait r username now
account_wait-SameAnswers l r username now h = rw (
  account_wait-entry_for l username now,
  account_wait-entry_for r username now,
  h.accounts (account_key username) now (omega arith),
)

count_ip_failure-Agrees :
    (ip : Text) (now : Time) (m n : Assoc LimitEntry)
    → Agrees now m n
    → Agrees now (count_ip_failure ip now m) (count_ip_failure ip now n)
count_ip_failure-Agrees ip now m n h = rw (h ip now (omega arith)) (insert-Agrees now ip _ m n h)

-- Two limiters with different thresholds.
module _ (threshold other : ℕ) where
  sweeps-SameAnswers :
      (l r : LoginLimiter) (now : Time)
      → IsValid l
      → IsValid r
      → SameAnswers now l r
      → SameAnswers now (sweep threshold l now) (sweep other r now)
  sweeps-SameAnswers l r now v w h =
      let a = sweep-SameAnswers threshold l now v in
      let b = sweep-SameAnswers other r now w in
      record {
        accounts = λ k t le. a.accounts k t le ∙ h.accounts k t le ∙ sym (b.accounts k t le);
        ips = λ k t le. a.ips k t le ∙ h.ips k t le ∙ sym (b.ips k t le);
        begins = λ k t le. a.begins k t le ∙ h.begins k t le ∙ sym (b.begins k t le);
      }

  allow_begin-SameAnswers :
      (l r : LoginLimiter) (ip : Text) (now : Time)
      → IsValid l
      → IsValid r
      → SameAnswers now l r
      → ((allow_begin threshold l ip now).1 ≡ (allow_begin other r ip now).1)
        × SameAnswers now (allow_begin threshold l ip now).0 (allow_begin other r ip now).0
  unfolding allow_begin
  allow_begin-SameAnswers l r ip now v w h =
      let s = sweeps-SameAnswers l r now v w h in
      rw (s.begins ip now (omega arith)) (
        refl,
        record { accounts = s.accounts; ips = s.ips; begins = insert-Agrees now ip _ _ _ s.begins },
      )

  failure-SameAnswers :
      ⦃u : Unicode⦄ (l r : LoginLimiter) (username ip : Text) (now : Time)
      → IsValid l
      → IsValid r
      → SameAnswers now l r
      → SameAnswers now (failure threshold l username ip now) (failure other r username ip now)
  unfolding failure
  failure-SameAnswers l r username ip now v w h =
      let s = sweeps-SameAnswers l r now v w h in
      record {
        accounts =
            rw (s.accounts (account_key username) now (omega arith))
              (insert-Agrees now (account_key username) _ _ _ s.accounts);
        ips = count_ip_failure-Agrees ip now _ _ s.ips;
        begins = s.begins;
      }

pub data Call : Type 0 where
  checks fails : Text → Text → Call
  ip_checks ip_fails begins : Text → Call
  succeeds : Text → Call

-- The times of the calls do not fall.
abbrev pub Chronological {ℓ} : {A : Type ℓ} → Time → List (Time × A) → Type 0
Chronological start [] = Unit {0}
Chronological start ((now, c) ∷ calls) = (start ≤ now) × Chronological now calls

module _ ⦃u : Unicode⦄ where
  -- A call at its time; `allowed` where the method returns nothing.
  unfoldable pub step : ℕ → LoginLimiter → Time → Call → LoginLimiter × Verdict
  step threshold l now (checks username ip) = (l, check l username ip now)
  step threshold l now (fails username ip) = (failure threshold l username ip now, allowed)
  step threshold l now (ip_checks ip) = (l, check_ip l ip now)
  step threshold l now (ip_fails ip) = (failure_ip threshold l ip now, allowed)
  step threshold l now (begins ip) = allow_begin threshold l ip now
  step threshold l now (succeeds username) = (success l username, allowed)

  -- The limiter after the calls, and their verdicts.
  unfoldable pub run : ℕ → LoginLimiter → List (Time × Call) → LoginLimiter × List Verdict
  run threshold l [] = (l, [])
  run threshold l ((now, c) ∷ calls) =
      let (l', v) = step threshold l now c in
      let (l'', vs) = run threshold l' calls in (l'', v ∷ vs)

  pub step-IsValid :
      (threshold : ℕ) (l : LoginLimiter) (now : Time) (c : Call)
      → IsValid l
      → IsValid (step threshold l now c).0
  unfolding step allow_begin failure failure_ip success
  step-IsValid threshold l now (checks username ip) v = v
  step-IsValid threshold l now (fails username ip) v =
      let s = sweep-IsValid threshold l now v in
      record {
        accounts = insert-IsMap _ _ _ s.accounts;
        ips = insert-IsMap ip _ _ s.ips;
        begins = s.begins;
        levels =
            insert-Every _ (account_key username) _ _
              (count_account_failure-level _ now
                (entry_for-Every (λ e. e.level ≤ 10) _ _ now (omega arith) s.levels))
              s.levels;
        begun = s.begun;
      }
  step-IsValid threshold l now (ip_checks ip) v = v
  step-IsValid threshold l now (ip_fails ip) v =
      let s = sweep-IsValid threshold l now v in
      record {
        accounts = s.accounts;
        ips = insert-IsMap ip _ _ s.ips;
        begins = s.begins;
        levels = s.levels;
        begun = s.begun;
      }
  step-IsValid threshold l now (begins ip) v = allow_begin-IsValid threshold l ip now v
  step-IsValid threshold l now (succeeds username) v = record {
    accounts = remove-IsMap _ _ v.accounts;
    ips = v.ips;
    begins = v.begins;
    levels = remove-Every _ (account_key username) l.accounts v.levels;
    begun = v.begun;
  }

  -- Whatever is called, in whatever order of times, the limiter stays valid.
  pub run-IsValid :
      (threshold : ℕ) (l : LoginLimiter) (calls : List (Time × Call))
      → IsValid l
      → IsValid (run threshold l calls).0
  unfolding run
  run-IsValid threshold l [] v = v
  run-IsValid threshold l ((now, c) ∷ calls) v =
      run-IsValid threshold (step threshold l now c).0 calls (step-IsValid threshold l now c v)

  module _ (threshold other : ℕ) where
    step-SameAnswers :
        (l r : LoginLimiter) (now : Time) (c : Call)
        → IsValid l
        → IsValid r
        → SameAnswers now l r
        → ((step threshold l now c).1 ≡ (step other r now c).1)
          × SameAnswers now (step threshold l now c).0 (step other r now c).0
    unfolding step check check_ip failure_ip success
    step-SameAnswers l r now (checks username ip) v w h =
        (rw (account_wait-SameAnswers l r username now h, ip_wait-SameAnswers l r ip now h), h)
    step-SameAnswers l r now (fails username ip) v w h =
        (refl, failure-SameAnswers threshold other l r username ip now v w h)
    step-SameAnswers l r now (ip_checks ip) v w h = (rw (ip_wait-SameAnswers l r ip now h), h)
    step-SameAnswers l r now (ip_fails ip) v w h =
        let s = sweeps-SameAnswers threshold other l r now v w h in
        (
          refl,
          record {
            accounts = s.accounts;
            ips = count_ip_failure-Agrees ip now _ _ s.ips;
            begins = s.begins;
          },
        )
    step-SameAnswers l r now (begins ip) v w h =
        allow_begin-SameAnswers threshold other l r ip now v w h
    step-SameAnswers l r now (succeeds username) v w h = (
      refl,
      record { accounts = remove-Agrees now _ _ _ h.accounts; ips = h.ips; begins = h.begins },
    )

    run-SameAnswers :
        (l r : LoginLimiter) (start : Time) (calls : List (Time × Call))
        → IsValid l
        → IsValid r
        → SameAnswers start l r
        → Chronological start calls
        → (run threshold l calls).1 ≡ (run other r calls).1
    unfolding run
    run-SameAnswers l r start [] v w h c = refl
    run-SameAnswers l r start ((now, call) ∷ calls) v w h c =
        let s = step-SameAnswers l r now call v w (later-SameAnswers c.0 h) in
        let rest =
          run-SameAnswers (step threshold l now call).0 (step other r now call).0 now calls
            (step-IsValid threshold l now call v) (step-IsValid other r now call w) s.1 c.1 in
        cc (s.0, rest)

    -- The sweep is invisible. From any valid state, for calls of all six methods in the order of
    -- their times, the verdicts are the same whatever the size at which the maps are swept: at
    -- `limiterSweepAt`, or never.
    pub run_any_threshold :
        (l : LoginLimiter) (start : Time) (calls : List (Time × Call))
        → IsValid l
        → Chronological start calls
        → (run threshold l calls).1 ≡ (run other l calls).1
    run_any_threshold l start calls v =
        run-SameAnswers l l start calls v v
          (record { accounts = λ k t le. refl; ips = λ k t le. refl; begins = λ k t le. refl })
