-- ===== src/LoginLimiter/Begins.antt =====
-- The quota of passkey begins, and the failures of an address, over any interleaving of calls.
use my_tech_pulse.Base.{
  some, lookup, ℕ, ◌+◌, ◌-◌, ◌≤◌, ◌<◌, ◌≡◌, refl, ap, ◌∙◌, ◌&&◌, arith, if◌then◌else◌, min, true,
  false, Bool, List, [], ◌∷◌, Text, text_eq, text_eq_iff, Time,
}
use my_tech_pulse.Unicode.{Unicode}
use my_tech_pulse.LoginLimiter.{
  LimitEntry, LoginLimiter, Verdict, allowed, too_many, is_over, entry_for, sweep, allow_begin,
  count_begin, failure, failure_ip, success, limiter_window, ip_max_begins,
}
use my_tech_pulse.LoginLimiter.Current.{entry_for_live, entry_for-insert, IsValid, refresh}
use my_tech_pulse.LoginLimiter.Sweeping.{
  sweep-SameAnswers, Call, checks, fails, ip_checks, ip_fails, begins, succeeds, step, run,
  step-IsValid, Chronological,
}

-- The calls that begin a passkey login from the address, and those that were let through.
abbrev pub is_begin : Text → Call → Bool
is_begin ip (begins from) = text_eq from ip
is_begin ip (checks username from) = false
is_begin ip (fails username from) = false
is_begin ip (ip_checks from) = false
is_begin ip (ip_fails from) = false
is_begin ip (succeeds username) = false

abbrev pub is_allowed : Verdict → Bool
is_allowed allowed = true
is_allowed (too_many wait) = false

unfoldable pub count_begins : Text → List (Time × Call) → ℕ
count_begins ip [] = 0
count_begins ip ((now, c) ∷ calls) = (if is_begin ip c then 1 else 0) + count_begins ip calls

unfoldable pub count_allowed : Text → List (Time × Call) → List Verdict → ℕ
count_allowed ip [] vs = 0
count_allowed ip ((now, c) ∷ calls) [] = 0
count_allowed ip ((now, c) ∷ calls) (v ∷ vs) =
    (if is_begin ip c && is_allowed v then 1 else 0) + count_allowed ip calls vs

-- Every call comes before the time.
abbrev pub AllBefore : Time → List (Time × Call) → Type 0
AllBefore end [] = Unit {0}
AllBefore end ((now, c) ∷ calls) = (now < end) × AllBefore end calls

-- The map has the entry as the current one of the address, from `now` to the end of its window.
abbrev Holds : LoginLimiter → Text → Time → LimitEntry → Type 0
Holds l ip now e =
    (t : Time) → now ≤ t → t < e.window_start + limiter_window → entry_for l.begins ip t ≡ e

module _ ⦃u : Unicode⦄ (threshold : ℕ) (ip : Text) where
  -- Only a begin of the address itself changes its entry.
  begins-step :
      (l : LoginLimiter) (now t : Time) (c : Call)
      → IsValid l
      → now ≤ t
      → entry_for (step threshold l now c).0.begins ip t ≡ (
          if is_begin ip c
          then refresh t (count_begin (entry_for l.begins ip now) now).0
          else entry_for l.begins ip t)
  unfolding step allow_begin failure failure_ip success
  begins-step l now t (begins from) v le =
      let s = (sweep-SameAnswers threshold l now v).begins in
      rw
        (
          entry_for-insert ip from
              (count_begin (entry_for (sweep threshold l now).begins from now) now).0
              (sweep threshold l now).begins t,
          s from now (omega arith),
          s ip t le,
        )
        (ground (arith, text_eq_iff from ip))
  begins-step l now t (checks username from) v le = refl
  begins-step l now t (fails username from) v le =
      (sweep-SameAnswers threshold l now v).begins ip t le
  begins-step l now t (ip_checks from) v le = refl
  begins-step l now t (ip_fails from) v le = (sweep-SameAnswers threshold l now v).begins ip t le
  begins-step l now t (succeeds username) v le = refl

  begin_verdict :
      (l : LoginLimiter) (now : Time) (c : Call)
      → IsValid l
      → is_begin ip c ≡ true
      → (step threshold l now c).1 ≡ (count_begin (entry_for l.begins ip now) now).1
  unfolding step allow_begin
  begin_verdict l now (begins from) v hit =
      let s = (sweep-SameAnswers threshold l now v).begins in
      let same : from ≡ ip = (text_eq_iff from ip).0 hit in rw (s from now (omega arith), same)
  begin_verdict l now (checks username from) v hit = cc
  begin_verdict l now (fails username from) v hit = cc
  begin_verdict l now (ip_checks from) v hit = cc
  begin_verdict l now (ip_fails from) v hit = cc
  begin_verdict l now (succeeds username) v hit = cc

  -- The entry after a call.
  abbrev begun : LimitEntry → Time → Call → LimitEntry
  begun e now c = if is_begin ip c then (count_begin e now).0 else e

  begun-Holds :
      (l : LoginLimiter) (e : LimitEntry) (now : Time) (c : Call)
      → IsValid l
      → now < e.window_start + limiter_window
      → Holds l ip now e
      → Holds (step threshold l now c).0 ip now (begun e now c)
  unfolding count_begin is_over
  begun-Holds l e now c v inside h t le before =
      ground (arith, begins-step l now t c v le, h now (omega arith) inside, h t le)

  begun-window_start :
      (e : LimitEntry) (now : Time) (c : Call) → (begun e now c).window_start ≡ e.window_start
  unfolding count_begin
  begun-window_start e now c = ground arith

  counted_begin :
      (e : LimitEntry) (now : Time) (c : Call) (v : Verdict) (n later : ℕ)
      → (is_begin ip c ≡ true → v ≡ (count_begin e now).1)
      → later ≡ min (ip_max_begins - (begun e now c).failures) n
      → (if is_begin ip c && is_allowed v then 1 else 0) + later
        ≡ min (ip_max_begins - e.failures) ((if is_begin ip c then 1 else 0) + n)
  unfolding count_begin
  counted_begin e now c v n later seen ih = ground arith

  counted :
      (calls : List (Time × Call)) (l : LoginLimiter) (e : LimitEntry) (now : Time)
      → IsValid l
      → Holds l ip now e
      → Chronological now calls
      → AllBefore (e.window_start + limiter_window) calls
      → count_allowed ip calls (run threshold l calls).1
        ≡ min (ip_max_begins - e.failures) (count_begins ip calls)
  unfolding run count_allowed count_begins
  counted [] l e now v h c b = omega arith
  counted ((t, call) ∷ calls) l e now v h c b =
      let inside : t < e.window_start + limiter_window = b.0 in
      let held : Holds l ip t e = λ s le. h s (omega arith) in
      counted_begin e t call (step threshold l t call).1 (count_begins ip calls) _
        (λ hit.
          begin_verdict l t call v hit
          ∙ ap (λ x. (count_begin x t).1) (held t (omega arith) inside))
        (counted calls (step threshold l t call).0 (begun e t call) t
          (step-IsValid threshold l t call v) (begun-Holds l e t call v inside held) c.1
          (rw (begun-window_start e t call) b.1))

  -- As long as the window of the address lasts, exactly the begins that are left of its sixty are
  -- let through, whatever else is called in between, and by whomever.
  pub count_allowed-min :
      (l : LoginLimiter) (e : LimitEntry) (now : Time) (calls : List (Time × Call))
      → IsValid l
      → lookup ip l.begins ≡ some e
      → Chronological now calls
      → AllBefore (e.window_start + limiter_window) calls
      → count_allowed ip calls (run threshold l calls).1
        ≡ min (ip_max_begins - e.failures) (count_begins ip calls)
  count_allowed-min l e now calls v found c b =
      counted calls l e now v (λ t le before. entry_for_live ip l.begins e t found before) c b
