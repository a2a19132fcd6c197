-- ===== src/RateLimit/Waiting.antt =====
-- Whether the wait that a refused call is told is the right one.
use my_tech_pulse.Base.{
  ℕ, ◌+◌, ◌-◌, ◌*◌, ◌/◌, ◌≤◌, ◌<◌, ◌≡◌, ◌⊎◌, inl, inr, ◌∙◌, ap, refl, Bool, Bool-cases, true, false,
  [], ◌∷◌, List, Text, text_eq, text_eq_refl, length, Time, Duration, arith, min, ltb,
}
use my_tech_pulse.RateLimit.{Floats, Limiter, full, has_one, round_us, until_one, allow, max_keys}
use my_tech_pulse.RateLimit.Available.{available, IsValid, SameRates}
use my_tech_pulse.RateLimit.Calls.{
  found, has_one-SameRates, allow-answer, available-allow, available-take_one, available-wait,
  allow-IsValid, allow-SameRates, length-allow-le,
}
use my_tech_pulse.RateLimit.Rate.{
  Call, allows, takes, waits, key_of, step, Between, Between-le, step-IsValid, step-SameRates,
  length-step-le,
}

round_us-near : (d : Duration) → (d ≤ round_us d + 500) × (round_us d ≤ d + 500)
unfolding round_us
round_us-near d = (ground arith, ground arith)

-- None of the calls is with the key.
abbrev pub AreOthers : Text → List (Time × Call) → Type 0
AreOthers key [] = Unit {0}
AreOthers key ((now, c) ∷ calls) = (text_eq (key_of c) key ≡ false) × AreOthers key calls

-- How far off the wait may be: half a microsecond and two nanoseconds, and a billionth of a token.
abbrev pub tolerance : Limiter → Duration
tolerance l = 502 + l.every / 1_000_000_000

abbrev has_one_by : Limiter → Duration → Bool
has_one_by l c = has_one l c

module _ ⦃f : Floats⦄ where
  unfoldable pub run : Limiter → List (Time × Call) → Limiter
  run l [] = l
  run l ((now, c) ∷ calls) = run (step l now c).0 calls

  available-step :
      (l : Limiter) (key : Text) (now t : Time) (c : Call)
      → IsValid l
      → length l.buckets < max_keys
      → now ≤ t
      → text_eq (key_of c) key ≡ false
      → available (step l now c).0 key t ≡ available l key t
  unfolding step
  available-step l key now t (allows k pick) v room le other =
      ground (arith, available-allow l k now pick v key t room le)
  available-step l key now t (takes k pick) v room le other =
      ground (arith, available-take_one l k now pick v key t room le)
  available-step l key now t (waits k) v room le other =
      ground (arith, available-wait l k now v key t le)

  run-IsValid : (l : Limiter) (calls : List (Time × Call)) → IsValid l → IsValid (run l calls)
  unfolding run
  run-IsValid l [] v = v
  run-IsValid l ((now, c) ∷ calls) v = run-IsValid (step l now c).0 calls (step-IsValid l now c v)

  run-SameRates : (l : Limiter) (calls : List (Time × Call)) → IsValid l → SameRates (run l calls) l
  unfolding run
  run-SameRates l [] v = (refl, refl)
  run-SameRates l ((now, c) ∷ calls) v =
      let rest = run-SameRates (step l now c).0 calls (step-IsValid l now c v) in
      let same = step-SameRates l now c v in (rest.0 ∙ same.0, rest.1 ∙ same.1)

  available-run :
      (l : Limiter) (key : Text) (start t : Time) (calls : List (Time × Call))
      → IsValid l
      → length l.buckets + length calls ≤ max_keys
      → Between start t calls
      → AreOthers key calls
      → available (run l calls) key t ≡ available l key t
  unfolding run
  available-run l key start t [] v room b o = refl
  available-run l key start t ((now, c) ∷ calls) v room b o =
      available-run (step l now c).0 key now t calls (step-IsValid l now c v)
        (omega (arith, length-step-le l now c v)) b.1 o.1
      ∙ available-step l key now t c v (omega arith) (Between-le now t calls b.1) o.0

  refused_by :
      (l : Limiter) (key : Text) (now : Time) (pick : ℕ) (w : Duration)
      → IsValid l
      → (allow l key now pick).1 ≡ (false, w)
      → (has_one l (available l key now) ≡ false) × (w ≡ until_one l (found l key now))
  refused_by l key now pick w v h =
      let a = allow-answer l key now pick v in (ground (arith, a), ground (arith, a))

  -- The wait is that of the missing part of the token.
  until_one-near :
      (l : Limiter) (key : Text) (now : Time)
      → has_one l (available l key now) ≡ false
      → (l.every ≤ available l key now + until_one l (found l key now) + 500)
        × (available l key now + until_one l (found l key now) ≤ l.every + 501)
  unfolding until_one
  until_one-near l key now none_left =
      let missing = l.every - available l key now in
      let error = f.ceil_error l.every (found l key now) in
      let near = round_us-near (missing + error) in
      let small = f.ceil_error-le l.every (found l key now) in
      let less : available l key now < l.every = ground (arith, none_left) in
      (omega (arith, near.0, near.1, small, less), omega (arith, near.0, near.1, small, less))

  every-le-full : (l : Limiter) → 0 < l.burst → l.every ≤ full l
  every-le-full l h = grind arith

  told_late :
      (every full a w now t : Duration)
      → every ≤ full
      → every ≤ a + w + 500
      → (t < now + w + 500) ⊎ (every ≤ min full (a + (t - now)))
  told_late every full a w now t h near = ground arith

  told_early :
      (every full a w now t : Duration)
      → a + w ≤ every + 501
      → now ≤ t
      → (now + w < t + (502 + every / 1_000_000_000))
        ⊎ (min full (a + (t - now)) * 1_000_000_000 < every * 999_999_999)
  told_early every full a w now t near le =
      let q = every / 1_000_000_000 in
      let quotient : every < (q + 1) * 1_000_000_000 = omega arith in
      elim (Bool-cases (ltb (now + w) (t + (502 + q)))) [
        | inl soon ↦ inl (ground (arith, soon))
        | inr early ↦
            let far : t + (502 + q) ≤ now + w = ground (arith, early) in
            let small : min full (a + (t - now)) + (q + 1) ≤ every = omega (arith, far, le, near) in
            inr (omega (arith, quotient, small))
      ]

  -- Over what is available at t after the refusal, the comparison answers by the time that was told.
  has_one-told :
      (l : Limiter) (now t : Time) (w a : Duration)
      → IsValid l
      → now ≤ t
      → (l.every ≤ a + w + 500) × (a + w ≤ l.every + 501)
      → ((t < now + w + 500) ⊎ (has_one l (min (full l) (a + (t - now))) ≡ true))
        × ((now + w < t + tolerance l) ⊎ (has_one l (min (full l) (a + (t - now))) ≡ false))
  has_one-told l now t w a v le near = (
    ground (arith, told_late l.every (full l) a w now t (every-le-full l v.burst) near.0),
    ground (arith, told_early l.every (full l) a w now t near.1 le),
  )

  -- A refused call is told the right time, whatever calls with other keys come in between, as long as the map
  -- has room for all keys: half a microsecond after that time a call with its key gets through, and more than
  -- half a microsecond, 2 ns and a billionth of a token before it a call with its key is refused.
  pub allow_after_wait :
      (l : Limiter) (key : Text) (now t : Time) (pick pick' : ℕ) (w : Duration)
      (calls : List (Time × Call))
      → IsValid l
      → length l.buckets + 1 + length calls ≤ max_keys
      → (allow l key now pick).1 ≡ (false, w)
      → Between now t calls
      → AreOthers key calls
      → ((t < now + w + 500)
          ⊎ ((allow (run (allow l key now pick).0 calls) key t pick').1 ≡ (true, 0)))
        × ((now + w < t + tolerance l)
            ⊎ ((allow (run (allow l key now pick).0 calls) key t pick').1.0 ≡ false))
  allow_after_wait l key now t pick pick' w calls v room refused between others =
      let l1 = (allow l key now pick).0 in
      let v1 = allow-IsValid l key now pick v in
      let l2 = run l1 calls in
      let a = refused_by l key now pick w v refused in
      let same = run-SameRates l1 calls v1 in
      let rates : SameRates l2 l = (
        same.0 ∙ (allow-SameRates l key now pick v).0,
        same.1 ∙ (allow-SameRates l key now pick v).1,
      ) in
      let there : available l2 key t ≡ min (full l) (available l key now + (t - now)) =
        available-run l1 key now t calls v1 (omega (arith, room, length-allow-le l key now pick v))
          between others
        ∙ ground (
          arith,
          available-allow l key now pick v key t (omega (arith, room))
              (Between-le now t calls between),
          text_eq_refl key,
          a.0,
        ) in
      let told =
        has_one-told l now t w (available l key now) v (Between-le now t calls between)
          (rw a.1 (until_one-near l key now a.0)) in
      let answer = allow-answer l2 key t pick' (run-IsValid l1 calls v1) in
      let judged : has_one l2 (available l2 key t)
          ≡ has_one l (min (full l) (available l key now + (t - now))) =
        has_one-SameRates l2 l (available l2 key t) rates ∙ ap (has_one_by l) there in
      (ground (arith, told.0, answer, judged), ground (arith, told.1, answer, judged))
