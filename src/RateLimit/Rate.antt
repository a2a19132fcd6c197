-- ===== src/RateLimit/Rate.antt =====
-- How many calls of a key get through, over any interleaving of the three methods.
use my_tech_pulse.Base.{
  second, ℕ, ◌+◌, ◌-◌, ◌*◌, ◌≤◌, ◌<◌, ◌≡◌, ◌⊎◌, subst, ◌&&◌, Bool, false, [], ◌∷◌, List,
  if◌then◌else◌, Text, text_eq, text_eq_iff, lookup, length, Time, Duration, arith,
}
use my_tech_pulse.RateLimit.{
  new, retry_after_seconds, Floats, Limiter, allow, wait, take_one, max_keys,
}
use my_tech_pulse.RateLimit.Available.{available, IsValid, SameRates}
use my_tech_pulse.RateLimit.Calls.{
  allow-answer, available-allow, available-take_one, available-wait, available-le, allow-IsValid,
  take_one-IsValid, wait-IsValid, allow-SameRates, take_one-SameRates, wait-SameRates,
  length-allow-le, length-take_one-le, length-wait-le,
}

pub data Call : Type 0 where
  allows takes : Text → ℕ → Call
  waits : Text → Call

abbrev pub key_of : Call → Text
key_of (allows key pick) = key
key_of (takes key pick) = key
key_of (waits key) = key

-- The calls come in the order of their times, from the one time to the other.
abbrev pub Between : Time → Time → List (Time × Call) → Type 0
Between start end [] = start ≤ end
Between start end ((now, c) ∷ calls) = (start ≤ now) × Between now end calls

available-grows :
    (l : Limiter) (key : Text) (start now : Time)
    → start ≤ now
    → available l key now ≤ available l key start + (now - start)
unfolding available
available-grows l key start now h = ground arith

pub Between-le :
    (start end : Time) (calls : List (Time × Call)) → Between start end calls → start ≤ end
Between-le start end [] b = b
Between-le start end ((now, c) ∷ calls) b = omega (arith, b.0, Between-le now end calls b.1)

module _ ⦃f : Floats⦄ where
  -- The limiter after the call, and whether it is an `Allow` that got through.
  unfoldable pub step : Limiter → Time → Call → Limiter × Bool
  step l now (allows key pick) = ((allow l key now pick).0, (allow l key now pick).1.0)
  step l now (takes key pick) = (take_one l key now pick, false)
  step l now (waits key) = ((wait l key now).0, false)

  -- How many calls of `Allow` with the key get through.
  unfoldable pub granted : Text → Limiter → List (Time × Call) → ℕ
  granted key l [] = 0
  granted key l ((now, c) ∷ calls) =
      (if text_eq (key_of c) key && (step l now c).1 then 1 else 0)
      + granted key (step l now c).0 calls

  pub step-IsValid : (l : Limiter) (now : Time) (c : Call) → IsValid l → IsValid (step l now c).0
  unfolding step
  step-IsValid l now (allows key pick) v = allow-IsValid l key now pick v
  step-IsValid l now (takes key pick) v = take_one-IsValid l key now pick v
  step-IsValid l now (waits key) v = wait-IsValid l key now v

  pub step-SameRates :
      (l : Limiter) (now : Time) (c : Call) → IsValid l → SameRates (step l now c).0 l
  unfolding step
  step-SameRates l now (allows key pick) v = allow-SameRates l key now pick v
  step-SameRates l now (takes key pick) v = take_one-SameRates l key now pick v
  step-SameRates l now (waits key) v = wait-SameRates l key now v

  pub length-step-le :
      (l : Limiter) (now : Time) (c : Call)
      → IsValid l
      → length (step l now c).0.buckets ≤ length l.buckets + 1
  unfolding step
  length-step-le l now (allows key pick) v = length-allow-le l key now pick v
  length-step-le l now (takes key pick) v = length-take_one-le l key now pick v
  length-step-le l now (waits key) v = omega (arith, length-wait-le l key now v)

  -- A call that gets through uses up what stands for all but a billionth of a token, and no call
  -- gives its key, or another, more than it had.
  paid :
      (l : Limiter) (key : Text) (now : Time) (c : Call)
      → IsValid l
      → length l.buckets < max_keys
      → (if text_eq (key_of c) key && (step l now c).1 then 1 else 0) * (l.every * 999_999_999)
          + available (step l now c).0 key now * 1_000_000_000
        ≤ available l key now * 1_000_000_000
  unfolding step
  paid l key now (allows k pick) v room = ground (
    arith,
    text_eq_iff k key,
    allow-answer l k now pick v,
    available-allow l k now pick v key now room (omega arith),
  )
  paid l key now (takes k pick) v room =
      ground
        (arith, text_eq_iff k key, available-take_one l k now pick v key now room (omega arith))
  paid l key now (waits k) v room =
      ground (arith, text_eq_iff k key, available-wait l k now v key now (omega arith))

  granted-available :
      (key : Text) (calls : List (Time × Call)) (l : Limiter) (start end : Time)
      → IsValid l
      → length l.buckets + length calls ≤ max_keys
      → Between start end calls
      → granted key l calls * (l.every * 999_999_999)
        ≤ (available l key start + (end - start)) * 1_000_000_000
  unfolding granted
  granted-available key [] l start end v room b = omega arith
  granted-available key ((now, c) ∷ calls) l start end v room b =
      let p = paid l key now c v (omega arith) in
      let ih =
        granted-available key calls (step l now c).0 now end (step-IsValid l now c v)
          (omega (arith, length-step-le l now c v)) b.1 in
      let later : now ≤ end = Between-le now end calls b.1 in
      omega (
        arith,
        p,
        subst
            (λ e.
              granted key (step l now c).0 calls * (e * 999_999_999)
              ≤ (available (step l now c).0 key now + (end - now)) * 1_000_000_000)
            (step-SameRates l now c v).1 ih,
        available-grows l key start now b.0,
      )

  -- The rate is kept. Between any two times the calls of `Allow` with one key that get through stand
  -- for at most a burst and what recovers in that time, over any interleaving with the other methods
  -- and with other keys, as long as the map has room for all of them; a billionth of each token is the
  -- tolerance of `epsilon`.
  pub granted-le :
      (key : Text) (calls : List (Time × Call)) (l : Limiter) (start end : Time)
      → IsValid l
      → length l.buckets + length calls ≤ max_keys
      → Between start end calls
      → granted key l calls * (l.every * 999_999_999)
        ≤ (l.burst * l.every + (end - start)) * 1_000_000_000
  granted-le key calls l start end v room b =
      omega (arith, granted-available key calls l start end v room b, available-le l key start)

-- `New` and `PerWindow` make valid limiters, whatever they are given.
pub new-IsValid : (burst : ℕ) (every : Duration) → IsValid (new burst every)
unfolding new lookup
new-IsValid burst every = record {
  burst = ground arith;
  every = ground arith;
  keys = tt;
  charges = λ k b e. cc;
}

-- The seconds of `Retry-After` are the fewest that cover the wait, and at least one.
pub retry_after_seconds_lem :
    (w : Duration)
    → (w ≤ retry_after_seconds w * second)
      × (1 ≤ retry_after_seconds w)
      × ((retry_after_seconds w ≡ 1) ⊎ ((retry_after_seconds w - 1) * second < w))
unfolding retry_after_seconds
retry_after_seconds_lem w = (ground arith, ground arith, ground arith)
