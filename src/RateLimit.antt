-- ===== src/RateLimit.antt =====
-- server/internal/platform/ratelimit/ratelimit.go: a token bucket for each key. A bucket's `tokens`,
-- a float64, is kept as the exact number `charge` of nanoseconds of recovery, tokens * every, with the
-- margin `epsilon` of the comparison. Where the float64 shows in an answer, at the `math.Ceil` of `untilOne`,
-- its error is a parameter, `Floats`. Each method takes the time of its
-- one `Clock.Now`, and is one step under the mutex. `pick` says which entry the `range` loop of
-- `touch` visits first when the map is full.
pub mod Available
pub mod Touch
pub mod Calls
pub mod Rate
pub mod Waiting
mod Tests
use my_tech_pulse.Base.{
  ℕ, zero, suc, ◌+◌, ◌-◌, ◌*◌, ◌/◌, ◌%◌, ◌≤◌, Bool, true, false, not, none, some, [], ◌∷◌, List,
  ltb, leb, ◌==◌, if◌then◌else◌, Text, Assoc, lookup, insert, retain, length, Time, Duration,
  second, minute, min, max,
}

abbrev pub max_keys : ℕ
max_keys = 100_000

abbrev pub sweep_every : Duration
sweep_every = minute

pub record Bucket : Type 0 where
  pub charge : Duration
  pub last : Time

pub record Limiter : Type 0 where
  pub burst : ℕ
  pub every : Duration
  pub buckets : Assoc Bucket
  pub last_sweep : Time

-- `New`, without the choice of a clock.
unfoldable pub new : ℕ → Duration → Limiter
new burst every = record {
  burst = if ltb burst 1 then 1 else burst;
  every = if leb every 0 then second else every;
  buckets = [];
  last_sweep = 0;
}

unfoldable pub per_window : ℕ → Duration → Limiter
unfolding new
per_window n window = new n (window / max n 1)

-- The charge of a bucket with `burst` tokens.
abbrev pub full : Limiter → Duration
full l = l.burst * l.every

-- `tokens >= 1-epsilon`.
abbrev pub has_one : Limiter → Duration → Bool
has_one l charge = leb (l.every * 999_999_999) (charge * 1_000_000_000)

-- `Duration.Round(time.Microsecond)`.
unfoldable pub round_us : Duration → Duration
round_us d = let r = d % 1000 in if ltb (r + r) 1000 then d - r else d + 1000 - r

-- What the float64 adds to the exact nanoseconds that a bucket lacks for one token, where `math.Ceil` rounds
-- them up: nothing, or one.
pub record Floats : Type 0 where
  pub ceil_error : Duration → Bucket → Duration
  pub ceil_error-le : (every : Duration) (b : Bucket) → ceil_error every b ≤ 1

module _ ⦃f : Floats⦄ where
  -- `untilOne`, called below one token.
  unfoldable pub until_one : Limiter → Bucket → Duration
  unfolding round_us
  until_one l b = round_us (l.every - b.charge + f.ceil_error l.every b)

unfoldable pub refill : Limiter → Bucket → Time → Bucket
refill l b now =
    if ltb b.last now
    then record { charge = min (full l) (b.charge + (now - b.last)); last = now }
    else record b { last = now }

-- The bucket is full again by `now`.
abbrev pub is_unused : Limiter → Time → Bucket → Bool
is_unused l now b = leb (full l + b.last) (b.charge + now)

unfoldable pub sweep : Limiter → Time → Limiter
sweep l now =
    if ltb now (l.last_sweep + sweep_every)
    then l
    else record l { last_sweep = now; buckets = retain (λ b. not (is_unused l now b)) l.buckets }

unfoldable pub drop_at {ℓ} : {A : Type ℓ} → ℕ → List A → List A
drop_at i [] = []
drop_at zero (x ∷ xs) = xs
drop_at (suc i) (x ∷ xs) = x ∷ drop_at i xs

-- The first `if` of `touch` for a new key: an early sweep, at most once a second.
unfoldable pub sweep_full : Limiter → Time → Limiter
sweep_full l now =
    if leb max_keys (length l.buckets)
    then if leb (l.last_sweep + second) now then sweep (record l { last_sweep = 0 }) now else l
    else l

-- The second: one entry is deleted.
unfoldable pub evict : ℕ → Limiter → Limiter
unfolding drop_at
evict pick l =
    if leb max_keys (length l.buckets)
    then record l { buckets = drop_at (pick % length l.buckets) l.buckets }
    else l

-- `touch` returns a pointer into the map; its callers change the bucket, so here it is returned
-- beside the limiter without it, and they put it back.
unfoldable pub touch : Limiter → Text → Time → ℕ → Limiter × Bucket
touch l key now pick =
    let s = sweep l now in
    elim (lookup key s.buckets) [
      | none ↦
          (evict pick (sweep_full s now), refill s (record { charge = full s; last = now }) now)
      | some b ↦ (s, refill s b now)
    ]

abbrev pub put : Limiter → Text → Bucket → Limiter
put l key b = record l { buckets = insert key b l.buckets }

module _ ⦃f : Floats⦄ where
  unfoldable pub allow : Limiter → Text → Time → ℕ → Limiter × (Bool × Duration)
  allow l key now pick =
      let t = touch l key now pick in
      if has_one l t.1.charge
      then (put t.0 key (record t.1 { charge = t.1.charge - l.every }), (true, 0))
      else (put t.0 key t.1, (false, until_one l t.1))

  -- `Wait` sweeps, and refills the bucket in place.
  unfoldable pub wait : Limiter → Text → Time → Limiter × Duration
  wait l key now =
      let s = sweep l now in
      elim (lookup key s.buckets) [
        | none ↦ (s, 0)
        | some b ↦
            let c = refill s b now in (put s key c, if has_one s c.charge then 0 else until_one s c)
      ]

unfoldable pub take_one : Limiter → Text → Time → ℕ → Limiter
take_one l key now pick =
    let t = touch l key now pick in put t.0 key (record t.1 { charge = t.1.charge - l.every })

-- `int(math.Ceil(wait.Seconds()))`, at least 1.
unfoldable pub retry_after_seconds : Duration → ℕ
retry_after_seconds wait = max ((wait + (second - 1)) / second) 1
