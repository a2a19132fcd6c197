-- ===== src/RateLimit/Calls.antt =====
-- What each method answers and leaves, in terms of what is available.
use my_tech_pulse.Base.{
  ℕ, ◌+◌, ◌-◌, ◌*◌, ◌≤◌, ◌<◌, ◌≡◌, sym, ap, ◌∙◌, ◌&&◌, Bool, true, false, Option, none, some, leb,
  if◌then◌else◌, Text, text_eq, lookup, length, Time, Duration, min, arith, lookup-insert,
  insert-IsMap, insert-Every, inl, inr, Option-cases,
}
use my_tech_pulse.RateLimit.{
  Bucket, Limiter, full, has_one, Floats, until_one, round_us, refill, sweep, touch, put, allow,
  wait, take_one, max_keys,
}
use my_tech_pulse.RateLimit.Available.{
  length-sweep-le, length-insert-le, available, IsValid, available-sweep, sweep-IsValid, SameRates,
  sweep-SameRates,
}
use my_tech_pulse.RateLimit.Touch.{
  length-insert_present, length-touch-le, refill-available, touch-available, touch-IsValid,
  touch-SameRates, available-touch, length-put-le,
}

full-SameRates : (r l : Limiter) → SameRates r l → full r ≡ full l
full-SameRates r l s = ap (λ x. x * r.every) s.0 ∙ ap (λ x. l.burst * x) s.1

available-put :
    (r l : Limiter) (key other : Text) (b : Bucket) (t : Time)
    → SameRates r l
    → available (put r key b) other t
      ≡ (if text_eq key other then min (full l) (b.charge + (t - b.last)) else available r other t)
unfolding available
available-put r l key other b t s = ground (
  arith,
  lookup-insert other key b r.buckets,
  ap (λ x. x * r.every) s.0,
  ap (λ x. l.burst * x) s.1,
)

pub put-IsValid :
    (l : Limiter) (key : Text) (b : Bucket) → b.charge ≤ full l → IsValid l → IsValid (put l key b)
put-IsValid l key b h v = record {
  burst = v.burst;
  every = v.every;
  keys = insert-IsMap key b l.buckets v.keys;
  charges = insert-Every _ key b l.buckets h v.charges;
}

pub available-le : (l : Limiter) (key : Text) (t : Time) → available l key t ≤ full l
unfolding available
available-le l key t = ground arith

-- The bucket of a key after an answer that left it the charge.
abbrev pub topped_up : Limiter → Duration → Time → Time → Duration
topped_up l charge now t = min (full l) (charge + (t - now))

-- The bucket of a key as a call finds it.
abbrev pub found : Limiter → Text → Time → Bucket
found l key now = record { charge = available l key now; last = now }

-- The charge that `Allow` leaves.
abbrev pub spend : Limiter → Duration → Duration
spend l charge = if has_one l charge then charge - l.every else charge

module _ ⦃f : Floats⦄ (l : Limiter) (key : Text) (now : Time) (pick : ℕ) (v : IsValid l) where
  -- `Allow` answers by what is available to the key: one call is free if a token is there, to within
  -- a billionth, and otherwise the answer is the rest of the token's time, to the microsecond.
  pub allow-answer : (allow l key now pick).1 ≡ (
      if has_one l (available l key now) then (true, 0) else (false, until_one l (found l key now)))
  unfolding allow
  allow-answer = ground (arith, touch-available l key now pick v)

  allow-put :
      (allow l key now pick).0
      ≡ put
          (touch l key now pick).0
          key
          (record { charge = spend l (available l key now); last = now })
  unfolding allow
  allow-put = ground (arith, touch-available l key now pick v)

  -- While there is room for keys, `Allow` takes one token from its own key, and no other key feels
  -- it, whichever entries it sweeps.
  pub available-allow :
      (other : Text) (t : Time)
      → length l.buckets < max_keys
      → now ≤ t
      → available (allow l key now pick).0 other t ≡ (
          if text_eq key other
          then topped_up l (spend l (available l key now)) now t
          else available l other t)
  available-allow other t room le = rw (
    allow-put,
    available-put (touch l key now pick).0 l key other
        (record { charge = spend l (available l key now); last = now }) t
        (touch-SameRates l key now pick v),
    available-touch l key now pick v other t room le,
  )

  take_one-put :
      take_one l key now pick
      ≡ put
          (touch l key now pick).0
          key
          (record { charge = available l key now - l.every; last = now })
  unfolding take_one
  take_one-put = ground (arith, touch-available l key now pick v)

  pub take_one-IsValid : IsValid (take_one l key now pick)
  take_one-IsValid = rw take_one-put (
      put-IsValid (touch l key now pick).0 key _
        (rw (full-SameRates (touch l key now pick).0 l (touch-SameRates l key now pick v))
          (omega (arith, available-le l key now)))
        (touch-IsValid l key now pick v))

  pub available-take_one :
      (other : Text) (t : Time)
      → length l.buckets < max_keys
      → now ≤ t
      → available (take_one l key now pick) other t ≡ (
          if text_eq key other
          then topped_up l (available l key now - l.every) now t
          else available l other t)
  available-take_one other t room le = rw (
    take_one-put,
    available-put (touch l key now pick).0 l key other
        (record { charge = available l key now - l.every; last = now }) t
        (touch-SameRates l key now pick v),
    available-touch l key now pick v other t room le,
  )

  pub allow-IsValid : IsValid (allow l key now pick).0
  allow-IsValid = rw allow-put (
      put-IsValid (touch l key now pick).0 key _
        (rw (full-SameRates (touch l key now pick).0 l (touch-SameRates l key now pick v))
          (ground (arith, available-le l key now)))
        (touch-IsValid l key now pick v))

abbrev pub is_known : Option Bucket → Bool
is_known none = false
is_known (some b) = true

available_absent :
    (l : Limiter) (key : Text) (t : Time) → lookup key l.buckets ≡ none → available l key t ≡ full l
unfolding available
available_absent l key t h = rw (h, available)

has_one-full : (l : Limiter) → 0 < l.burst → has_one l (full l) ≡ true
has_one-full l h = let more : l.every ≤ full l = grind arith in ground arith

pub has_one-SameRates : (r l : Limiter) (c : Duration) → SameRates r l → has_one r c ≡ has_one l c
has_one-SameRates r l c s = ap (λ e. leb (e * 999_999_999) (c * 1_000_000_000)) s.1

until_one-SameRates :
    ⦃f : Floats⦄ (r l : Limiter) (b : Bucket) → SameRates r l → until_one r b ≡ until_one l b
unfolding until_one
until_one-SameRates ⦃f⦄ r l b s = ap (λ e. round_us (e - b.charge + f.ceil_error e b)) s.1

module _ ⦃f : Floats⦄ (l : Limiter) (key : Text) (now : Time) (v : IsValid l) where
  -- `Wait` answers as `Allow` would, and takes nothing from any key.
  pub wait-answer :
      (wait l key now).1
      ≡ (if has_one l (available l key now) then 0 else until_one l (found l key now))
  unfolding wait
  wait-answer = elim (Option-cases (lookup key (sweep l now).buckets)) [
    | inl absent ↦
        let a : available l key now ≡ full l =
          sym (available-sweep l key now now v (omega arith))
          ∙ available_absent (sweep l now) key now absent
          ∙ full-SameRates (sweep l now) l (sweep-SameRates l now) in
        rw (absent, wait) (rw (a, has_one-full l v.burst))
    | inr (b, present) ↦
        rw (present, wait)
          (rw (
            refill-available l key now b v present,
            has_one-SameRates (sweep l now) l (available l key now) (sweep-SameRates l now),
            until_one-SameRates (sweep l now) l (found l key now) (sweep-SameRates l now),
          ))
  ]

  pub available-wait :
      (other : Text) (t : Time)
      → now ≤ t
      → available (wait l key now).0 other t ≡ (
          if is_known (lookup key (sweep l now).buckets) && text_eq key other
          then topped_up l (available l key now) now t
          else available l other t)
  unfolding wait
  available-wait other t le = elim (Option-cases (lookup key (sweep l now).buckets)) [
    | inl absent ↦ rw (absent, wait) (available-sweep l other now t v le)
    | inr (b, present) ↦
        rw (present, wait)
          (rw (
            refill-available l key now b v present,
            available-put (sweep l now) l key other
                (record { charge = available l key now; last = now }) t (sweep-SameRates l now),
            available-sweep l other now t v le,
          ))
  ]

  pub wait-IsValid : IsValid (wait l key now).0
  unfolding wait
  wait-IsValid = elim (Option-cases (lookup key (sweep l now).buckets)) [
    | inl absent ↦ rw (absent, wait) (sweep-IsValid l now v)
    | inr (b, present) ↦
        rw (present, wait)
          (rw (refill-available l key now b v present) (
            put-IsValid (sweep l now) key _
              (rw (full-SameRates (sweep l now) l (sweep-SameRates l now)) (available-le l key now))
              (sweep-IsValid l now v)))
  ]

  pub wait-SameRates : SameRates (wait l key now).0 l
  unfolding wait
  wait-SameRates = elim (Option-cases (lookup key (sweep l now).buckets)) [
    | inl absent ↦ rw (absent, wait) (sweep-SameRates l now)
    | inr (b, present) ↦ rw (present, wait) (sweep-SameRates l now)
  ]

  pub length-wait-le : length (wait l key now).0.buckets ≤ length l.buckets
  unfolding wait
  length-wait-le = elim (Option-cases (lookup key (sweep l now).buckets)) [
    | inl absent ↦ rw (absent, wait) (omega (arith, length-sweep-le l now))
    | inr (b, present) ↦
        rw (present, wait)
          (omega (
            arith,
            length-sweep-le l now,
            length-insert_present key (refill (sweep l now) b now) b (sweep l now).buckets present,
          ))
  ]

module _ ⦃f : Floats⦄ (l : Limiter) (key : Text) (now : Time) (pick : ℕ) (v : IsValid l) where
  pub allow-SameRates : SameRates (allow l key now pick).0 l
  allow-SameRates = rw (allow-put l key now pick v) (touch-SameRates l key now pick v)

  pub take_one-SameRates : SameRates (take_one l key now pick) l
  take_one-SameRates = rw (take_one-put l key now pick v) (touch-SameRates l key now pick v)

  pub length-allow-le : length (allow l key now pick).0.buckets ≤ length l.buckets + 1
  length-allow-le = rw (allow-put l key now pick v) (
      omega (
        arith,
        length-insert-le key (record { charge = spend l (available l key now); last = now })
            (touch l key now pick).0.buckets,
        length-touch-le l key now pick v,
      ))

  pub length-take_one-le : length (take_one l key now pick).buckets ≤ length l.buckets + 1
  length-take_one-le = rw (take_one-put l key now pick v) (
      omega (
        arith,
        length-insert-le key (record { charge = available l key now - l.every; last = now })
            (touch l key now pick).0.buckets,
        length-touch-le l key now pick v,
      ))

  -- No call makes the map larger than its limit.
  pub length-allow-max :
      length l.buckets ≤ max_keys
      → (length (allow l key now pick).0.buckets ≤ max_keys)
        × (length (take_one l key now pick).buckets ≤ max_keys)
        × (length (wait l key now).0.buckets ≤ max_keys)
  length-allow-max h = (
    rw (allow-put l key now pick v) (length-put-le l key now pick v _ h),
    rw (take_one-put l key now pick v) (length-put-le l key now pick v _ h),
    omega (arith, length-wait-le l key now v),
  )
