-- ===== src/RateLimit/Touch.antt =====
-- What `touch` hands its caller, and what it leaves of the other keys.
use my_tech_pulse.Base.{
  ℕ, ◌≤◌, ◌<◌, ◌≡◌, ◌∙◌, some, [], ◌∷◌, Text, Assoc, lookup, insert, length, Time, arith, ◌%◌, inl,
  inr, Option-cases,
}
use my_tech_pulse.RateLimit.{
  Bucket, Limiter, full, refill, sweep, sweep_full, evict, touch, put, max_keys,
}
use my_tech_pulse.RateLimit.Available.{
  available, IsValid, refill-min, available-sweep, sweep-IsValid, sweep_full-IsValid, evict-IsValid,
  SameRates, sweep-SameRates, touched-SameRates, length-insert-le, length-sweep-le, length-drop_at,
}

pub length-insert_present {ℓ} :
    {V : Type ℓ} (k : Text) (v w : V) (m : Assoc V)
    → lookup k m ≡ some w
    → length (insert k v m) ≡ length m
unfolding lookup insert
length-insert_present k v w [] h = cc
length-insert_present k v w ((j, x) ∷ m) h = ground (arith, length-insert_present k v w m)

length-evict-lt :
    (pick : ℕ) (l : Limiter)
    → length l.buckets ≤ max_keys
    → length (evict pick l).buckets < max_keys
unfolding evict
length-evict-lt pick l h = ground (arith, length-drop_at (pick % length l.buckets) l.buckets)

length-sweep_full-le :
    (l : Limiter) (now : Time) → length (sweep_full l now).buckets ≤ length l.buckets
unfolding sweep_full
length-sweep_full-le l now = ground (arith, length-sweep-le (record l { last_sweep = 0 }) now)

pub refill-available :
    (l : Limiter) (key : Text) (now : Time) (b : Bucket)
    → IsValid l
    → lookup key (sweep l now).buckets ≡ some b
    → refill (sweep l now) b now ≡ record { charge = available l key now; last = now }
unfolding available
refill-available l key now b v present = ground (
  arith,
  present,
  refill-min (sweep l now) b now ((sweep-IsValid l now v).charges key b present),
  available-sweep l key now now v (omega arith),
)

module _ (l : Limiter) (key : Text) (now : Time) (pick : ℕ) (v : IsValid l) where
  -- The caller gets a bucket that holds exactly what was available.
  pub touch-available :
      (touch l key now pick).1 ≡ record { charge = available l key now; last = now }
  unfolding touch available
  touch-available = elim (Option-cases (lookup key (sweep l now).buckets)) [
    | inl absent ↦
        rw (absent, touch)
          (ground (
            arith,
            absent,
            refill-min (sweep l now) (record { charge = full (sweep l now); last = now }) now
                (omega arith),
            available-sweep l key now now v (omega arith),
          ))
    | inr (b, present) ↦ rw (present, touch) (refill-available l key now b v present)
  ]

  pub touch-IsValid : IsValid (touch l key now pick).0
  unfolding touch
  touch-IsValid = elim (Option-cases (lookup key (sweep l now).buckets)) [
    | inl absent ↦
        rw (absent, touch)
          (evict-IsValid pick _ (sweep_full-IsValid (sweep l now) now (sweep-IsValid l now v)))
    | inr (b, present) ↦ rw (present, touch) (sweep-IsValid l now v)
  ]

  pub touch-SameRates : SameRates (touch l key now pick).0 l
  unfolding touch
  touch-SameRates = elim (Option-cases (lookup key (sweep l now).buckets)) [
    | inl absent ↦
        let s = sweep-SameRates l now in
        let t = touched-SameRates (sweep l now) now pick in
        rw (absent, touch) (t.0 ∙ s.0, t.1 ∙ s.1)
    | inr (b, present) ↦ rw (present, touch) (sweep-SameRates l now)
  ]

  -- While the map is not full nothing is lost of any key.
  pub available-touch :
      (other : Text) (t : Time)
      → length l.buckets < max_keys
      → now ≤ t
      → available (touch l key now pick).0 other t ≡ available l other t
  unfolding touch evict sweep_full
  available-touch other t room le = elim (Option-cases (lookup key (sweep l now).buckets)) [
    | inl absent ↦ rw (absent, touch) (few (omega (arith, length-sweep-le l now)))
    | inr (b, present) ↦ rw (present, touch) (available-sweep l other now t v le)
  ]
    where
      few :
          length (sweep l now).buckets < max_keys
          → available (evict pick (sweep_full (sweep l now) now)) other t ≡ available l other t
      few h = ground (arith, available-sweep l other now t v le)

  -- However full the map is, it never grows past its limit.
  pub length-put-le :
      (b : Bucket)
      → length l.buckets ≤ max_keys
      → length (put (touch l key now pick).0 key b).buckets ≤ max_keys
  unfolding touch
  length-put-le b h = elim (Option-cases (lookup key (sweep l now).buckets)) [
    | inl absent ↦
        rw (absent, touch)
          (omega (
            arith,
            length-insert-le key b (evict pick (sweep_full (sweep l now) now)).buckets,
            length-evict-lt pick (sweep_full (sweep l now) now),
            length-sweep_full-le (sweep l now) now,
            length-sweep-le l now,
          ))
    | inr (c, present) ↦
        rw (present, touch)
          (omega (
            arith,
            length-insert_present key b c (sweep l now).buckets present,
            length-sweep-le l now,
          ))
  ]

  pub length-touch-le : length (touch l key now pick).0.buckets ≤ length l.buckets
  unfolding touch evict
  length-touch-le = elim (Option-cases (lookup key (sweep l now).buckets)) [
    | inl absent ↦
        let s = sweep_full (sweep l now) now in
        rw (absent, touch)
          (ground (
            arith,
            length-drop_at (pick % length s.buckets) s.buckets,
            length-sweep_full-le (sweep l now) now,
            length-sweep-le l now,
          ))
    | inr (c, present) ↦ rw (present, touch) (length-sweep-le l now)
  ]
