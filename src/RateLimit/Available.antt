-- ===== src/RateLimit/Available.antt =====
-- What a key has left at a time, and that only the calls with that key change it.
use my_tech_pulse.Base.{
  ℕ, zero, suc, ◌+◌, ◌-◌, ◌≤◌, ◌<◌, ◌≡◌, Bool, true, false, not, none, some, [], ◌∷◌, List, ltb,
  leb, if◌then◌else◌, Text, text_eq_iff, Assoc, lookup, insert, retain, keep_if, length, Time,
  Duration, min, arith, IsMap, Every, lookup-retain, retain-IsMap, retain-Every, Bool-cases, inl,
  inr, Option-cases,
}
use my_tech_pulse.RateLimit.{
  Bucket, Limiter, full, refill, is_unused, sweep, sweep_full, evict, drop_at, max_keys,
}

-- The charge that a call at the time finds: a key with no bucket has a full one.
unfoldable pub available : Limiter → Text → Time → Duration
available l key t = elim (lookup key l.buckets) [
  | none ↦ full l
  | some b ↦ min (full l) (b.charge + (t - b.last))
]

pub record IsValid (l : Limiter) : Type 0 where
  pub burst : 0 < l.burst
  pub every : 0 < l.every
  pub keys : IsMap l.buckets
  pub charges : Every (λ b. b.charge ≤ full l) l.buckets

pub refill-min :
    (l : Limiter) (b : Bucket) (now : Time)
    → b.charge ≤ full l
    → refill l b now ≡ record { charge = min (full l) (b.charge + (now - b.last)); last = now }
unfolding refill
refill-min l b now h = ground arith

pub available-sweep :
    (l : Limiter) (key : Text) (now t : Time)
    → IsValid l
    → now ≤ t
    → available (sweep l now) key t ≡ available l key t
unfolding sweep available keep_if
available-sweep l key now t v le =
    ground (arith, lookup-retain key (λ b. not (is_unused l now b)) l.buckets v.keys)

pub sweep-IsValid : (l : Limiter) (now : Time) → IsValid l → IsValid (sweep l now)
unfolding sweep
sweep-IsValid l now v = elim (Bool-cases (ltb now (l.last_sweep + 60_000_000_000))) [
  | inl early ↦ rw early v
  | inr due ↦ rw due (record {
    burst = v.burst;
    every = v.every;
    keys = retain-IsMap _ l.buckets v.keys;
    charges = retain-Every _ _ l.buckets v.keys v.charges;
  })
]

pub length-retain-le {ℓ} :
    {V : Type ℓ} (keep : V → Bool) (m : Assoc V) → length (retain keep m) ≤ length m
unfolding retain
length-retain-le keep [] = omega arith
length-retain-le keep ((k, v) ∷ m) = ground (arith, length-retain-le keep m)

pub length-insert-le {ℓ} :
    {V : Type ℓ} (k : Text) (v : V) (m : Assoc V) → length (insert k v m) ≤ length m + 1
unfolding insert
length-insert-le k v [] = omega arith
length-insert-le k v ((j, w) ∷ m) = ground (arith, length-insert-le k v m)

pub length-sweep-le : (l : Limiter) (now : Time) → length (sweep l now).buckets ≤ length l.buckets
unfolding sweep
length-sweep-le l now = ground (arith, length-retain-le (λ b. not (is_unused l now b)) l.buckets)

lookup-drop_at :
    {V : Type 0} (i : ℕ) (k : Text) (m : Assoc V) (v : V)
    → IsMap m
    → lookup k (drop_at i m) ≡ some v
    → lookup k m ≡ some v
unfolding drop_at lookup
lookup-drop_at i k [] v h e = e
lookup-drop_at zero k ((j, w) ∷ m) v h e = ground (arith, text_eq_iff j k)
lookup-drop_at (suc i) k ((j, w) ∷ m) v h e = ground (arith, lookup-drop_at i k m v h.1)

drop_at-IsMap : {V : Type 0} (i : ℕ) (m : Assoc V) → IsMap m → IsMap (drop_at i m)
unfolding drop_at
drop_at-IsMap i [] h = tt
drop_at-IsMap zero ((j, w) ∷ m) h = h.1
drop_at-IsMap (suc i) ((j, w) ∷ m) h = (absent, drop_at-IsMap i m h.1)
  where
    absent : lookup j (drop_at i m) ≡ none
    absent = elim (Option-cases (lookup j (drop_at i m))) [
      | inl e ↦ e
      | inr (v, e) ↦ ground (arith, lookup-drop_at i j m v h.1 e, h.0)
    ]

pub length-drop_at {ℓ} :
    {A : Type ℓ} (i : ℕ) (xs : List A) → i < length xs → length (drop_at i xs) + 1 ≡ length xs
unfolding drop_at
length-drop_at i [] h = absurd (omega arith)
length-drop_at zero (x ∷ xs) h = omega arith
length-drop_at (suc i) (x ∷ xs) h = omega (arith, length-drop_at i xs (omega arith))

pub evict-IsValid : (pick : ℕ) (l : Limiter) → IsValid l → IsValid (evict pick l)
unfolding evict
evict-IsValid pick l v = elim (Bool-cases (leb max_keys (length l.buckets))) [
  | inl many ↦ rw many (record {
    burst = v.burst;
    every = v.every;
    keys = drop_at-IsMap _ l.buckets v.keys;
    charges = λ k b e. v.charges k b (lookup-drop_at _ k l.buckets b v.keys e);
  })
  | inr few ↦ rw few v
]

pub sweep_full-IsValid : (l : Limiter) (now : Time) → IsValid l → IsValid (sweep_full l now)
unfolding sweep_full
sweep_full-IsValid l now v = elim (Bool-cases (leb max_keys (length l.buckets))) [
  | inr few ↦ rw few v
  | inl many ↦ rw many (early (leb (l.last_sweep + 1_000_000_000) now))
]
  where
    early : (b : Bool) → IsValid (if b then sweep (record l { last_sweep = 0 }) now else l)
    early true =
        sweep-IsValid (record l { last_sweep = 0 }) now
          (record { burst = v.burst; every = v.every; keys = v.keys; charges = v.charges })
    early false = v

-- The rates of a limiter are those of another.
abbrev pub SameRates : Limiter → Limiter → Type 0
SameRates l r = (l.burst ≡ r.burst) × (l.every ≡ r.every)

pub sweep-SameRates : (l : Limiter) (now : Time) → SameRates (sweep l now) l
unfolding sweep
sweep-SameRates l now = (ground arith, ground arith)

pub touched-SameRates :
    (l : Limiter) (now : Time) (pick : ℕ) → SameRates (evict pick (sweep_full l now)) l
unfolding evict sweep_full sweep
touched-SameRates l now pick = (ground arith, ground arith)
