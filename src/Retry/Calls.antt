-- ===== src/Retry/Calls.antt =====
-- How often `do` calls, and what its answer says.
use my_tech_pulse.Base.{
  ℕ, zero, suc, ◌+◌, ◌≤◌, ◌<◌, ◌≡◌, ◌≢◌, ◌⊎◌, none, some, [], ◌∷◌, List, length, arith,
  Option-cases,
}
use my_tech_pulse.Retry.{
  Counter, take_call, others_take, Try, call_limit, after_take, do_from, do_call, max_retries,
}

-- The calls of `take` by others in all turns.
unfoldable pub all_others : List Try → ℕ
all_others [] = 0
all_others (t ∷ rest) = t.taken_by_others + all_others rest

-- The others raise the counter by their calls at most, and keep its limit.
others_take-le :
    (k : ℕ) (c : Counter)
    → ((others_take k c).max ≡ c.max)
      × (c.n ≤ (others_take k c).n)
      × ((others_take k c).n ≤ c.n + k)
unfolding others_take take_call
others_take-le zero c = ground arith
others_take-le (suc k) c = ground (arith, others_take-le k (take_call c).0)

others_take-limit : (k : ℕ) (c : Counter) → 0 < c.max → c.n ≤ c.max → (others_take k c).n ≤ c.max
unfolding others_take take_call
others_take-limit zero c p h = h
others_take-limit (suc k) c p h = ground (arith, others_take-limit k (take_call c).0)

-- The counter of the next turn.
abbrev next : Try → Counter → Counter
next t c = let d = others_take t.taken_by_others c in record d { n = d.n + 1 }

-- Each call is counted once.
counted :
    (a : ℕ) (c : Counter) (ts : List Try)
    → (c.n + (do_from a c ts).called ≤ (do_from a c ts).counter.n)
      × ((do_from a c ts).counter.n ≤ c.n + (do_from a c ts).called + all_others ts)
unfolding do_from after_take take_call all_others
counted a c [] = ground arith
counted a c (t ∷ rest) = ground (
  arith,
  counted (a + 1) (next t c) rest,
  others_take-le t.taken_by_others c,
  Option-cases t.outcome,
)

called-le :
    (a : ℕ) (c : Counter) (ts : List Try)
    → a ≤ max_retries
    → (do_from a c ts).called + a ≤ max_retries + 1
unfolding do_from after_take take_call
called-le a c [] h = ground arith
called-le a c (t ∷ rest) h =
    ground (arith, called-le (a + 1) (next t c) rest, Option-cases t.outcome)

-- The last turn is the fourth.
do_from-ends :
    (a : ℕ) (c : Counter) (ts : List Try)
    → a ≤ max_retries
    → max_retries < a + length ts
    → (do_from a c ts).answer ≢ none
unfolding do_from after_take take_call
do_from-ends a c [] h l = absurd (omega arith)
do_from-ends a c (t ∷ rest) h l =
    ground (arith, do_from-ends (a + 1) (next t c) rest, Option-cases t.outcome)

-- Whatever the calls meet, and whatever the other workers do with the shared counter meanwhile, `do` gives an
-- answer after at most four calls of its own, and the counter has gone up by the number of these calls at least
-- and by those of the other workers besides at most.
pub do_call-ends :
    (c : Counter) (tries : List Try)
    → max_retries < length tries
    → ((do_call c tries).answer ≢ none)
      × ((do_call c tries).called ≤ max_retries + 1)
      × (c.n + (do_call c tries).called ≤ (do_call c tries).counter.n)
      × ((do_call c tries).counter.n ≤ c.n + (do_call c tries).called + all_others tries)
unfolding do_call
do_call-ends c tries l = (
  do_from-ends 0 c tries (omega arith) (omega (arith, l)),
  omega (arith, called-le 0 c tries (omega arith)),
  (counted 0 c tries).0,
  (counted 0 c tries).1,
)

do_from-limit :
    (a : ℕ) (c : Counter) (ts : List Try)
    → 0 < c.max
    → c.n ≤ c.max
    → (do_from a c ts).counter.n ≤ c.max
unfolding do_from after_take take_call
do_from-limit a c [] p h = h
do_from-limit a c (t ∷ rest) p h = ground (
  arith,
  do_from-limit (a + 1) (next t c) rest,
  others_take-le t.taken_by_others c,
  others_take-limit t.taken_by_others c p h,
  Option-cases t.outcome,
)

do_from-call_limit :
    (a : ℕ) (c : Counter) (ts : List Try)
    → 0 < c.max
    → (do_from a c ts).answer ≡ some call_limit
    → c.max ≤ (do_from a c ts).counter.n
unfolding do_from after_take take_call
do_from-call_limit a c [] p e = absurd cc
do_from-call_limit a c (t ∷ rest) p e = ground (
  arith,
  do_from-call_limit (a + 1) (next t c) rest,
  others_take-le t.taken_by_others c,
  Option-cases t.outcome,
)

-- Where the calls of a run are limited, `do` stays within the limit, and it says that the limit is
-- reached only when it is, whatever the other workers do with the shared counter meanwhile.
pub do_call-limit :
    (c : Counter) (tries : List Try)
    → 0 < c.max
    → c.n ≤ c.max
    → ((do_call c tries).counter.n ≤ c.max)
      × (((do_call c tries).answer ≢ some call_limit) ⊎ ((do_call c tries).counter.n ≡ c.max))
unfolding do_call
do_call-limit c tries p h = (
  do_from-limit 0 c tries p h,
  ground (arith, do_from-limit 0 c tries p h, do_from-call_limit 0 c tries p),
)
