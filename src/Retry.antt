-- ===== src/Retry.antt =====
-- server/internal/articlefetch/retry.go: the limit on the number of calls of one run, and the retries
-- of a call. What happens outside during one call of `do` is a list of `Try`s, one for each turn of its
-- loop. The waits of the pacer and of the backoff show only by what ends them. The counter is shared by all
-- workers of a run: it is a number, `CompareAndSwap` makes a call of `take` one step, and in every turn other
-- workers may have called `take` any number of times since. `backoff` is without the jitter.
pub mod Calls
mod Tests
use my_tech_pulse.Base.{
  ℕ, zero, suc, ◌+◌, ◌-◌, ◌*◌, ◌^◌, ◌≡◌, Bool, true, false, ◌&&◌, ◌||◌, not, Option, none, some, [],
  ◌∷◌, List, ltb, leb, ◌==◌, if◌then◌else◌, Duration, second,
}

abbrev pub max_retries : ℕ
max_retries = 3

abbrev pub backoff_base : Duration
backoff_base = second

-- `caller.backoff` without jitter: `backoffBase << attempt`.
unfoldable pub backoff : ℕ → Duration
backoff attempt = backoff_base * 2 ^ attempt

-- The kinds of `provider.Error` that `retryable` tells apart.
pub data Kind : Type 0 where
  timeout unavailable other_kind : Kind

-- The errors of `fn`: a `provider.Error` in the chain, with its status code, or none.
pub data Failure : Type 0 where
  provider_error : Kind → ℕ → Failure
  other_error : Failure

unfoldable pub retryable : Failure → Bool
retryable other_error = false
retryable (provider_error timeout status) = true
retryable (provider_error unavailable status) = (status == 0) || leb 500 status
retryable (provider_error other_kind status) = false

-- `counter`: the calls so far; a maximum of 0 is no limit.
pub record Counter : Type 0 where
  pub n : ℕ
  pub max : ℕ

unfoldable pub take_call : Counter → Counter × Bool
take_call c =
    if leb c.max 0
    then (record c { n = c.n + 1 }, true)
    else if leb c.max c.n
    then (c, false)
    else (record c { n = c.n + 1 }, true)

-- The shared counter after other workers have called `take` so often.
unfoldable pub others_take : ℕ → Counter → Counter
unfolding take_call
others_take zero c = c
others_take (suc k) c = others_take k (take_call c).0

-- What one turn of the loop meets.
pub record Try : Type 0 where
  -- The calls of `take` by other workers since this one's last.
  pub taken_by_others : ℕ
  -- `ctx.Err()` at the start, the error of `pacer.wait`, `ctx.Err()` after `fn` failed, and
  -- `ctx.Done()` in the wait for the retry.
  pub ended : Bool
  pub pacer_failed : Bool
  pub outcome : Option Failure
  pub ended_in_call : Bool
  pub ended_in_backoff : Bool

-- What `do` returns.
pub data Answer : Type 0 where
  done : Answer
  context_error : Answer
  pacer_error : Answer
  call_limit : Answer
  failed_with : Failure → Answer

-- The counter, how often `fn` was called, and the answer.
pub record Result : Type 0 where
  pub counter : Counter
  pub called : ℕ
  pub answer : Option Answer

-- What the turn does once the counter has been asked.
unfoldable pub after_take : Counter × Bool → ℕ → Try → (Counter → Result) → Result
after_take (c, false) attempt t again = record { counter = c; called = 0; answer = some call_limit }
after_take (c, true) attempt t again = elim t.outcome [
  | none ↦ record { counter = c; called = 1; answer = some done }
  | some f ↦
      if t.ended_in_call
      then record { counter = c; called = 1; answer = some context_error }
      else if leb max_retries attempt || not (retryable f)
      then record { counter = c; called = 1; answer = some (failed_with f) }
      else if t.ended_in_backoff
      then record { counter = c; called = 1; answer = some context_error }
      else let rest = again c in record rest { called = rest.called + 1 }
]

-- The loop of `caller.do` from the turn `attempt` on; without an answer if the list is too short.
unfoldable pub do_from : ℕ → Counter → List Try → Result
unfolding after_take take_call others_take
do_from attempt c [] = record { counter = c; called = 0; answer = none }
do_from attempt c (t ∷ rest) =
    let d = others_take t.taken_by_others c in
    if t.ended
    then record { counter = d; called = 0; answer = some context_error }
    else if t.pacer_failed
    then record { counter = d; called = 0; answer = some pacer_error }
    else after_take (take_call d) attempt t (λ e. do_from (attempt + 1) e rest)

unfoldable pub do_call : Counter → List Try → Result
do_call c tries = do_from 0 c tries
