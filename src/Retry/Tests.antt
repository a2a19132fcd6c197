-- ===== src/Retry/Tests.antt =====
-- `do` on concrete turns, and instances of its theorems.
use my_tech_pulse.Base.{
  ◌+◌, ◌*◌, ◌≡◌, ◌≢◌, ◌≤◌, ◌⊎◌, refl, false, some, none, [], ◌∷◌, List, arith, second, Option,
}
use my_tech_pulse.Retry.{
  unavailable, Failure, provider_error, retryable, Counter, take_call, others_take, Try, done,
  call_limit, failed_with, after_take, do_from, do_call, backoff, max_retries,
}
use my_tech_pulse.Retry.Calls.{all_others, do_call-ends, do_call-limit}

program : Unit {0}
unfolding retryable take_call others_take after_take do_from do_call backoff
program = tt

-- A turn that nothing interrupts.
abbrev calm : Option Failure → Try
calm outcome = record {
  taken_by_others = 0;
  ended = false;
  pacer_failed = false;
  outcome = outcome;
  ended_in_call = false;
  ended_in_backoff = false;
}

abbrev down : Failure
down = provider_error unavailable 503

abbrev missing : Failure
missing = provider_error unavailable 404

abbrev four_down : List Try
four_down = calm (some down) ∷ calm (some down) ∷ calm (some down) ∷ calm (some down) ∷ []

abbrev counter : Counter
counter = record { n = 7; max = 10 }

waits : (backoff 0 ≡ second) × (backoff 1 ≡ 2 * second) × (backoff 2 ≡ 4 * second)
unfolding program
waits = (refl, refl, refl)

recovers :
    do_call counter (calm (some down) ∷ calm none ∷ [])
    ≡ record { counter = record { n = 9; max = 10 }; called = 2; answer = some done }
unfolding program
recovers = refl

no_retry : do_call counter (calm (some missing) ∷ calm none ∷ []) ≡ record {
  counter = record { n = 8; max = 10 };
  called = 1;
  answer = some (failed_with missing);
}
unfolding program
no_retry = refl

runs_out :
    do_call counter four_down
    ≡ record { counter = record { n = 10; max = 10 }; called = 3; answer = some call_limit }
unfolding program
runs_out = refl

-- Another worker takes a call before the second turn.
abbrev two_workers : List Try
two_workers =
    calm (some down)
    ∷ record (calm (some down)) { taken_by_others = 1 }
    ∷ calm (some down)
    ∷ calm (some down)
    ∷ []

shared :
    do_call counter two_workers
    ≡ record { counter = record { n = 10; max = 10 }; called = 2; answer = some call_limit }
unfolding program
shared = refl

do_call-ends_example :
    ((do_call counter two_workers).answer ≢ none)
    × ((do_call counter two_workers).called ≤ max_retries + 1)
    × (7 + (do_call counter two_workers).called ≤ (do_call counter two_workers).counter.n)
    × ((do_call counter two_workers).counter.n
        ≤ 7 + (do_call counter two_workers).called + all_others two_workers)
do_call-ends_example = do_call-ends counter two_workers (omega arith)

do_call-limit_example :
    ((do_call counter four_down).counter.n ≤ 10)
    × (((do_call counter four_down).answer ≢ some call_limit)
        ⊎ ((do_call counter four_down).counter.n ≡ 10))
do_call-limit_example = do_call-limit counter four_down (omega arith) (omega arith)
