-- ===== src/Scheduler/Tests.antt =====
-- The scheduler on one morning: a failure, its retry and what follows.
use my_tech_pulse.Base.{
  ℕ, ◌+◌, ◌*◌, ◌≡◌, ◌≤◌, ◌⊎◌, refl, sym, ap, subst, none, some, [], ◌∷◌, true, false, Time, hour,
  minute, day, arith, length,
}
use my_tech_pulse.Scheduler.{
  Status, Trigger, Runs, succeeded, failed, scheduled, catchup, retry, Run, Runs, Env, got, busy,
  start_run, finish_run, is_running, abandon, comes_first, insert_run, runs_for_slot,
  largest_attempt, decide_after, decide, is_failed, execute, follow, locked, after_lock, step,
  retry_delay, max_attempts,
}
use my_tech_pulse.Scheduler.Decide.{of_slot, IsHistory, AllFailed}
use my_tech_pulse.Scheduler.Reachable.{Reach, empty, stepped, at_most_three, step-final}
use my_tech_pulse.Scheduler.Spacing.{ReachBy, none_yet, next_call, step-spaced}
use my_tech_pulse.Scheduler.Progress.{not_before, step-due, finished_run, next_try}

program : Unit {0}
unfolding start_run finish_run is_running abandon comes_first insert_run runs_for_slot
    largest_attempt decide_after decide is_failed execute follow locked after_lock step retry_delay
    of_slot not_before
program = tt

abbrev slot : Time
slot = 800 * day

-- A call of `step` in which nothing outside fails, and the job takes a minute.
abbrev at : Time → Status → ℕ → Env
at now result id = record {
  lock = got;
  now = now;
  abandon_ok = true;
  read_ok = true;
  start_ok = true;
  result = result;
  finished = now + minute;
  finish_ok = true;
  cancelled = false;
  fresh_id = id;
}

abbrev row : ℕ → ℕ → Trigger → Time → Status → Run
row id attempt trigger now status = record {
  id = id;
  slot = slot;
  trigger = trigger;
  attempt = attempt;
  started_at = now;
  finished_at = now + minute;
  status = status;
}

abbrev one_failed : Runs
one_failed = row 1 1 scheduled slot failed ∷ []

abbrev retried : Runs
retried = row 2 2 retry (slot + 16 * minute) succeeded ∷ one_failed

first_run : step (at slot failed 1) slot scheduled [] ≡ (one_failed, some (slot + 16 * minute))
unfolding program
first_run = refl

too_early :
    step (at (slot + 15 * minute) succeeded 2) slot scheduled one_failed
    ≡ (one_failed, some (slot + 16 * minute))
unfolding program
too_early = refl

second_run : step (at (slot + 16 * minute) succeeded 2) slot scheduled one_failed ≡ (retried, none)
unfolding program
second_run = refl

-- A run that was killed is failed by the next call that gets the lock.
killed :
    (step (record (at slot failed 1) { finish_ok = false }) slot scheduled []).1
    ≡ some (slot + 16 * minute)
unfolding program
killed = refl

not_locked :
    step (record (at slot failed 1) { lock = busy }) slot scheduled one_failed ≡ (one_failed, none)
unfolding program
not_locked = refl

one_failed-Reach : Reach one_failed
unfolding program
one_failed-Reach = stepped (at slot failed 1) slot scheduled [] tt empty

retried-Reach : Reach retried
unfolding program
retried-Reach =
    stepped (at (slot + 16 * minute) succeeded 2) slot scheduled one_failed (ground arith, tt)
      one_failed-Reach

at_most_three_example :
    (length (of_slot slot retried) ≤ max_attempts) × IsHistory (of_slot slot retried)
at_most_three_example = at_most_three retried slot retried-Reach

retried_here : of_slot slot retried ≡ retried
unfolding program
retried_here = refl

second_final : is_running succeeded ≡ false
unfolding program
second_final = refl

step-final_example :
    of_slot slot (step (at (slot + hour) failed 3) (slot + day) catchup retried).0
    ≡ of_slot slot retried
step-final_example =
    step-final (at (slot + hour) failed 3) slot (slot + day) catchup retried one_failed
      (row 2 2 retry (slot + 16 * minute) succeeded) (ground arith, (ground arith, tt))
      retried-Reach retried_here second_final (λ q. cc)

second_added :
    (step (at (slot + 16 * minute) succeeded 2) slot scheduled one_failed).0
    ≡ row 2 2 retry (slot + 16 * minute) succeeded ∷ abandon (slot + 16 * minute) one_failed
unfolding program
second_added = refl

one_here : of_slot slot (abandon (slot + 16 * minute) one_failed) ≡ one_failed
unfolding program
one_here = refl

abbrev no_runs : Runs
no_runs = []

one_failed-ReachBy : ReachBy slot one_failed
unfolding program
one_failed-ReachBy = next_call 0 (at slot failed 1) slot scheduled [] (none_yet 0) tt (omega arith)

step-spaced_example :
    (slot + minute + 15 * minute ≤ slot + 16 * minute)
    × ((no_runs ≡ []) ⊎ (slot + minute + 30 * minute ≤ slot + 16 * minute))
step-spaced_example =
    step-spaced slot (at (slot + 16 * minute) succeeded 2) slot scheduled one_failed no_runs
      (row 2 2 retry (slot + 16 * minute) succeeded) (row 1 1 scheduled slot failed)
      one_failed-ReachBy (omega arith) (ground arith, tt) second_added one_here

one_due :
    not_before (runs_for_slot slot (abandon (slot + 16 * minute) one_failed)) (slot + 16 * minute)
    ≤ slot + 16 * minute
unfolding program
one_due = omega arith

step-due_example : step (at (slot + 16 * minute) succeeded 2) slot scheduled one_failed ≡ (
  finished_run
        (at (slot + 16 * minute) succeeded 2)
        slot
        scheduled
        (length (of_slot slot (abandon (slot + 16 * minute) one_failed)) + 1)
      ∷ abandon (slot + 16 * minute) one_failed,
  next_try
      (at (slot + 16 * minute) succeeded 2)
      (length (of_slot slot (abandon (slot + 16 * minute) one_failed)) + 1),
)
step-due_example =
    step-due (at (slot + 16 * minute) succeeded 2) slot scheduled one_failed (ground arith, tt)
      (refl, refl, refl, refl, refl) (subst IsHistory (sym one_here) (refl, omega arith, tt, tt))
      (subst AllFailed (sym one_here) (refl, tt)) (omega (arith, ap length one_here)) one_due
