-- ===== src/Scheduler/Progress.antt =====
-- About the run that is due, in `step`.
use my_tech_pulse.Base.{
  ℕ, ◌+◌, ◌≤◌, ◌<◌, ◌≡◌, refl, ap, ◌∙◌, true, not, Option, none, some, [], ◌∷◌, ltb, ◌==◌, ◌&&◌,
  if◌then◌else◌, Time, max, length, arith,
}
use my_tech_pulse.Scheduler.{
  Run, Runs, Trigger, retry, abandon, runs_for_slot, attempt_at, decide, decide_after,
  largest_attempt, max_attempts, retry_delay, step, Env, locked, after_lock, got, follow, execute,
  is_failed, start_run, finish_run,
}
use my_tech_pulse.Scheduler.Decide.{
  of_slot, AllFailed, IsHistory, largest_attempt-runs_for_slot, length-runs_for_slot,
}
use my_tech_pulse.Scheduler.History.{Fresh, finish_run-Fresh, abandon-Fresh}

largest_attempt-failed :
    (m : ℕ) (rows : Runs)
    → IsHistory rows
    → AllFailed rows
    → largest_attempt m rows ≡ some (max m (length rows))
unfolding largest_attempt
largest_attempt-failed m [] h f = ground arith
largest_attempt-failed m (r ∷ rows) h f =
    ground (arith, largest_attempt-failed (if ltb m r.attempt then r.attempt else m) rows h.3 f.1)

-- The time before which `decide` holds the next attempt back.
unfoldable pub not_before : Runs → Time → Time
not_before [] now = 0
not_before (r ∷ rows) now =
    (if r.finished_at == 0 then now else r.finished_at) + retry_delay (length (r ∷ rows))

decide-next :
    (rows : Runs) (now : Time)
    → largest_attempt 0 rows ≡ some (length rows)
    → length rows < max_attempts
    → decide rows now ≡ attempt_at (length rows + 1) (not_before rows now)
unfolding decide decide_after not_before
decide-next [] now l few = refl
decide-next (r ∷ rows) now l few = rw l (ground (arith, few))

decide-due :
    (slot : Time) (rows : Runs) (now : Time)
    → IsHistory (of_slot slot rows)
    → AllFailed (of_slot slot rows)
    → length (of_slot slot rows) < max_attempts
    → decide (runs_for_slot slot rows) now
      ≡ attempt_at (length (of_slot slot rows) + 1) (not_before (runs_for_slot slot rows) now)
decide-due slot rows now h f few =
    let same = length-runs_for_slot slot rows in
    let largest : largest_attempt 0 (runs_for_slot slot rows)
        ≡ some (length (runs_for_slot slot rows)) =
      largest_attempt-runs_for_slot 0 slot rows
      ∙ largest_attempt-failed 0 (of_slot slot rows) h f
      ∙ ap some (omega (arith, same)) in
    decide-next (runs_for_slot slot rows) now largest (omega (arith, same, few))
    ∙ ap (λ k. attempt_at (k + 1) (not_before (runs_for_slot slot rows) now)) same

-- Nothing that `step` asks of the outside fails.
abbrev pub Works : Env → Type 0
Works e =
    (e.lock ≡ got)
    × (e.abandon_ok ≡ true)
    × (e.read_ok ≡ true)
    × (e.start_ok ≡ true)
    × (e.finish_ok ≡ true)

-- The row that a run leaves.
abbrev pub finished_run : Env → Time → Trigger → ℕ → Run
finished_run e slot first attempt = record {
  id = e.fresh_id;
  slot = slot;
  trigger = if ltb 1 attempt then retry else first;
  attempt = attempt;
  started_at = e.now;
  finished_at = e.finished;
  status = e.result;
}

-- When the retry of a run is due, if there is one.
abbrev pub next_try : Env → ℕ → Option Time
next_try e attempt =
    if is_failed e.result && ltb attempt max_attempts && not e.cancelled
    then some (e.finished + retry_delay attempt)
    else none

execute-works :
    (e : Env) (slot : Time) (first : Trigger) (a : ℕ) (rows : Runs)
    → Fresh e.fresh_id rows
    → e.start_ok ≡ true
    → e.finish_ok ≡ true
    → execute e slot first a rows ≡ (finished_run e slot first a ∷ rows, next_try e a)
unfolding execute start_run finish_run
execute-works e slot first a rows f s k =
    ground (arith, s, k, finish_run-Fresh e.fresh_id e.finished e.result rows f)

step-locked :
    (e : Env) (slot : Time) (first : Trigger) (rows : Runs)
    → Works e
    → step e slot first rows
      ≡ follow e slot first
          (decide (runs_for_slot slot (abandon e.now rows)) e.now)
          (abandon e.now rows)
unfolding step after_lock locked
step-locked e slot first rows w =
    ap (λ k. after_lock k e slot first rows) w.0 ∙ ground (arith, w.1, w.2)

-- When nothing fails outside, and the runs of the slot, stale ones included, are fewer than three and
-- have all failed, and the delay after the newest one is over, `step` makes the next attempt and
-- records how it ended; it asks for another try exactly if this one failed, was not the third and was
-- not cancelled.
pub step-due :
    (e : Env) (slot : Time) (first : Trigger) (rows : Runs)
    → Fresh e.fresh_id rows
    → Works e
    → IsHistory (of_slot slot (abandon e.now rows))
    → AllFailed (of_slot slot (abandon e.now rows))
    → length (of_slot slot (abandon e.now rows)) < max_attempts
    → not_before (runs_for_slot slot (abandon e.now rows)) e.now ≤ e.now
    → step e slot first rows ≡ (
      finished_run e slot first (length (of_slot slot (abandon e.now rows)) + 1)
          ∷ abandon e.now rows,
      next_try e (length (of_slot slot (abandon e.now rows)) + 1),
    )
unfolding follow
step-due e slot first rows f w h all few due =
    step-locked e slot first rows w
    ∙ ap (λ d. (follow e slot first d (abandon e.now rows)))
        (decide-due slot (abandon e.now rows) e.now h all few)
    ∙ ground (arith, due)
    ∙ execute-works e slot first (length (of_slot slot (abandon e.now rows)) + 1)
        (abandon e.now rows) (abandon-Fresh e.fresh_id e.now rows f) w.3 w.4
