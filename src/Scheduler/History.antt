-- ===== src/Scheduler/History.antt =====
-- The history of every slot, over any sequence of calls of `step` and any failures in between.
use my_tech_pulse.Base.{
  ℕ, suc, ◌+◌, ◌≤◌, ◌<◌, ◌≡◌, ◌≢◌, ◌⊎◌, refl, sym, ap, subst, Bool, true, false, not, Option, [],
  ◌∷◌, ltb, ◌==◌, if◌then◌else◌, Time, length, arith, Bool-cases, inl, inr, ==_iff,
}
use my_tech_pulse.Scheduler.{
  Run, Runs, Status, Trigger, retry, running, abandon, runs_for_slot, Decision, skip, attempt_at,
  decide, max_attempts, start_run, finish_run, execute, follow, locked, after_lock, step, Env, Lock,
  got, busy, lock_error,
}
use my_tech_pulse.Scheduler.Decide.{of_slot, AllFailed, IsHistory, decide-attempt}

-- No row has the id.
abbrev pub Fresh : ℕ → Runs → Type 0
Fresh id [] = Unit {0}
Fresh id (r ∷ rows) = (r.id ≢ id) × Fresh id rows

pub finish_run-Fresh :
    (id : ℕ) (now : Time) (status : Status) (rows : Runs)
    → Fresh id rows
    → finish_run id now status rows ≡ rows
unfolding finish_run
finish_run-Fresh id now status [] f = refl
finish_run-Fresh id now status (r ∷ rows) f =
    ground (arith, finish_run-Fresh id now status rows f.1)

pub of_slot-abandon :
    (slot now : Time) (rows : Runs)
    → of_slot slot (abandon now rows) ≡ abandon now (of_slot slot rows)
unfolding of_slot abandon
of_slot-abandon slot now [] = refl
of_slot-abandon slot now (r ∷ rows) = ground (arith, of_slot-abandon slot now rows)

pub length-abandon : (now : Time) (rows : Runs) → length (abandon now rows) ≡ length rows
unfolding abandon
length-abandon now [] = refl
length-abandon now (r ∷ rows) = ap suc (length-abandon now rows)

abandon-AllFailed : (now : Time) (rows : Runs) → AllFailed rows → AllFailed (abandon now rows)
unfolding abandon
abandon-AllFailed now [] f = tt
abandon-AllFailed now (r ∷ rows) f = (ground arith, abandon-AllFailed now rows f.1)

abandon-IsHistory : (now : Time) (rows : Runs) → IsHistory rows → IsHistory (abandon now rows)
unfolding abandon
abandon-IsHistory now [] h = tt
abandon-IsHistory now (r ∷ rows) h = (
  ground (arith, length-abandon now rows),
  omega (arith, length-abandon now rows, h.1),
  abandon-AllFailed now rows h.2,
  abandon-IsHistory now rows h.3,
)

pub abandon-Fresh :
    (id : ℕ) (now : Time) (rows : Runs) → Fresh id rows → Fresh id (abandon now rows)
unfolding abandon
abandon-Fresh id now [] f = tt
abandon-Fresh id now (r ∷ rows) f = (ground arith, abandon-Fresh id now rows f.1)

-- Every slot has a well-formed history.
abbrev pub Inv : Runs → Type 0
Inv rows = (slot : Time) → IsHistory (of_slot slot rows)

pub abandon-Inv : (now : Time) (rows : Runs) → Inv rows → Inv (abandon now rows)
abandon-Inv now rows v slot =
    rw (of_slot-abandon slot now rows) (abandon-IsHistory now (of_slot slot rows) (v slot))

-- A new row on top of a slot whose runs have all failed.
push-Inv :
    (r : Run) (rows : Runs)
    → r.attempt ≡ length (of_slot r.slot rows) + 1
    → length (of_slot r.slot rows) < max_attempts
    → AllFailed (of_slot r.slot rows)
    → Inv rows
    → Inv (r ∷ rows)
unfolding of_slot
push-Inv r rows next few all v slot = elim (Bool-cases (r.slot == slot)) [
  | inl hit ↦
      let same : r.slot ≡ slot = (==_iff r.slot slot).0 hit in
      rw hit (subst (λ s. IsHistory (r ∷ of_slot s rows)) same (next, few, all, v r.slot))
  | inr miss ↦ rw miss (v slot)
]

-- What `execute` leaves: the rows, or one new row for the slot and the attempt.
execute_rows :
    (e : Env) (slot : Time) (first : Trigger) (a : ℕ) (rows : Runs)
    → Fresh e.fresh_id rows
    → ((execute e slot first a rows).0 ≡ rows)
      ⊎ ((r : Run) × (r.slot ≡ slot)
          × (r.attempt ≡ a)
          × (r.started_at ≡ e.now)
          × ((execute e slot first a rows).0 ≡ r ∷ rows))
unfolding execute start_run finish_run
execute_rows e slot first a rows f = elim (Bool-cases e.start_ok) [
  | inr no_row ↦ inl (ground (arith, no_row))
  | inl new_row ↦ elim (Bool-cases e.finish_ok) [
    | inr lost ↦ inr (
      row (if ltb 1 a then retry else first) running 0,
      refl,
      refl,
      refl,
      ground (arith, new_row, lost),
    )
    | inl kept ↦ inr (
      row (if ltb 1 a then retry else first) e.result e.finished,
      refl,
      refl,
      refl,
      ground (arith, new_row, kept, finish_run-Fresh e.fresh_id e.finished e.result rows f),
    )
  ]
]
  where
    row : Trigger → Status → Time → Run
    row trigger status finished = record {
      id = e.fresh_id;
      slot = slot;
      trigger = trigger;
      attempt = a;
      started_at = e.now;
      finished_at = finished;
      status = status;
    }

-- One row more than `rows`, for the attempt that is decided on and not before its time.
abbrev Added : Env → Time → Runs → Decision → Runs → Type 0
Added e slot rows d new =
    (r : Run) × (t : Time) × (r.slot ≡ slot)
    × (r.started_at ≡ e.now)
    × (d ≡ attempt_at r.attempt t)
    × (t ≤ e.now)
    × (new ≡ r ∷ rows)

follow_rows :
    (e : Env) (slot : Time) (first : Trigger) (d : Decision) (rows : Runs)
    → Fresh e.fresh_id rows
    → ((follow e slot first d rows).0 ≡ rows) ⊎ Added e slot rows d (follow e slot first d rows).0
unfolding follow
follow_rows e slot first skip rows f = inl refl
follow_rows e slot first (attempt_at a t) rows f = elim (Bool-cases (ltb e.now t)) [
  | inl early ↦ inl (ground (arith, early))
  | inr due ↦ elim (execute_rows e slot first a rows f) [
    | inl same ↦ inl (ground (arith, due, same))
    | inr (r, here, number, start, more) ↦ inr (
      r,
      t,
      here,
      start,
      ap (λ k. attempt_at k t) (sym number),
      ground arith,
      ground (arith, due, more),
    )
  ]
]

-- What a call of `step` leaves in the table.
pub data StepRows (e : Env) (slot : Time) (rows new : Runs) : Type 0 where
  unchanged : new ≡ rows → StepRows e slot rows new
  cleaned : new ≡ abandon e.now rows → StepRows e slot rows new
  added :
      Added e slot (abandon e.now rows) (decide (runs_for_slot slot (abandon e.now rows)) e.now) new
      → StepRows e slot rows new

followed_rows :
    (e : Env) (slot : Time) (first : Trigger) (rows : Runs)
    → Fresh e.fresh_id rows
    → StepRows e slot rows
        (follow e slot first
          (decide (runs_for_slot slot (abandon e.now rows)) e.now)
          (abandon e.now rows)).0
followed_rows e slot first rows f =
    elim (follow_rows e slot first (decide (runs_for_slot slot (abandon e.now rows)) e.now)
      (abandon e.now rows) (abandon-Fresh e.fresh_id e.now rows f)) [
        | inl same ↦ cleaned same
        | inr new ↦ added new
      ]

if_either :
    (P : Runs → Type 0) (b : Bool) (x y : Runs × Option Time)
    → P x.0
    → P y.0
    → P (if b then x else y).0
if_either P true x y p q = p
if_either P false x y p q = q

after_lock_rows :
    (k : Lock) (e : Env) (slot : Time) (first : Trigger) (rows : Runs)
    → Fresh e.fresh_id rows
    → StepRows e slot rows (after_lock k e slot first rows).0
unfolding after_lock locked
after_lock_rows lock_error e slot first rows f = unchanged refl
after_lock_rows busy e slot first rows f = unchanged refl
after_lock_rows got e slot first rows f =
    if_either (StepRows e slot rows) (not e.abandon_ok) _ _ (unchanged refl) (
      if_either (StepRows e slot rows) (not e.read_ok) _ _ (cleaned refl)
        (followed_rows e slot first rows f))

pub step_rows :
    (e : Env) (slot : Time) (first : Trigger) (rows : Runs)
    → Fresh e.fresh_id rows
    → StepRows e slot rows (step e slot first rows).0
unfolding step
step_rows e slot first rows f = after_lock_rows e.lock e slot first rows f

rows-Inv : (e : Env) (slot : Time) (rows new : Runs) → StepRows e slot rows new → Inv rows → Inv new
rows-Inv e slot rows new (unchanged q) v = rw q v
rows-Inv e slot rows new (cleaned q) v = rw q (abandon-Inv e.now rows v)
rows-Inv e slot rows new (added (r, t, here, _, d, _, q)) v =
    let stale = abandon e.now rows in
    let (all, count, few) =
      decide-attempt slot stale e.now r.attempt t (abandon-Inv e.now rows v slot) d in
    let length_here : length (of_slot r.slot stale) ≡ length (of_slot slot stale) =
      ap (λ s. length (of_slot s stale)) here in
    rw q (
      push-Inv r stale (omega (arith, count, length_here)) (omega (arith, few, length_here))
        (subst (λ s. AllFailed (of_slot s stale)) (sym here) all) (abandon-Inv e.now rows v))

-- Whatever fails in it, a call of `step` keeps the histories of all slots well formed: numbered from
-- one, three rows at most, and none after a row that has not failed.
pub step-Inv :
    (e : Env) (slot : Time) (first : Trigger) (rows : Runs)
    → Fresh e.fresh_id rows
    → Inv rows
    → Inv (step e slot first rows).0
step-Inv e slot first rows f v = rows-Inv e slot rows _ (step_rows e slot first rows f) v
