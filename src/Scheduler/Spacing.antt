-- ===== src/Scheduler/Spacing.antt =====
-- The delays between the runs of a slot, under a clock that moves on.
use my_tech_pulse.Base.{
  ℕ, ◌+◌, ◌-◌, ◌*◌, ◌≤◌, ◌<◌, ◌≡◌, ◌⊎◌, inl, inr, refl, sym, ap, ◌∙◌, subst, [], ◌∷◌, All, Time,
  minute, length, arith, ◌==◌, Bool-cases,
}
use my_tech_pulse.Scheduler.{
  Run, Runs, Trigger, is_running, abandon, comes_first, insert_run, runs_for_slot, attempt_at,
  decide, largest_attempt, retry_delay, step, Env,
}
use my_tech_pulse.Scheduler.Decide.{of_slot, decide-attempt, decide_after-attempt}
use my_tech_pulse.Scheduler.History.{
  Fresh, StepRows, unchanged, cleaned, added, step_rows, abandon-Inv, length-abandon,
}
use my_tech_pulse.Scheduler.Reachable.{Reach, empty, stepped, Reach-Inv}

-- The tables that calls of `step` lead to, each of which reads a later time than the one before. The last
-- time that was read is with the table.
pub data ReachBy : Time → Runs → Type 0 where
  none_yet : (t : Time) → ReachBy t []
  next_call :
      (before : Time) (e : Env) (slot : Time) (first : Trigger) (rows : Runs)
      → ReachBy before rows
      → Fresh e.fresh_id rows
      → before < e.now
      → ReachBy e.now (step e slot first rows).0

-- The rows were started before the time.
abbrev AreBefore : Time → Runs → Type 0
AreBefore t rows = All (λ r. r.started_at < t) rows

-- The latest insertion first is the latest start first.
abbrev IsChronicle : Runs → Type 0
IsChronicle [] = Unit {0}
IsChronicle (r ∷ rows) = AreBefore r.started_at rows × IsChronicle rows

abandon-AreBefore : (now t : Time) (rows : Runs) → AreBefore t rows → AreBefore t (abandon now rows)
unfolding abandon
abandon-AreBefore now t [] b = tt
abandon-AreBefore now t (r ∷ rows) b = (ground (arith, b.0), abandon-AreBefore now t rows b.1)

abandon-IsChronicle : (now : Time) (rows : Runs) → IsChronicle rows → IsChronicle (abandon now rows)
unfolding abandon
abandon-IsChronicle now [] c = tt
abandon-IsChronicle now (r ∷ rows) c = elim (Bool-cases (is_running r.status)) [
  | inl left ↦
      rw left (abandon-AreBefore now r.started_at rows c.0, abandon-IsChronicle now rows c.1)
  | inr ended ↦
      rw ended (abandon-AreBefore now r.started_at rows c.0, abandon-IsChronicle now rows c.1)
]

of_slot-AreBefore :
    (slot t : Time) (rows : Runs) → AreBefore t rows → AreBefore t (of_slot slot rows)
unfolding of_slot
of_slot-AreBefore slot t [] b = tt
of_slot-AreBefore slot t (r ∷ rows) b = elim (Bool-cases (r.slot == slot)) [
  | inl hit ↦ rw hit (b.0, of_slot-AreBefore slot t rows b.1)
  | inr miss ↦ rw miss (of_slot-AreBefore slot t rows b.1)
]

later_AreBefore : (s t : Time) (rows : Runs) → s ≤ t → AreBefore s rows → AreBefore t rows
later_AreBefore s t [] le b = tt
later_AreBefore s t (r ∷ rows) le b = (omega (arith, b.0, le), later_AreBefore s t rows le b.1)

insert_run-newest :
    (r : Run) (rows : Runs) → AreBefore r.started_at rows → insert_run r rows ≡ r ∷ rows
unfolding insert_run comes_first
insert_run-newest r [] b = refl
insert_run-newest r (s ∷ rows) b = ground (arith, b.0)

-- The query's order is the order of insertion.
runs_for_slot-of_slot :
    (slot : Time) (rows : Runs) → IsChronicle rows → runs_for_slot slot rows ≡ of_slot slot rows
unfolding runs_for_slot of_slot
runs_for_slot-of_slot slot [] c = refl
runs_for_slot-of_slot slot (r ∷ rows) c = elim (Bool-cases (r.slot == slot)) [
  | inl hit ↦
      rw (hit, runs_for_slot-of_slot slot rows c.1)
        (insert_run-newest r (of_slot slot rows) (of_slot-AreBefore slot r.started_at rows c.0))
  | inr miss ↦ rw miss (runs_for_slot-of_slot slot rows c.1)
]

rows-IsChronicle :
    (e : Env) (slot : Time) (rows new : Runs)
    → StepRows e slot rows new
    → AreBefore e.now rows
    → IsChronicle rows
    → AreBefore (e.now + 1) new × IsChronicle new
rows-IsChronicle e slot rows new (unchanged q) b c =
    rw q (later_AreBefore e.now (e.now + 1) rows (omega arith) b, c)
rows-IsChronicle e slot rows new (cleaned q) b c = rw q (
  later_AreBefore e.now (e.now + 1) (abandon e.now rows) (omega arith)
      (abandon-AreBefore e.now e.now rows b),
  abandon-IsChronicle e.now rows c,
)
rows-IsChronicle e slot rows new (added (r, t, _, start, d, _, q)) b c =
    let old = abandon-AreBefore e.now e.now rows b in
    rw q (
      (
        omega (arith, start),
        later_AreBefore e.now (e.now + 1) (abandon e.now rows) (omega arith) old,
      ),
      (
        subst (λ s. AreBefore s (abandon e.now rows)) (sym start) old,
        abandon-IsChronicle e.now rows c,
      ),
    )

ReachBy-IsChronicle :
    (t : Time) (rows : Runs) → ReachBy t rows → AreBefore (t + 1) rows × IsChronicle rows
ReachBy-IsChronicle _ _ (none_yet t) = (tt, tt)
ReachBy-IsChronicle _ _ (next_call before e slot first rows r f late) =
    let old = ReachBy-IsChronicle before rows r in
    rows-IsChronicle e slot rows _ (step_rows e slot first rows f)
      (later_AreBefore (before + 1) e.now rows (omega (arith, late)) old.0) old.1

ReachBy-Reach : (t : Time) (rows : Runs) → ReachBy t rows → Reach rows
ReachBy-Reach _ _ (none_yet t) = empty
ReachBy-Reach _ _ (next_call before e slot first rows r f late) =
    stepped e slot first rows f (ReachBy-Reach before rows r)

decide-spaced :
    (last : Run) (older : Runs) (now : Time) (a : ℕ) (t : Time)
    → decide (last ∷ older) now ≡ attempt_at a t
    → t ≤ now
    → (last.finished_at + retry_delay (a - 1) ≤ now)
unfolding decide
decide-spaced last older now a t d due =
    let (k, largest, next, few, time) =
      decide_after-attempt last (largest_attempt 0 (last ∷ older)) now a t d in
    let same : retry_delay (a - 1) ≡ retry_delay k = ap retry_delay (omega (arith, next)) in
    ground (arith, same, time, due)

rows-spaced :
    (e : Env) (slot : Time) (rows older : Runs) (r last : Run)
    → StepRows e slot rows (r ∷ abandon e.now rows)
    → runs_for_slot slot (abandon e.now rows) ≡ last ∷ older
    → last.finished_at + retry_delay (r.attempt - 1) ≤ r.started_at
rows-spaced e slot rows older r last (unchanged q) newest =
    absurd (omega (arith, ap length q, length-abandon e.now rows))
rows-spaced e slot rows older r last (cleaned q) newest = absurd (omega (arith, ap length q))
rows-spaced e slot rows older r last (added (n, t, _, start, d, due, q)) newest =
    let same : r ≡ n = cc in
    let begun : r.started_at ≡ e.now = ap (λ x. x.started_at) same ∙ start in
    let attempt : r.attempt ≡ n.attempt = ap (λ x. x.attempt) same in
    rw (begun, attempt)
      (decide-spaced last older e.now n.attempt t (ap (λ x. decide x e.now) (sym newest) ∙ d) due)

attempt-newest :
    (e : Env) (slot : Time) (rows older : Runs) (r last : Run)
    → StepRows e slot rows (r ∷ abandon e.now rows)
    → Reach rows
    → of_slot slot (abandon e.now rows) ≡ last ∷ older
    → r.attempt ≡ length older + 2
attempt-newest e slot rows older r last (unchanged q) v newest =
    absurd (omega (arith, ap length q, length-abandon e.now rows))
attempt-newest e slot rows older r last (cleaned q) v newest = absurd (omega (arith, ap length q))
attempt-newest e slot rows older r last (added (n, t, _, _, d, _, q)) v newest =
    let same : r ≡ n = cc in
    let facts =
      decide-attempt slot (abandon e.now rows) e.now n.attempt t
        (abandon-Inv e.now rows (Reach-Inv rows v) slot) d in
    ap (λ (x : Run). x.attempt) same ∙ facts.1 ∙ omega (arith, ap length newest)

delays :
    (k : ℕ) (f t : Time)
    → f + retry_delay (k + 2 - 1) ≤ t
    → (f + 15 * minute ≤ t) × ((k ≡ 0) ⊎ (f + 30 * minute ≤ t))
unfolding retry_delay
delays k f t h = (ground (arith, h), ground (arith, h))

length-zero : (rows : Runs) → length rows ≡ 0 → rows ≡ []
length-zero [] e = refl
length-zero (r ∷ rows) e = absurd (omega (arith, e))

-- In a table that calls of `step` led to, each at a later time than the one before, a further call that
-- starts a run after a run of the same slot waits at least 15 minutes after the end of the run of that slot
-- that was started last, and 30 minutes if that was not the first run of the slot. A run that was left
-- running ends when the call finds it.
pub step-spaced :
    (t : Time) (e : Env) (slot : Time) (first : Trigger) (rows older : Runs) (r last : Run)
    → ReachBy t rows
    → t < e.now
    → Fresh e.fresh_id rows
    → (step e slot first rows).0 ≡ r ∷ abandon e.now rows
    → of_slot slot (abandon e.now rows) ≡ last ∷ older
    → (last.finished_at + 15 * minute ≤ r.started_at)
      × ((older ≡ []) ⊎ (last.finished_at + 30 * minute ≤ r.started_at))
step-spaced t e slot first rows older r last reach late f more newest =
    let made = subst (StepRows e slot rows) more (step_rows e slot first rows f) in
    let chronicle = abandon-IsChronicle e.now rows (ReachBy-IsChronicle t rows reach).1 in
    let spaced =
      rows-spaced e slot rows older r last made
        (runs_for_slot-of_slot slot (abandon e.now rows) chronicle ∙ newest) in
    let attempt =
      attempt-newest e slot rows older r last made (ReachBy-Reach t rows reach) newest in
    let both =
      delays (length older) last.finished_at r.started_at
        (subst (λ a. last.finished_at + retry_delay (a - 1) ≤ r.started_at) attempt spaced) in
    (both.0, elim both.1 [ inl alone ↦ inl (length-zero older alone) | inr long ↦ inr long ])
