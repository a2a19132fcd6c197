-- ===== src/Scheduler/Reachable.antt =====
-- What holds of the table after any sequence of calls of `step`.
use my_tech_pulse.Base.{
  ◌≤◌, ◌≡◌, ◌≢◌, refl, sym, ap, ◌∙◌, subst, false, [], ◌∷◌, Time, length, arith, ==_iff,
}
use my_tech_pulse.Scheduler.{
  Run, Runs, Trigger, failed, is_running, abandon, max_attempts, step, Env,
}
use my_tech_pulse.Scheduler.Decide.{of_slot, AllFailed, IsHistory, decide-attempt}
use my_tech_pulse.Scheduler.History.{
  Inv, Fresh, StepRows, unchanged, cleaned, added, step_rows, step-Inv, abandon-Inv,
  of_slot-abandon,
}

-- The tables that calls of `step` lead to, for any slots, with any failures and clocks.
pub data Reach : Runs → Type 0 where
  empty : Reach []
  stepped :
      (e : Env) (slot : Time) (first : Trigger) (rows : Runs)
      → Fresh e.fresh_id rows
      → Reach rows
      → Reach (step e slot first rows).0

empty-Inv : Inv []
unfolding of_slot
empty-Inv slot = tt

pub Reach-Inv : (rows : Runs) → Reach rows → Inv rows
Reach-Inv _ empty = empty-Inv
Reach-Inv _ (stepped e slot first rows f r) = step-Inv e slot first rows f (Reach-Inv rows r)

few_rows : (rows : Runs) → IsHistory rows → length rows ≤ max_attempts
few_rows [] h = omega arith
few_rows (r ∷ rows) h = omega (arith, h.1)

-- Over any sequence of calls of `step`, with any failures, clocks and slots, no slot gets more than
-- three runs, its runs are numbered from one in the order of insertion, and each but the last one
-- inserted has failed.
pub at_most_three :
    (rows : Runs) (slot : Time)
    → Reach rows
    → (length (of_slot slot rows) ≤ max_attempts) × IsHistory (of_slot slot rows)
at_most_three rows slot r = let h = Reach-Inv rows r slot in (few_rows (of_slot slot rows) h, h)

abandon_failed : (now : Time) (rows : Runs) → AllFailed rows → abandon now rows ≡ rows
unfolding abandon is_running
abandon_failed now [] f = refl
abandon_failed now (r ∷ rows) f = ground (arith, abandon_failed now rows f.1)

-- A history whose last row is final, succeeded or partial, is left alone by `abandon`.
abandon_final :
    (now : Time) (r : Run) (rows : Runs)
    → is_running r.status ≡ false
    → AllFailed rows
    → abandon now (r ∷ rows) ≡ r ∷ rows
unfolding abandon
abandon_final now r rows q f = ground (arith, abandon_failed now rows f)

push_other :
    (r : Run) (slot : Time) (rows : Runs)
    → r.slot ≢ slot
    → of_slot slot (r ∷ rows) ≡ of_slot slot rows
unfolding of_slot
push_other r slot rows q = ground (arith, ==_iff r.slot slot)

kept :
    (now slot : Time) (rows older : Runs) (r : Run)
    → Inv rows
    → of_slot slot rows ≡ r ∷ older
    → is_running r.status ≡ false
    → of_slot slot (abandon now rows) ≡ r ∷ older
kept now slot rows older r v here still =
    let h : IsHistory (r ∷ older) = subst IsHistory here (v slot) in
    of_slot-abandon slot now rows ∙ ap (abandon now) here ∙ abandon_final now r older still h.2

rows-final :
    (e : Env) (slot other : Time) (rows new older : Runs) (r : Run)
    → StepRows e other rows new
    → Inv rows
    → of_slot slot rows ≡ r ∷ older
    → is_running r.status ≡ false
    → r.status ≢ failed
    → of_slot slot new ≡ of_slot slot rows
rows-final e slot other rows new older r (unchanged q) v here still final = ap (of_slot slot) q
rows-final e slot other rows new older r (cleaned q) v here still final =
    ap (of_slot slot) q ∙ kept e.now slot rows older r v here still ∙ sym here
rows-final e slot other rows new older r (added (n, t, at, _, d, _, q)) v here still final =
    ap (of_slot slot) q
    ∙ push_other n slot (abandon e.now rows) elsewhere
    ∙ kept e.now slot rows older r v here still
    ∙ sym here
  where
    elsewhere : n.slot ≢ slot
    elsewhere same =
        let all : AllFailed (of_slot other (abandon e.now rows)) =
          (decide-attempt other (abandon e.now rows) e.now n.attempt t
            (abandon-Inv e.now rows v other) d).0 in
        let here_all : AllFailed (r ∷ older) =
          subst AllFailed (kept e.now slot rows older r v here still)
            (subst (λ s. AllFailed (of_slot s (abandon e.now rows))) (sym at ∙ same) all) in
        final (here_all.0)

-- Once the last run of a slot has succeeded, also in part, no later call of `step`, for whatever slot,
-- changes the runs of that slot: it is not fetched again.
pub step-final :
    (e : Env) (slot other : Time) (first : Trigger) (rows older : Runs) (r : Run)
    → Fresh e.fresh_id rows
    → Reach rows
    → of_slot slot rows ≡ r ∷ older
    → is_running r.status ≡ false
    → r.status ≢ failed
    → of_slot slot (step e other first rows).0 ≡ of_slot slot rows
step-final e slot other first rows older r f reach here still final =
    rows-final e slot other rows _ older r (step_rows e other first rows f) (Reach-Inv rows reach)
      here still final
