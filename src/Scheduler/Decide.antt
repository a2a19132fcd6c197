-- ===== src/Scheduler/Decide.antt =====
-- What `decide` makes of a well-formed history of a slot.
use my_tech_pulse.Base.{
  ℕ, ◌+◌, ◌<◌, ◌≡◌, refl, sym, ap, ◌∙◌, Option, none, some, [], ◌∷◌, ltb, ◌==◌, if◌then◌else◌, Time,
  max, length, arith,
}
use my_tech_pulse.Scheduler.{
  Run, Runs, failed, insert_run, runs_for_slot, attempt_at, largest_attempt, decide_after, decide,
  max_attempts, retry_delay,
}

-- The rows of the slot, the latest insertion first.
unfoldable pub of_slot : Time → Runs → Runs
of_slot slot [] = []
of_slot slot (r ∷ rows) = let rest = of_slot slot rows in if r.slot == slot then r ∷ rest else rest

abbrev pub AllFailed : Runs → Type 0
AllFailed [] = Unit {0}
AllFailed (r ∷ rows) = (r.status ≡ failed) × AllFailed rows

-- Attempts are numbered from one and there are three at most; each but the newest has failed.
abbrev pub IsHistory : Runs → Type 0
IsHistory [] = Unit {0}
IsHistory (r ∷ rows) =
    (r.attempt ≡ length rows + 1) × (length rows < max_attempts) × AllFailed rows × IsHistory rows

abbrev raise : ℕ → Run → ℕ
raise m r = if ltb m r.attempt then r.attempt else m

raise_comm : (m : ℕ) (r s : Run) → raise (raise m s) r ≡ raise (raise m r) s
raise_comm m r s = ground arith

largest_attempt-insert_run :
    (m : ℕ) (r : Run) (rows : Runs)
    → largest_attempt m (insert_run r rows) ≡ largest_attempt m (r ∷ rows)
unfolding insert_run largest_attempt
largest_attempt-insert_run m r [] = refl
largest_attempt-insert_run m r (s ∷ rows) = ground (
  arith,
  largest_attempt-insert_run (raise m s) r rows,
  ap (λ k. largest_attempt k rows) (raise_comm m r s),
)

length-insert_run : (r : Run) (rows : Runs) → length (insert_run r rows) ≡ length rows + 1
unfolding insert_run
length-insert_run r [] = omega arith
length-insert_run r (s ∷ rows) = ground (arith, length-insert_run r rows)

pub length-runs_for_slot :
    (slot : Time) (rows : Runs) → length (runs_for_slot slot rows) ≡ length (of_slot slot rows)
unfolding runs_for_slot of_slot
length-runs_for_slot slot [] = refl
length-runs_for_slot slot (r ∷ rows) =
    ground (arith, length-runs_for_slot slot rows, length-insert_run r (runs_for_slot slot rows))

-- The order of the rows does not matter to the largest attempt.
pub largest_attempt-runs_for_slot :
    (m : ℕ) (slot : Time) (rows : Runs)
    → largest_attempt m (runs_for_slot slot rows) ≡ largest_attempt m (of_slot slot rows)
unfolding runs_for_slot of_slot largest_attempt
largest_attempt-runs_for_slot m slot [] = refl
largest_attempt-runs_for_slot m slot (r ∷ rows) = ground (
  arith,
  largest_attempt-insert_run m r (runs_for_slot slot rows),
  largest_attempt-runs_for_slot m slot rows,
  largest_attempt-runs_for_slot (raise m r) slot rows,
)

pub largest_attempt-history :
    (m k : ℕ) (rows : Runs)
    → IsHistory rows
    → largest_attempt m rows ≡ some k
    → AllFailed rows × (k ≡ max m (length rows))
unfolding largest_attempt
largest_attempt-history m k [] h e = (tt, ground arith)
largest_attempt-history m k (r ∷ rows) h e =
    ground (arith, largest_attempt-history (raise m r) k rows h.3)

pub decide_after-attempt :
    (r : Run) (o : Option ℕ) (now : Time) (a : ℕ) (t : Time)
    → decide_after r o now ≡ attempt_at a t
    → (k : ℕ) × (o ≡ some k)
      × (a ≡ k + 1)
      × (k < max_attempts)
      × (t ≡ (if r.finished_at == 0 then now else r.finished_at) + retry_delay k)
unfolding decide_after
decide_after-attempt r none now a t e = cc
decide_after-attempt r (some k) now a t e = (k, refl, ground arith, ground arith, ground arith)

decide_cases :
    (rows : Runs) (now : Time) (a : ℕ) (t : Time)
    → decide rows now ≡ attempt_at a t
    → (k : ℕ) × (largest_attempt 0 rows ≡ some k) × (a ≡ k + 1) × (k < max_attempts)
unfolding decide largest_attempt
decide_cases [] now a t e = (0, refl, ground arith, omega arith)
decide_cases (r ∷ rows) now a t e =
    let (k, o, b, c, _) = decide_after-attempt r (largest_attempt 0 (r ∷ rows)) now a t e in
    (k, o, b, c)

-- On a well-formed history `decide` makes an attempt only where all before it failed and fewer than
-- three were made, and it is the next one.
pub decide-attempt :
    (slot : Time) (rows : Runs) (now : Time) (a : ℕ) (t : Time)
    → IsHistory (of_slot slot rows)
    → decide (runs_for_slot slot rows) now ≡ attempt_at a t
    → AllFailed (of_slot slot rows)
      × (a ≡ length (of_slot slot rows) + 1)
      × (length (of_slot slot rows) < max_attempts)
decide-attempt slot rows now a t h e =
    let (k, largest, next, few) = decide_cases (runs_for_slot slot rows) now a t e in
    let (all, same) =
      largest_attempt-history 0 k (of_slot slot rows) h
        (sym (largest_attempt-runs_for_slot 0 slot rows) ∙ largest) in
    (all, omega (arith, same, next), omega (arith, same, few))
