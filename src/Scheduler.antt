-- ===== src/Scheduler.antt =====
-- server/internal/articlefetch/scheduler.go, on the table `fetch_runs` as the queries of
-- server/db/queries/articles.sql and server/internal/store/articles.go use it. Statuses are the four
-- that the code writes; a NULL `finished_at` is 0, Go's zero time, as the scheduler reads it. What the
-- world does in one call of `step` is an `Env`: the lock, the clock, which queries fail, how the job
-- ends, and whether the context is done by then.
pub mod Decide
pub mod History
pub mod Progress
pub mod Reachable
pub mod Spacing
mod Tests
use my_tech_pulse.Base.{
  ℕ, ◌+◌, ◌*◌, Bool, true, false, ◌&&◌, ◌||◌, not, Option, none, some, [], ◌∷◌, List, ltb, leb,
  ◌==◌, if◌then◌else◌, Time, Duration, minute, max,
}
use my_tech_pulse.Slots.{next_slot}

pub data Status : Type 0 where
  running succeeded partial failed : Status

pub data Trigger : Type 0 where
  scheduled catchup retry : Trigger

-- A row of `fetch_runs`, without the counts and the message.
pub record Run : Type 0 where
  pub id : ℕ
  pub slot : Time
  pub trigger : Trigger
  pub attempt : ℕ
  pub started_at : Time
  pub finished_at : Time
  pub status : Status

-- The rows, the latest insertion first.
abbrev pub Runs : Type 0
Runs = List Run

abbrev pub max_attempts : ℕ
max_attempts = 3

unfoldable pub retry_delay : ℕ → Duration
retry_delay attempt = if leb attempt 1 then 15 * minute else 30 * minute

-- `InsertFetchRun`: the row is running, with a fresh id.
unfoldable pub start_run : Time → Trigger → ℕ → Time → ℕ → Runs → Runs
start_run slot trigger attempt now id rows =
    record {
      id = id;
      slot = slot;
      trigger = trigger;
      attempt = attempt;
      started_at = now;
      finished_at = 0;
      status = running;
    }
    ∷ rows

-- `FinishFetchRun`.
unfoldable pub finish_run : ℕ → Time → Status → Runs → Runs
finish_run id now status [] = []
finish_run id now status (r ∷ rows) =
    (if r.id == id then record r { finished_at = now; status = status } else r)
    ∷ finish_run id now status rows

unfoldable pub is_running : Status → Bool
is_running running = true
is_running succeeded = false
is_running partial = false
is_running failed = false

-- `AbandonStaleFetchRuns`.
unfoldable pub abandon : Time → Runs → Runs
unfolding is_running
abandon now [] = []
abandon now (r ∷ rows) =
    (if is_running r.status then record r { finished_at = now; status = failed } else r)
    ∷ abandon now rows

-- `ORDER BY started_at DESC, id DESC`: the order of two rows.
unfoldable pub comes_first : Run → Run → Bool
comes_first r s = ltb s.started_at r.started_at || (r.started_at == s.started_at && leb s.id r.id)

unfoldable pub insert_run : Run → Runs → Runs
unfolding comes_first
insert_run r [] = r ∷ []
insert_run r (s ∷ rows) = if comes_first r s then r ∷ s ∷ rows else s ∷ insert_run r rows

-- `ListFetchRunsForSlot`.
unfoldable pub runs_for_slot : Time → Runs → Runs
unfolding insert_run
runs_for_slot slot [] = []
runs_for_slot slot (r ∷ rows) =
    let rest = runs_for_slot slot rows in if r.slot == slot then insert_run r rest else rest

-- `decision`: nothing to do, or the attempt to make and the time to make it at.
pub data Decision : Type 0 where
  skip : Decision
  attempt_at : ℕ → Time → Decision

-- The loop of `decide`: the largest attempt, or none where a row has not failed.
unfoldable pub largest_attempt : ℕ → Runs → Option ℕ
largest_attempt m [] = some m
largest_attempt m (r ∷ rows) =
    let rest = largest_attempt (if ltb m r.attempt then r.attempt else m) rows in
    elim r.status [ failed ↦ rest | running ↦ none | succeeded ↦ none | partial ↦ none ]

-- What `decide` makes of the largest attempt and the newest row.
unfoldable pub decide_after : Run → Option ℕ → Time → Decision
decide_after newest none now = skip
decide_after newest (some m) now =
    if leb max_attempts m
    then skip
    else attempt_at (m + 1)
        ((if newest.finished_at == 0 then now else newest.finished_at) + retry_delay m)

unfoldable pub decide : Runs → Time → Decision
decide [] now = attempt_at 1 0
decide (r ∷ rows) now = decide_after r (largest_attempt 0 (r ∷ rows)) now

-- How `TryLock` ends.
pub data Lock : Type 0 where
  got busy lock_error : Lock

pub record Env : Type 0 where
  pub lock : Lock
  pub now : Time
  pub abandon_ok : Bool
  pub read_ok : Bool
  pub start_ok : Bool
  -- How `Job.Execute` ends, and when.
  pub result : Status
  pub finished : Time
  pub finish_ok : Bool
  -- `ctx.Err() != nil` at the end of `step`.
  pub cancelled : Bool
  -- The id that the database gives to a new row.
  pub fresh_id : ℕ

unfoldable pub is_failed : Status → Bool
is_failed failed = true
is_failed running = false
is_failed succeeded = false
is_failed partial = false

-- `step` from `StartRun` on: the rows, and the time of the retry if there is one.
unfoldable pub execute : Env → Time → Trigger → ℕ → Runs → Runs × Option Time
execute e slot first attempt rows =
    if not e.start_ok
    then (rows, none)
    else let trigger = if ltb 1 attempt then retry else first in
      let started = start_run slot trigger attempt e.now e.fresh_id rows in
      (
        if e.finish_ok then finish_run e.fresh_id e.finished e.result started else started,
        if is_failed e.result && ltb attempt max_attempts && not e.cancelled
            then some (e.finished + retry_delay attempt)
            else none,
      )

-- What `step` does after `decide`.
unfoldable pub follow : Env → Time → Trigger → Decision → Runs → Runs × Option Time
follow e slot first skip rows = (rows, none)
follow e slot first (attempt_at attempt not_before) rows =
    if ltb e.now not_before then (rows, some not_before) else execute e slot first attempt rows

-- `step` under the lock, up to `StartRun`.
unfoldable pub locked : Env → Time → Trigger → Runs → Runs × Option Time
locked e slot first rows =
    if not e.abandon_ok
    then (rows, none)
    else let stale = abandon e.now rows in
      if not e.read_ok
      then (stale, none)
      else follow e slot first (decide (runs_for_slot slot stale) e.now) stale

-- `step` once `TryLock` has returned.
unfoldable pub after_lock : Lock → Env → Time → Trigger → Runs → Runs × Option Time
after_lock lock_error e slot first rows = (rows, none)
after_lock busy e slot first rows = (rows, none)
after_lock got e slot first rows = locked e slot first rows

unfoldable pub step : Env → Time → Trigger → Runs → Runs × Option Time
step e slot first rows = after_lock e.lock e slot first rows
