-- ===== src/Scheduler.antt =====
-- ServerLib/Scheduler.cpp: the list of scheduled tasks. A time point is a number of nanoseconds of the
-- steady clock, a task a number. The threads with their mutex and the completion port are left out:
-- the tasks that are posted are returned, in order, and the readings of the clock are a parameter.
pub mod DueTasks
use blobs_db.Base.{
  ℕ, ◌+◌, ◌-◌, ◌/◌, Bool, true, false, Option, none, some, List, [], ◌∷◌, ◌++◌, ◌==◌, ltb, leb,
  is_empty, if◌then◌else◌,
}

pub record ScheduledTask : Type 0 where
  pub task : ℕ
  pub time_point : ℕ

-- The tasks before `upper_bound` of the time point, and those from it on.
unfoldable pub before_upper_bound : ℕ → List ScheduledTask → List ScheduledTask
before_upper_bound time [] = []
before_upper_bound time (t ∷ ts) =
    let rest = before_upper_bound time ts in if ltb time t.time_point then [] else t ∷ rest

unfoldable pub from_upper_bound : ℕ → List ScheduledTask → List ScheduledTask
from_upper_bound time [] = []
from_upper_bound time (t ∷ ts) = if ltb time t.time_point then t ∷ ts else from_upper_bound time ts

-- `RunAt`: whether the scheduler's thread is notified, and the tasks.
unfoldable pub run_at : ScheduledTask → List ScheduledTask → Bool × List ScheduledTask
run_at t ts = (
  is_empty (before_upper_bound t.time_point ts),
  before_upper_bound t.time_point ts ++ (t ∷ from_upper_bound t.time_point ts),
)

-- `NextTaskDeadline` in whole milliseconds. Where the source's count is negative this is zero: the
-- count is only asked to be positive.
unfoldable pub next_task_deadline : ℕ → List ScheduledTask → Option ℕ
next_task_deadline now [] = none
next_task_deadline now (t ∷ ts) = some ((t.time_point - now) / 1000000)

-- The inner loop of `SchedulerThreadMain`, which reads the clock once for each task that it looks at:
-- the tasks that it posts and those that stay, from the `i`th reading on.
unfoldable pub post_due_tasks :
    (ℕ → ℕ) → ℕ → List ScheduledTask → List ScheduledTask × List ScheduledTask
unfolding next_task_deadline
post_due_tasks clock i [] = ([], [])
post_due_tasks clock i (t ∷ ts) =
    let (posted, left) = post_due_tasks clock (i + 1) ts in
    elim (next_task_deadline (clock i) (t ∷ ts)) [
      | none ↦ ([], t ∷ ts)
      | some ms ↦ if ms == 0 then (t ∷ posted, left) else ([], t ∷ ts)
    ]
