-- ===== src/Tests/Schedule.antt =====
-- Two scheduled tasks, a third one, and a clock that gains half a second at each reading.
use blobs_db.Base.{ℕ, ◌+◌, ◌*◌, ◌≡◌, refl, List, [], ◌∷◌, ◌++◌, ltb, leb, all, filter}
use blobs_db.Scheduler.{ScheduledTask, run_at, post_due_tasks, next_task_deadline}
use blobs_db.Scheduler.DueTasks.{Sorted, run_at_lem}

abbrev first : ScheduledTask
first = record { task = 1; time_point = 1000000000 }

abbrev second : ScheduledTask
second = record { task = 2; time_point = 3000000000 }

abbrev third : ScheduledTask
third = record { task = 3; time_point = 1000000000 }

abbrev scheduled : List ScheduledTask
scheduled = first ∷ second ∷ []

scheduled-Sorted : Sorted scheduled
scheduled-Sorted = (refl, (refl, tt))

abbrev clock : ℕ → ℕ
clock i = 1000000000 + i * 500000000

run_at_lem_example :
    Sorted (run_at third scheduled).1
    × ((run_at third scheduled).1
        ≡ filter (λ s. leb s.time_point third.time_point) scheduled
          ++ (third ∷ filter (λ s. ltb third.time_point s.time_point) scheduled))
    × ((run_at third scheduled).0 ≡ all (λ s. ltb third.time_point s.time_point) scheduled)
run_at_lem_example = run_at_lem third scheduled scheduled-Sorted

first_is_posted : post_due_tasks clock 0 scheduled ≡ (first ∷ [], second ∷ [])
unfolding post_due_tasks next_task_deadline
first_is_posted = refl
