-- ===== src/Scheduler/DueTasks.antt =====
-- The tasks stay in the order of their times, and none that is due stays.
use blobs_db.Base.{
  ℕ, suc, subst, ◌+◌, ◌-◌, ◌/◌, ◌<◌, ◌≡◌, refl, ap, ap₂, Bool, true, false, List, [], ◌∷◌, ◌++◌,
  ◌==◌, ltb, leb, is_empty, all, filter, length, inl, inr, arith, Bool-cases,
}
use blobs_db.Scheduler.{
  ScheduledTask, before_upper_bound, from_upper_bound, run_at, next_task_deadline, post_due_tasks,
}

-- No task is before one that is due later.
abbrev pub Sorted : List ScheduledTask → Type 0
Sorted [] = Unit {0}
Sorted (t ∷ ts) = (all (λ s. leb t.time_point s.time_point) ts ≡ true) × Sorted ts

all-later :
    (time low : ℕ) (ts : List ScheduledTask)
    → ltb time low ≡ true
    → all (λ s. leb low s.time_point) ts ≡ true
    → (filter (λ s. leb s.time_point time) ts ≡ []) × (filter (λ s. ltb time s.time_point) ts ≡ ts)
all-later time low [] h a = (refl, refl)
all-later time low (t ∷ ts) h a = ground (arith, all-later time low ts h)

before_upper_bound-eq-filter :
    (time : ℕ) (ts : List ScheduledTask)
    → Sorted ts
    → (before_upper_bound time ts ≡ filter (λ s. leb s.time_point time) ts)
      × (from_upper_bound time ts ≡ filter (λ s. ltb time s.time_point) ts)
unfolding before_upper_bound from_upper_bound
before_upper_bound-eq-filter time [] v = (refl, refl)
before_upper_bound-eq-filter time (t ∷ ts) v =
    ground (arith, before_upper_bound-eq-filter time ts v.1, all-later time t.time_point ts)

all-filter :
    (p q : ScheduledTask → Bool) (ts : List ScheduledTask)
    → all p ts ≡ true
    → all p (filter q ts) ≡ true
all-filter p q [] a = refl
all-filter p q (t ∷ ts) a = ground (arith, all-filter p q ts)

all-insert :
    (low : ℕ) (t : ScheduledTask) (ts : List ScheduledTask)
    → leb low t.time_point ≡ true
    → all (λ s. leb low s.time_point) ts ≡ true
    → all
        (λ s. leb low s.time_point)
        (before_upper_bound t.time_point ts ++ (t ∷ from_upper_bound t.time_point ts))
      ≡ true
unfolding before_upper_bound from_upper_bound
all-insert low t [] h a = ground arith
all-insert low t (s ∷ ts) h a = ground (arith, all-insert low t ts h)

all-weaken :
    (low high : ℕ) (ts : List ScheduledTask)
    → leb low high ≡ true
    → all (λ s. leb high s.time_point) ts ≡ true
    → all (λ s. leb low s.time_point) ts ≡ true
all-weaken low high [] h a = refl
all-weaken low high (t ∷ ts) h a = ground (arith, all-weaken low high ts h)

insert-Sorted :
    (t : ScheduledTask) (ts : List ScheduledTask)
    → Sorted ts
    → Sorted (before_upper_bound t.time_point ts ++ (t ∷ from_upper_bound t.time_point ts))
unfolding before_upper_bound from_upper_bound
insert-Sorted t [] v = (refl, tt)
insert-Sorted t (s ∷ ts) v = elim (Bool-cases (ltb t.time_point s.time_point)) [
  | inl y ↦ rw y (ground (arith, all-weaken t.time_point s.time_point ts), v)
  | inr n ↦ rw n (all-insert s.time_point t ts (ground arith) v.0, insert-Sorted t ts v.1)
]

all_strict :
    (time low : ℕ) (ts : List ScheduledTask)
    → ltb time low ≡ true
    → all (λ s. leb low s.time_point) ts ≡ true
    → all (λ s. ltb time s.time_point) ts ≡ true
all_strict time low [] h a = refl
all_strict time low (t ∷ ts) h a = ground (arith, all_strict time low ts h)

first_or_not :
    (time : ℕ) (ts : List ScheduledTask)
    → Sorted ts
    → is_empty (before_upper_bound time ts) ≡ all (λ s. ltb time s.time_point) ts
unfolding before_upper_bound
first_or_not time [] v = refl
first_or_not time (t ∷ ts) v = ground (arith, all_strict time t.time_point ts)

-- `RunAt` keeps the tasks in the order of their times: the new one stands behind all that are due
-- before or with it and before all others, which keep their order; and the thread is notified
-- exactly if no task is due before or with the new one.
pub run_at_lem :
    (t : ScheduledTask) (ts : List ScheduledTask)
    → Sorted ts
    → Sorted (run_at t ts).1
      × ((run_at t ts).1
          ≡ filter (λ s. leb s.time_point t.time_point) ts
            ++ (t ∷ filter (λ s. ltb t.time_point s.time_point) ts))
      × ((run_at t ts).0 ≡ all (λ s. ltb t.time_point s.time_point) ts)
unfolding run_at
run_at_lem t ts v =
    let (before, from) = before_upper_bound-eq-filter t.time_point ts v in
    (
      insert-Sorted t ts v,
      ap₂ (λ xs ys. xs ++ (t ∷ ys)) before from,
      first_or_not t.time_point ts v,
    )

-- Each task was due, to the millisecond, at the reading of the clock that was made for it.
abbrev pub Due : (ℕ → ℕ) → ℕ → List ScheduledTask → Type 0
Due clock i [] = Unit {0}
Due clock i (t ∷ ts) = (t.time_point < clock i + 1000000) × Due clock (i + 1) ts

later :
    (clock : ℕ → ℕ) (i n : ℕ) (ts : List ScheduledTask)
    → all (λ s. leb (clock (i + 1 + n) + 1000000) s.time_point) ts ≡ true
    → all (λ s. leb (clock (i + suc n) + 1000000) s.time_point) ts ≡ true
later clock i n ts a =
    subst (λ k. all (λ s. leb (clock k + 1000000) s.time_point) ts ≡ true) (omega arith) a

not_due :
    (clock : ℕ → ℕ) (i : ℕ) (t : ScheduledTask) (ts : List ScheduledTask)
    → (t.time_point - clock i) / 1000000 == 0 ≡ false
    → all (λ s. leb t.time_point s.time_point) ts ≡ true
    → all (λ s. leb (clock (i + 0) + 1000000) s.time_point) (t ∷ ts) ≡ true
not_due clock i t ts n a =
    subst (λ k. all (λ s. leb (clock k + 1000000) s.time_point) (t ∷ ts) ≡ true) {x = i}
      (omega arith) (ground (arith, all-weaken (clock i + 1000000) t.time_point ts))

-- The loop of the scheduler's thread takes tasks off the front of the list only, each of which is due
-- within a millisecond at the reading of the clock for it, and leaves no task that is due within a
-- millisecond at its last reading.
pub post_due_tasks_lem :
    (clock : ℕ → ℕ) (i : ℕ) (ts : List ScheduledTask)
    → Sorted ts
    → ((post_due_tasks clock i ts).0 ++ (post_due_tasks clock i ts).1 ≡ ts)
      × Due clock i (post_due_tasks clock i ts).0
      × (all
            (λ s. leb (clock (i + length (post_due_tasks clock i ts).0) + 1000000) s.time_point)
            (post_due_tasks clock i ts).1
          ≡ true)
unfolding post_due_tasks next_task_deadline
post_due_tasks_lem clock i [] v = (refl, tt, refl)
post_due_tasks_lem clock i (t ∷ ts) v =
    let (all_there, due, rest) = post_due_tasks_lem clock (i + 1) ts v.1 in
    elim (Bool-cases ((t.time_point - clock i) / 1000000 == 0)) [
      | inl y ↦ rw y (ap (λ xs. t ∷ xs) all_there, (ground arith, due), later clock i _ _ rest)
      | inr n ↦ rw n (refl, tt, not_due clock i t ts n v.0)
    ]
