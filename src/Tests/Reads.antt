-- ===== src/Tests/Reads.antt =====
-- Client 2 waits for a lock that client 1 holds, and client 1 asks for one that client 2 holds.
use blobs_db.Base.{
  ℕ, ◌≡◌, refl, Bool, true, false, ◌&&◌, none, some, List, [], ◌∷◌, ◌++◌, map, any, Distinct, ◌==◌,
  if◌then◌else◌,
}
use blobs_db.BlobLocation.{BlobLocation, at, eq}
use blobs_db.Lock.{Lock, collect_conflicting_clients}
use blobs_db.LockUtil.{Directory, for_each_lock_in_message, all_locks_in_message}
use blobs_db.LockTable.{lookup}
use blobs_db.ReadQueue.{
  Read, QueuedMessage, DeadlockInfo, queue_read_check_deadlock, check_for_lock_timeouts,
  timeout_time,
}
use blobs_db.ReadQueue.Blocking.{blocks_mutually}
use blobs_db.ReadQueue.Deadlocks.{queue_read_reports_deadlocks}
use blobs_db.ReadQueue.Waiting.{is_due, queued_read_times_out}

abbrev first : BlobLocation
first = at 1 0 5

abbrev second : BlobLocation
second = at 1 0 6

abbrev empty_database : Directory
empty_database = record { clusters_of = λ _. none; blobs_of = λ _ _. none }

abbrev all_active : ℕ → Bool
all_active c = false

abbrev two_writers : List Lock
two_writers =
    record { location = first; read = []; write = some 1 }
    ∷ record { location = second; read = []; write = some 2 }
    ∷ []

abbrev read_of_1 : Read
read_of_1 = record {
  client = 1;
  needs_write_lock = true;
  locations = second ∷ [];
  lock_timeout_ms = 500;
}

abbrev read_of_2 : Read
read_of_2 = record {
  client = 2;
  needs_write_lock = false;
  locations = first ∷ [];
  lock_timeout_ms = 0;
}

abbrev waiting : List QueuedMessage
waiting = record { message = read_of_2; lock_timeout_time = none } ∷ []

queue_read_reports_deadlocks_example :
    (ds : List DeadlockInfo) × (queue_read_check_deadlock all_active empty_database two_writers 1000
        read_of_1 waiting
      ≡ some (
        ds,
        waiting
            ++ (record { message = read_of_1; lock_timeout_time = timeout_time 1000 read_of_1 }
                ∷ []),
      ))
    × ((c : ℕ)
        → any (λ d. d.request1.client == c) ds
          ≡ any
              (λ q.
                q.message.client == c
                && blocks_mutually all_active empty_database two_writers read_of_1 q.message)
              waiting)
    × Distinct (map (λ d. d.request1.client) ds)
unfolding for_each_lock_in_message
queue_read_reports_deadlocks_example =
    queue_read_reports_deadlocks all_active empty_database two_writers 1000 read_of_1 waiting refl
      (refl, tt)

abbrev deadlock : DeadlockInfo
deadlock = record {
  request0 = record { location = second; client = 1; write_lock = true };
  request1 = record { location = first; client = 2; write_lock = false };
}

abbrev both_waiting : List QueuedMessage
both_waiting =
    record { message = read_of_2; lock_timeout_time = none }
    ∷ record { message = read_of_1; lock_timeout_time = some 1500 }
    ∷ []

read_of_1_is_queued :
    queue_read_check_deadlock all_active empty_database two_writers 1000 read_of_1 waiting
    ≡ some (deadlock ∷ [], both_waiting)
unfolding queue_read_check_deadlock for_each_lock_in_message all_locks_in_message lookup eq
    collect_conflicting_clients
read_of_1_is_queued = refl

queued_read_times_out_example : check_for_lock_timeouts 1600 both_waiting ≡ (
    if is_due 1000 1600 read_of_1
    then (
      (check_for_lock_timeouts 1600 waiting).0 ++ (read_of_1 ∷ []),
      (check_for_lock_timeouts 1600 waiting).1,
    )
    else (
      (check_for_lock_timeouts 1600 waiting).0,
      (check_for_lock_timeouts 1600 waiting).1
          ++ (record { message = read_of_1; lock_timeout_time = timeout_time 1000 read_of_1 } ∷ []),
    ))
queued_read_times_out_example =
    queued_read_times_out all_active empty_database two_writers 1000 1600 read_of_1 waiting
      both_waiting (deadlock ∷ []) read_of_1_is_queued
