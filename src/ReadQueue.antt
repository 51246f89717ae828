-- ===== src/ReadQueue.antt =====
-- The queued reads of ServerLib/Database.cpp: `queuedReads`, the messages that wait for locks, with
-- the check for deadlocks, the lock timeouts and the end of a client's transaction. The wall clock
-- enters as the number `now` of milliseconds, and the task that the `Scheduler` gets as the time at
-- which it is due. `none` as a result stands for a failed assertion of LockUtil.hpp.
pub mod Blocking
pub mod Deadlocks
pub mod Waiting
use blobs_db.Base.{
  ℕ, ◌+◌, ◌^◌, Bool, true, false, not, ◌&&◌, ◌||◌, Option, none, some, List, [], ◌∷◌, ◌++◌, ◌==◌,
  ltb, leb, if◌then◌else◌, map, any, find, filter, contains,
}
use blobs_db.BlobLocation.{BlobLocation}
use blobs_db.Lock.{Lock, collect_conflicting_clients}
use blobs_db.LockUtil.{Directory, for_each_lock_in_message, all_locks_in_message}
use blobs_db.LockTable.{lookup, release_locks}

-- What the queue reads of a `BlobsRead` message; `lock_timeout_ms` is the `int32_t` modulo 2^32.
pub record Read : Type 0 where
  pub client : ℕ
  pub needs_write_lock : Bool
  pub locations : List BlobLocation
  pub lock_timeout_ms : ℕ

-- `QueuedMessage`
pub record QueuedMessage : Type 0 where
  pub message : Read
  pub lock_timeout_time : Option ℕ

pub record LockConflict : Type 0 where
  pub location : BlobLocation
  pub blocked_by : ℕ

-- `DeadlockInfo::Request`, and `DeadlockInfo` with its two requests
pub record Request : Type 0 where
  pub location : BlobLocation
  pub client : ℕ
  pub write_lock : Bool

pub record DeadlockInfo : Type 0 where
  pub request0 : Request
  pub request1 : Request

-- The clients that conflict with the message at a location.
unfoldable pub conflicts_at : (ℕ → Bool) → Read → List Lock → BlobLocation → List ℕ
conflicts_at can_revoke m locks l = elim (lookup l locks) [
  | none ↦ []
  | some k ↦ collect_conflicting_clients can_revoke m.client m.needs_write_lock k
]

unfoldable pub conflicts_on : (ℕ → Bool) → Read → List Lock → List BlobLocation → List LockConflict
unfolding conflicts_at
conflicts_on can_revoke m locks [] = []
conflicts_on can_revoke m locks (l ∷ ls) =
    map (λ c. record { location = l; blocked_by = c }) (conflicts_at can_revoke m locks l)
    ++ conflicts_on can_revoke m locks ls

unfoldable pub collect_lock_conflicts :
    (ℕ → Bool) → Directory → Read → List Lock → Option (List LockConflict)
unfolding conflicts_on
collect_lock_conflicts can_revoke db m locks = elim (for_each_lock_in_message db m.locations) [
  | none ↦ none
  | some visited ↦ some (conflicts_on can_revoke m locks visited)
]

-- The lambda of `FindLockConflictWith`, whose captured state is `conflictLocation`.
unfoldable pub continue_search :
    (ℕ → Bool)
    → Read
    → ℕ
    → List Lock
    → BlobLocation
    → Option BlobLocation
    → Bool × Option BlobLocation
unfolding conflicts_at
continue_search can_revoke m other locks l found =
    if contains (conflicts_at can_revoke m locks l) other then (false, some l) else (true, found)

unfoldable pub find_lock_conflict_with :
    (ℕ → Bool) → Directory → Read → ℕ → List Lock → Option (Option BlobLocation)
unfolding continue_search
find_lock_conflict_with can_revoke db m other locks =
    elim (all_locks_in_message (continue_search can_revoke m other locks) db m.locations none) [
      | none ↦ none
      | some (_, found) ↦ some found
    ]

abbrev pub deadlock_of : Read → Read → LockConflict → BlobLocation → DeadlockInfo
deadlock_of m q conflict l = record {
  request0 = record {
    location = conflict.location;
    client = m.client;
    write_lock = m.needs_write_lock;
  };
  request1 = record { location = l; client = q.client; write_lock = q.needs_write_lock };
}

-- The body of the loop over the queued messages: the deadlocks so far, with the one of `q` added.
unfoldable pub check_queued :
    (ℕ → Bool)
    → Directory
    → List Lock
    → Read
    → List LockConflict
    → Read
    → List DeadlockInfo
    → Option (List DeadlockInfo)
unfolding find_lock_conflict_with
check_queued can_revoke db locks m conflicts q deadlocks =
    if any (λ d. d.request1.client == q.client) deadlocks
    then some deadlocks
    else elim (find (λ c. c.blocked_by == q.client) conflicts) [
      | none ↦ some deadlocks
      | some conflict ↦ elim (find_lock_conflict_with can_revoke db q m.client locks) [
        | none ↦ none
        | some none ↦ some deadlocks
        | some (some l) ↦ some (deadlocks ++ (deadlock_of m q conflict l ∷ []))
      ]
    ]

unfoldable pub check_all_queued :
    (ℕ → Bool)
    → Directory
    → List Lock
    → Read
    → List LockConflict
    → List QueuedMessage
    → List DeadlockInfo
    → Option (List DeadlockInfo)
unfolding check_queued
check_all_queued can_revoke db locks m conflicts [] deadlocks = some deadlocks
check_all_queued can_revoke db locks m conflicts (q ∷ queue) deadlocks =
    elim (check_queued can_revoke db locks m conflicts q.message deadlocks) [
      | none ↦ none
      | some more ↦ check_all_queued can_revoke db locks m conflicts queue more
    ]

-- The time at which the message is due, if its timeout is positive as an `int32_t`.
unfoldable pub timeout_time : ℕ → Read → Option ℕ
timeout_time now m =
    if ltb 0 m.lock_timeout_ms && ltb m.lock_timeout_ms (2 ^ 31)
    then some (now + m.lock_timeout_ms)
    else none

-- `QueueReadCheckDeadlock`: the deadlocks and the queue afterwards. The task that is scheduled is
-- due at the `lock_timeout_time` of the message.
unfoldable pub queue_read_check_deadlock :
    (ℕ → Bool)
    → Directory
    → List Lock
    → ℕ
    → Read
    → List QueuedMessage
    → Option (List DeadlockInfo × List QueuedMessage)
unfolding collect_lock_conflicts check_all_queued timeout_time
queue_read_check_deadlock can_revoke db locks now m queue =
    elim (collect_lock_conflicts can_revoke db m locks) [
      | none ↦ none
      | some conflicts ↦ elim (check_all_queued can_revoke db locks m conflicts queue []) [
        | none ↦ none
        | some deadlocks ↦ some (
          deadlocks,
          queue ++ (record { message = m; lock_timeout_time = timeout_time now m } ∷ []),
        )
      ]
    ]

-- `AbortClientTransaction`: the locks and the queue afterwards.
unfoldable pub abort_client_transaction :
    ℕ → List BlobLocation → List Lock → List QueuedMessage → Option (List Lock × List QueuedMessage)
abort_client_transaction client to_release locks queue =
    elim (release_locks client to_release locks) [
      | none ↦ none
      | some locks' ↦ some (locks', filter (λ q. not (q.message.client == client)) queue)
    ]

timed_out : ℕ → QueuedMessage → Bool
timed_out now q = elim q.lock_timeout_time [ none ↦ false | some t ↦ leb t now ]

-- `CheckForLockTimeouts`: the messages that `Server::ReadTimedOut` is told of, and the queue.
unfoldable pub check_for_lock_timeouts : ℕ → List QueuedMessage → List Read × List QueuedMessage
unfolding timed_out
check_for_lock_timeouts now [] = ([], [])
check_for_lock_timeouts now (q ∷ queue) =
    let (told, rest) = check_for_lock_timeouts now queue in
    if timed_out now q then (q.message ∷ told, rest) else (told, q ∷ rest)
