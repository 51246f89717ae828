-- ===== src/Tests/Clients.antt =====
-- The clients of the lock tests with the entries that the server keeps for them.
use blobs_db.Base.{
  ℕ, ◌+◌, ◌≤◌, ◌≡◌, refl, Bool, true, false, not, ◌&&◌, some, List, [], ◌∷◌, ◌==◌, if◌then◌else◌,
  length, map, All, arith,
}
use blobs_db.Base.Sums.{sum}
use blobs_db.BlobLocation.{BlobLocation, eq, lt, le}
use blobs_db.Lock.{Lock, owns_write_lock}
use blobs_db.LockTable.{Revocation, lookup}
use blobs_db.LockTable.Lookup.{IsValid, holds_at}
use blobs_db.ClientLocks.{
  DatabaseLocks, BeginEntry, BeginResponse, locks_in, locks_to_send, has, revoke_sticky_locks,
  acquire_client_locks, release_deleted_locks, release_all_locks_for_database, begin_entry,
  total_locks, construct_transaction_begin_response,
}
use blobs_db.ClientLocks.Agreement.{Agrees}
use blobs_db.ClientLocks.Acquiring.{acquire_client_locks_agree}
use blobs_db.ClientLocks.Releasing.{release_all_locks_for_database_lem, release_deleted_locks_agree}
use blobs_db.ClientLocks.Response.{begin_entry-update_locks}
use blobs_db.ClientLocks.BeginMessage.{
  AgreesIfOpen, IsCounted, TellsNothing, databases_of, open_ids, begin_response_fills_message,
}
use blobs_db.HeldLocks.{HeldLocks, update_locks, release_lock_range}
use blobs_db.HeldLocks.Updates.{release_lock_range_lem}
use blobs_db.Tests.Locks.{
  first, second, table, table-IsValid, one_cluster, only_client_1_is_idle, first_is_visited,
}

abbrev with_locks : List BlobLocation → DatabaseLocks
with_locks ls = record { database = some 0; locks = ls; revoked_locks = []; is_mvcc = false }

-- Clients 1 and 2 have one lock each.
abbrev entry_of : ℕ → DatabaseLocks
entry_of c =
    if c == 1
    then with_locks (first ∷ [])
    else if c == 2
    then with_locks (second ∷ [])
    else with_locks []

entry_of-Agrees : (c : ℕ) → Agrees c table (entry_of c)
unfolding lookup eq owns_write_lock
entry_of-Agrees c = record {
  held = λ l. ground arith;
  known = λ l h. ground arith;
  distinct = ground arith;
  revoked_distinct = ground arith;
}

-- Client 3 takes the sticky lock of client 1 over.
acquire_client_locks_agree_example :
    (answer : Bool) × (revoked : List Revocation) × (table' : List Lock) × (d' : DatabaseLocks)
    × (acquire_client_locks only_client_1_is_idle one_cluster 3 true
          (first ∷ [])
          (table, entry_of 3)
        ≡ some (answer, revoked, table', d'))
    × ((c' : ℕ)
        → Agrees c' table' (if c' == 3 then d' else revoke_sticky_locks c' revoked (entry_of c')))
acquire_client_locks_agree_example =
    acquire_client_locks_agree only_client_1_is_idle one_cluster 3 true (first ∷ []) (first ∷ [])
      table entry_of first_is_visited table-IsValid entry_of-Agrees refl

release_all_locks_for_database_lem_example :
    (table' : List Lock) × (release_all_locks_for_database 1 (table, entry_of 1)
      ≡ some (table', record (entry_of 1) { locks = []; revoked_locks = [] }))
    × IsValid table'
    × ((c' : ℕ) (l : BlobLocation) → holds_at c' l table' ≡ (holds_at c' l table && not (c' == 1)))
release_all_locks_for_database_lem_example =
    release_all_locks_for_database_lem 1 table (entry_of 1) table-IsValid (entry_of-Agrees 1)
      (omega arith)

release_deleted_locks_agree_example :
    (table' : List Lock) × (d' : DatabaseLocks) × (release_deleted_locks
        (eq second)
        2
        (table, entry_of 2)
      ≡ some (table', d'))
    × IsValid table'
    × ((l : BlobLocation) → holds_at 2 l table' ≡ (holds_at 2 l table && not (eq second l)))
    × ((c' : ℕ) → Agrees c' table' (if c' == 2 then d' else entry_of c'))
release_deleted_locks_agree_example =
    release_deleted_locks_agree (eq second) 2 table entry_of table-IsValid entry_of-Agrees refl

-- Client 1 has lost a second lock, and does not know it yet.
abbrev half_revoked : DatabaseLocks
half_revoked = record {
  database = some 0;
  locks = first ∷ second ∷ [];
  revoked_locks = second ∷ [];
  is_mvcc = false;
}

half_revoked-Agrees : Agrees 1 table half_revoked
unfolding lookup eq owns_write_lock
half_revoked-Agrees = record {
  held = λ l. ground arith;
  known = λ l h. ground arith;
  distinct = (refl, (refl, tt));
  revoked_distinct = (refl, tt);
}

-- The client library's side of it.
abbrev held_by_1 : HeldLocks
held_by_1 = record { read = first ∷ second ∷ []; write = [] }

few_to_send : locks_to_send half_revoked ≤ 65535
few_to_send = omega arith

begin_entry-update_locks_example :
    (e : BeginEntry) × (d' : DatabaseLocks) × (begin_entry half_revoked ≡ some (e, d'))
    × ((l : BlobLocation)
        → (has l (update_locks e.keep (locks_in e) held_by_1).read
            ≡ (has l held_by_1.read && holds_at 1 l table))
          × (has l (update_locks e.keep (locks_in e) held_by_1).write ≡ (
              has l held_by_1.write && holds_at 1 l table && not (e.keep && has l held_by_1.read))))
    × Agrees 1 table d'
    × (d'.revoked_locks ≡ [])
    × (length (locks_in e) + length (locks_in e) ≤ length half_revoked.locks)
begin_entry-update_locks_example =
    begin_entry-update_locks 1 table half_revoked held_by_1 half_revoked-Agrees (omega arith) refl
      few_to_send (λ l. ground arith)

abbrev tables : ℕ → List Lock
tables _ = table

nothing_to_send : total_locks (half_revoked ∷ []) ≤ 65535
unfolding total_locks
nothing_to_send = omega arith

begin_response_fills_message_example :
    (m : BeginResponse) × (ds' : List DatabaseLocks) × (construct_transaction_begin_response
        (half_revoked ∷ [])
      ≡ some (m, ds'))
    × (map (λ (e : ℕ × BeginEntry). e.0) m.entries ≡ open_ids 0 (half_revoked ∷ []))
    × (m.room_for_databases ≡ length m.entries)
    × All IsCounted m.entries
    × (sum (λ (e : ℕ × BeginEntry). e.1.n_locks) m.entries ≡ m.room_for_locks)
    × (databases_of ds' ≡ databases_of (half_revoked ∷ []))
    × All (AgreesIfOpen 1 tables) ds'
    × All TellsNothing ds'
begin_response_fills_message_example =
    begin_response_fills_message 1 tables (half_revoked ∷ []) (omega arith)
      ((λ db o. half_revoked-Agrees), tt) (omega arith) nothing_to_send

first_is_lower : (lt first second && true) ≡ true
unfolding lt
first_is_lower = refl

release_lock_range_lem_example :
    (has second (release_lock_range first second held_by_1).read
      ≡ (has second held_by_1.read && not (le first second && le second second)))
    × (has second (release_lock_range first second held_by_1).write
        ≡ (has second held_by_1.write && not (le first second && le second second)))
release_lock_range_lem_example =
    release_lock_range_lem first second held_by_1 second (first_is_lower, (refl, tt)) tt
