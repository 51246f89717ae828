-- ===== src/ClientLocks.antt =====
-- ServerLib/Client.cpp, `Client::DatabaseLocks`: what the server keeps of one client's locks in one
-- database, next to the lock table of the database. Revoked sticky locks are only noted down, and
-- taken off the list of locks later.
pub mod Agreement
pub mod Revoking
pub mod Acquiring
pub mod Releasing
pub mod Response
pub mod BeginMessage
use blobs_db.Base.{
  ℕ, Bool, true, false, not, Option, none, some, List, [], ◌∷◌, ◌++◌, map, filter, any, length,
  ◌==◌, ◌&&◌, ◌||◌, ◌%◌, ◌^◌, ◌+◌, take, if◌then◌else◌, leb, sub64, is_some, all,
}
use blobs_db.Base.Sums.{sum}
use blobs_db.BlobLocation.{BlobLocation, eq}
use blobs_db.Lock.{Lock}
use blobs_db.LockUtil.{Directory, for_each_lock_in_message}
use blobs_db.LockTable.{
  Revocation, acquire_locks, acquire_implicit_write_locks, release_lock, release_locks,
}

pub record DatabaseLocks : Type 0 where
  pub database : Option ℕ
  pub locks : List BlobLocation
  pub revoked_locks : List BlobLocation
  pub is_mvcc : Bool

-- `std::find(...) != end` on a list of locations.
abbrev pub has : BlobLocation → List BlobLocation → Bool
has l ls = any (λ m. eq m l) ls

unfoldable pub add_lock : BlobLocation → DatabaseLocks → DatabaseLocks
add_lock l d = if has l d.locks then d else record d { locks = d.locks ++ (l ∷ []) }

unfoldable pub add_locks : List BlobLocation → DatabaseLocks → DatabaseLocks
unfolding add_lock
add_locks [] d = d
add_locks (l ∷ ls) d = add_locks ls (add_lock l d)

-- `RevokeStickyLock`
unfoldable pub revoke_sticky_lock : BlobLocation → DatabaseLocks → DatabaseLocks
revoke_sticky_lock l d = record d { revoked_locks = d.revoked_locks ++ (l ∷ []) }

-- The calls of `RevokeStickyLock` that are for this client.
unfoldable pub revoke_sticky_locks : ℕ → List Revocation → DatabaseLocks → DatabaseLocks
unfolding revoke_sticky_lock
revoke_sticky_locks c [] d = d
revoke_sticky_locks c (r ∷ rs) d =
    revoke_sticky_locks c rs (if r.client == c then revoke_sticky_lock r.location d else d)

-- `ApplyRevokedLocks`; `none` stands for its assertion, that every revoked lock was there, once.
unfoldable pub apply_revoked_locks : DatabaseLocks → Option DatabaseLocks
apply_revoked_locks d =
    let kept = filter (λ l. not (has l d.revoked_locks)) d.locks in
    if length kept == sub64 (length d.locks) (length d.revoked_locks)
    then some (record d { locks = kept })
    else none

-- `Client::AcquireLocks` for the entry and the table of the message's database: the answer, the
-- revocations, the table and the entry.
unfoldable pub acquire_client_locks :
    (ℕ → Bool)
    → Directory
    → ℕ
    → Bool
    → List BlobLocation
    → List Lock × DatabaseLocks
    → Option (Bool × List Revocation × List Lock × DatabaseLocks)
acquire_client_locks can_revoke db client write ls (table, d) =
    elim (acquire_locks can_revoke db client write ls table) [
      | none ↦ none
      | some (acquired, revoked, table') ↦
          if acquired
          then (elim (for_each_lock_in_message db ls) [
            | none ↦ none
            | some visited ↦ some (true, revoked, table', add_locks visited d)
          ])
          else some (false, revoked, table', d)
    ]

-- `Client::AcquireImplicitWriteLocks`
unfoldable pub acquire_client_implicit_write_locks :
    ℕ → List BlobLocation → List Lock × DatabaseLocks → List Revocation × List Lock × DatabaseLocks
acquire_client_implicit_write_locks client ls (table, d) =
    let (revoked, table') = acquire_implicit_write_locks client ls table in
    (revoked, table', record d { locks = d.locks ++ ls })

-- `Client::ReleaseDeletedLocks`, with `IsDeleted` as the test.
release_deleted :
    (BlobLocation → Bool)
    → ℕ
    → List BlobLocation
    → List Lock
    → Option (List BlobLocation × List Lock)
release_deleted is_deleted client [] table = some ([], table)
release_deleted is_deleted client (l ∷ ls) table =
    elim (if is_deleted l then release_lock client l table else some table) [
      | none ↦ none
      | some table' ↦ elim (release_deleted is_deleted client ls table') [
        | none ↦ none
        | some (kept, table'') ↦ some (if is_deleted l then kept else l ∷ kept, table'')
      ]
    ]

unfoldable pub release_deleted_locks :
    (BlobLocation → Bool) → ℕ → List Lock × DatabaseLocks → Option (List Lock × DatabaseLocks)
unfolding release_deleted
release_deleted_locks is_deleted client (table, d) =
    elim (release_deleted is_deleted client d.locks table) [
      | none ↦ none
      | some (kept, table') ↦ some (table', record d { locks = kept })
    ]

-- `Client::ReleaseAllLocksForDatabase`
unfoldable pub release_all_locks_for_database :
    ℕ → List Lock × DatabaseLocks → Option (List Lock × DatabaseLocks)
release_all_locks_for_database client (table, d) = elim (apply_revoked_locks d) [
  | none ↦ none
  | some d' ↦ elim (release_locks client d'.locks table) [
    | none ↦ none
    | some table' ↦ some (table', record d' { locks = []; revoked_locks = [] })
  ]
]

-- The entry of `TransactionBeginResponse` for one database.
pub record BeginEntry : Type 0 where
  pub keep : Bool
  pub n_locks : ℕ
  pub locks : List BlobLocation

-- The locks from its `begin()` to its `end()`.
abbrev pub locks_in : BeginEntry → List BlobLocation
locks_in e = take e.n_locks e.locks

-- `ConstructTransactionBeginResponse` for one database: the smaller of the two lists is sent.
unfoldable pub begin_entry : DatabaseLocks → Option (BeginEntry × DatabaseLocks)
begin_entry d = elim (apply_revoked_locks d) [
  | none ↦ none
  | some d' ↦
      let keep = leb (length d'.locks) (length d'.revoked_locks) in
      let locks = if keep then d'.locks else d'.revoked_locks in
      some (
        record { keep = keep; n_locks = length locks % 2 ^ 16; locks = locks },
        record d' { revoked_locks = [] },
      )
]

-- `assert(locks.size() >= revokedLocks.size())` for each database that is open.
abbrev pub not_over_revoked : DatabaseLocks → Bool
not_over_revoked d = not (is_some d.database) || leb (length d.revoked_locks) (length d.locks)

-- What an entry adds to `totalLocks`.
abbrev pub locks_to_send : DatabaseLocks → ℕ
locks_to_send d =
    let kept = sub64 (length d.locks) (length d.revoked_locks) in
    if is_some d.database
    then (if leb kept (length d.revoked_locks) then kept else length d.revoked_locks)
    else 0

-- `totalLocks`, a `size_t`.
unfoldable pub total_locks : List DatabaseLocks → ℕ
total_locks ds = sum locks_to_send ds % 2 ^ 64

-- `nDatabases`, a `uint32_t`.
abbrev pub one_if_open : DatabaseLocks → ℕ
one_if_open d = if is_some d.database then 1 else 0

unfoldable pub n_databases : List DatabaseLocks → ℕ
n_databases ds = sum one_if_open ds % 2 ^ 32

-- The second loop, from the database id that it has come to, a `uint8_t`.
unfoldable pub begin_entries :
    ℕ → List DatabaseLocks → Option (List (ℕ × BeginEntry) × List DatabaseLocks)
begin_entries id [] = some ([], [])
begin_entries id (d ∷ ds) = elim (begin_entries ((id + 1) % 2 ^ 8) ds) [
  | none ↦ none
  | some (es, ds') ↦
      if is_some d.database
      then (elim (begin_entry d) [ none ↦ none | some (e, d') ↦ some ((id, e) ∷ es, d' ∷ ds') ])
      else some (es, d ∷ ds')
]

-- The message, with the numbers of databases and of locks for which `Create` allocates it.
pub record BeginResponse : Type 0 where
  pub room_for_databases : ℕ
  pub room_for_locks : ℕ
  pub entries : List (ℕ × BeginEntry)

-- `none` stands for a failed assertion: too many locks for the message's `uint16_t`, too many
-- databases, which `Create` asserts, or an entry whose revocations are not of its locks.
unfoldable pub construct_transaction_begin_response :
    List DatabaseLocks → Option (BeginResponse × List DatabaseLocks)
unfolding begin_entries total_locks n_databases
construct_transaction_begin_response ds =
    if all not_over_revoked ds && (leb (total_locks ds) 65535 && leb (n_databases ds) 255)
    then (elim (begin_entries 0 ds) [
      | none ↦ none
      | some (es, ds') ↦ some (
        record {
          room_for_databases = n_databases ds;
          room_for_locks = total_locks ds % 2 ^ 16;
          entries = es;
        },
        ds',
      )
    ])
    else none
