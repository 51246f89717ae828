-- ===== src/Commit/Databases.antt =====
-- ServerLib/Server.cpp: the parts of `ValidateCommitMessages` around the loop over the blobs: the
-- order of the databases, the loop over them and the locks that the client gets.
use blobs_db.Base.{
  zero, suc, ℕ, ◌+◌, ◌-◌, ◌%◌, ◌^◌, Bool, not, ◌&&◌, Option, none, some, List, [], ◌∷◌, ◌++◌, ◌==◌,
  add32, if◌then◌else◌, filter, contains, is_empty,
}
use blobs_db.Config.{
  next_free_blob_id, next_free_cluster_id, cluster_delete_id, segment_delete_id, blob_list_id,
  cluster_list_id,
}
use blobs_db.BlobLocation.{BlobLocation, at}
use blobs_db.Lock.{Lock}
use blobs_db.LockTable.{client_owns_write_lock}
use blobs_db.BlobLocationRanges.{
  BlobLocationRange, BlobCreationRanges, no_creations, is_created_cluster, is_created_segment,
}
use blobs_db.Snapshot.{Snapshot}
use blobs_db.Commit.{
  database_not_opened, database_order_violated, cannot_commit_mvcc_database, Validated,
  assertion_failed, refused, accepted, CommitMessage, validate_updates,
}

-- The databases that the client has open: the snapshot and the locks of each, and
-- `IsDatabaseMVCC`.
pub record Opened : Type 0 where
  pub snapshot : Snapshot
  pub locks : List Lock
  pub is_mvcc : Bool

-- What follows the first occurrence of `d`.
unfoldable pub after : ℕ → List ℕ → List ℕ
after d [] = []
after d (x ∷ xs) = if x == d then xs else after d xs

-- The first loop: the databases in the order of their messages; `none` if the order is violated.
unfoldable pub touched_databases : List CommitMessage → List ℕ → Option (List ℕ)
unfolding after
touched_databases [] touched = some touched
touched_databases (m ∷ ms) touched =
    let next =
      if contains touched m.database_id then touched else touched ++ (m.database_id ∷ []) in
    let rest = touched_databases ms next in
    if contains touched m.database_id && not (is_empty (after m.database_id touched))
    then none
    else rest

-- The messages for the database at the front, and the messages after them.
unfoldable pub split_messages : ℕ → List CommitMessage → List CommitMessage × List CommitMessage
split_messages d [] = ([], [])
split_messages d (m ∷ ms) =
    let (front, rest) = split_messages d ms in
    if m.database_id == d then (m ∷ front, rest) else ([], m ∷ ms)

-- The loop over the messages for a database.
unfoldable pub validate_messages :
    ℕ → Opened → List CommitMessage → BlobCreationRanges → Validated BlobCreationRanges
validate_messages client db [] created = accepted created
validate_messages client db (m ∷ ms) created =
    if db.is_mvcc && not (is_empty m.updates)
    then refused cannot_commit_mvcc_database
    else elim (validate_updates client db.snapshot db.locks m.updates created) [
      | assertion_failed ↦ assertion_failed
      | refused r ↦ refused r
      | accepted created' ↦ validate_messages client db ms created'
    ]

-- `for (auto blob = begin; blob != end; ++blob)` on `uint32_t`, `count` times.
unfoldable pub blobs_of_range : ℕ → ℕ → ℕ → ℕ → List BlobLocation
blobs_of_range zero s c b = []
blobs_of_range (suc count) s c b = at s c b ∷ blobs_of_range count s c (add32 b 1)

-- The locks that the creation of a range brings.
unfoldable pub locks_of_range : BlobLocationRange → List BlobLocation
unfolding blobs_of_range
locks_of_range r =
    if is_created_segment r
    then at r.begin.segment next_free_cluster_id next_free_blob_id
      ∷ at r.begin.segment segment_delete_id cluster_delete_id
      ∷ at r.begin.segment cluster_list_id blob_list_id
      ∷ []
    else if is_created_cluster r
    then at r.begin.segment r.begin.cluster next_free_blob_id
      ∷ at r.begin.segment r.begin.cluster cluster_delete_id
      ∷ at r.begin.segment r.begin.cluster blob_list_id
      ∷ []
    else blobs_of_range ((r.end.blob + 2 ^ 32 - r.begin.blob) % 2 ^ 32) r.begin.segment
        r.begin.cluster r.begin.blob

-- The last loop: of these locks, those that the client does not own yet.
unfoldable pub implicit_locks : ℕ → List Lock → List BlobLocationRange → List BlobLocation
unfolding locks_of_range
implicit_locks client locks [] = []
implicit_locks client locks (r ∷ rs) =
    filter (λ l. not (client_owns_write_lock client l locks)) (locks_of_range r)
    ++ implicit_locks client locks rs

-- The loop over the databases, and the implicit locks of each.
unfoldable pub validate_databases :
    ℕ → (ℕ → Option Opened) → List ℕ → List CommitMessage → Validated (List (ℕ × List BlobLocation))
unfolding split_messages validate_messages implicit_locks
validate_databases client get_database [] messages = accepted []
validate_databases client get_database (d ∷ ds) messages = elim (get_database d) [
  | none ↦ refused database_not_opened
  | some db ↦ elim (validate_messages client db (split_messages d messages).0 no_creations) [
    | assertion_failed ↦ assertion_failed
    | refused r ↦ refused r
    | accepted created ↦
        elim (validate_databases client get_database ds (split_messages d messages).1) [
          | assertion_failed ↦ assertion_failed
          | refused r ↦ refused r
          | accepted rest ↦ accepted ((d, implicit_locks client db.locks created.ranges) ∷ rest)
        ]
  ]
]

-- `ValidateCommitMessages`: on success the implicit locks, in the order of the databases.
unfoldable pub validate_commit_messages :
    ℕ → (ℕ → Option Opened) → List CommitMessage → Validated (List (ℕ × List BlobLocation))
unfolding touched_databases validate_databases
validate_commit_messages client get_database messages = elim (touched_databases messages []) [
  | none ↦ refused database_order_violated
  | some touched ↦ validate_databases client get_database touched messages
]
