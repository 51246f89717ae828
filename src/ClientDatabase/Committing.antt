-- ===== src/ClientDatabase/Committing.antt =====
-- Commit of ClientLib/Transaction.cpp with what it does in the cache and the sticky locks of the
-- database. The answer of the server to the messages is a parameter.
use blobs_db.Base.{
  ℕ, ◌||◌, Bool, true, false, not, Option, none, some, List, [], ◌∷◌, add32, if◌then◌else◌,
  is_empty,
}
use blobs_db.BlobLocation.{BlobLocation, at}
use blobs_db.Config.{blob_list_id, cluster_list_id, segment_list_id}
use blobs_db.HeldLocks.{HeldLocks, release_lock_range}
use blobs_db.Outcome.{returned, thrown, assertion_failed, internal_commit_error}
use blobs_db.Transaction.{DatabaseState, max_id}
use blobs_db.Transaction.Messages.{ClientCommit, construct_transaction_messages}
use blobs_db.BlobCache.{Cache, set, remove_blob}
use blobs_db.ClientDatabase.{Database, RunningTransaction, M, transfer_and_clear_state}

-- The loop over the written blobs.
unfoldable pub update_cache : ℕ → ℕ → List (BlobLocation × List ℕ) → Cache → Cache
update_cache commit id [] cache = cache
update_cache commit id ((l, content) ∷ ws) cache =
    update_cache commit id ws
      (set l (record { content = content; last_updated = commit; transaction_id = id }) cache)

-- The loops of `ReleaseDeletedBlobLocks`.
abbrev release_segments : List ℕ → HeldLocks → HeldLocks
release_segments [] locks = locks
release_segments (s ∷ ss) locks =
    release_segments ss (release_lock_range (at s 0 0) (at s max_id max_id) locks)

abbrev release_clusters : List (ℕ × ℕ) → HeldLocks → HeldLocks
release_clusters [] locks = locks
release_clusters ((s, c) ∷ cs) locks =
    release_clusters cs (release_lock_range (at s c 0) (at s c max_id) locks)

abbrev release_blobs : List BlobLocation → HeldLocks → HeldLocks
release_blobs [] locks = locks
release_blobs (l ∷ ls) locks =
    release_blobs ls (release_lock_range l (at l.segment l.cluster (add32 l.blob 1)) locks)

unfoldable pub release_deleted_blob_locks : DatabaseState → HeldLocks
release_deleted_blob_locks s =
    release_blobs s.deleted_blobs
      (release_clusters s.deleted_clusters (release_segments s.deleted_segments s.held_locks))

-- The loops of `ClearModifiedIdListsInCache`.
unfoldable pub remove_blob_lists : List BlobLocation → Cache → Cache
remove_blob_lists [] cache = cache
remove_blob_lists (l ∷ ls) cache =
    remove_blob_lists ls (remove_blob (at l.segment l.cluster blob_list_id) cache)

unfoldable pub remove_cluster_lists : List (ℕ × ℕ) → Cache → Cache
remove_cluster_lists [] cache = cache
remove_cluster_lists ((s, c) ∷ cs) cache =
    remove_cluster_lists cs (remove_blob (at s cluster_list_id blob_list_id) cache)

unfoldable pub clear_modified_id_lists : DatabaseState → Cache → Cache
unfolding remove_blob_lists remove_cluster_lists
clear_modified_id_lists s cache =
    let cleared = remove_cluster_lists s.deleted_clusters (
      remove_cluster_lists s.created_clusters
        (remove_blob_lists s.deleted_blobs (remove_blob_lists s.created_blobs cache))) in
    if not (is_empty s.deleted_segments) || not (is_empty s.created_segments)
    then remove_blob (at segment_list_id cluster_list_id blob_list_id) cleared
    else cleared

-- What the server answers to a commit: that it is made, with the commit id of the database if it
-- names it, or an error.
pub data CommitAnswer : Type 0 where
  made : Option ℕ → CommitAnswer
  failed : CommitAnswer

abbrev pub touched : ℕ → RunningTransaction → List (ℕ × DatabaseState)
touched id t = elim t.state [ none ↦ [] | some s ↦ (id, s) ∷ [] ]

-- The database after a commit that is made.
unfoldable pub after_commit : Option ℕ → RunningTransaction → Database → Database
unfolding update_cache release_deleted_blob_locks clear_modified_id_lists transfer_and_clear_state
after_commit commit t db = transfer_and_clear_state (elim t.state [
  | none ↦ db
  | some s ↦
      let updated : Cache = elim commit [
        | none ↦ db.cache
        | some n ↦ update_cache n t.id s.written_blobs db.cache
      ] in
      record db {
        cache = clear_modified_id_lists s updated;
        transaction =
            some
              (record t { state = some (record s { held_locks = release_deleted_blob_locks s }) });
      }
])

module _ (message_header blob_header : ℕ) (answer : List ClientCommit → CommitAnswer) where
  -- `Commit` of a session with one database of the given number.
  unfoldable pub commit : ℕ → M Bool
  unfolding after_commit
  commit id db = elim db.transaction [
    | none ↦ (returned false, db)
    | some t ↦
        elim (construct_transaction_messages message_header blob_header (id ∷ []) (touched id t)) [
          | none ↦ (assertion_failed, db)
          | some messages ↦ elim (answer messages) [
            | failed ↦ (thrown internal_commit_error, db)
            | made commit_id ↦ (returned true, after_commit commit_id t db)
          ]
        ]
  ]
