-- ===== src/Tests/Transactions.antt =====
-- A transaction of the client library that writes one blob and deletes another.
use blobs_db.Base.{
  ℕ, ◌≡◌, refl, true, false, none, not, ◌&&◌, ◌||◌, some, List, [], ◌∷◌, length, all, All, arith,
  map, contains,
}
use blobs_db.BlobLocation.{at, eq, lt}
use blobs_db.BlobLocation.Order.{IsWide}
use blobs_db.Config.{delete_blob_size}
use blobs_db.HeldLocks.{HeldLocks}
use blobs_db.StdSet.{find, count, insert, assign, erase}
use blobs_db.Outcome.{returned}
use blobs_db.Commit.{CommitMessage}
use blobs_db.Versions.{Snapshot}
use blobs_db.ApplyCommit.{Deleted, calculate_commit_result}
use blobs_db.ApplyCommit.Writes.{content_at}
use blobs_db.ApplyCommit.Contents.{IsBlobUpdate}
use blobs_db.Transaction.Orders.{location_less}
use blobs_db.Transaction.{
  DatabaseState, new_state, itself, write_blob, create_blob, delete_blob, read_blob,
  ensure_blob_not_deleted, ensure_cluster_not_deleted, ensure_segment_not_deleted,
  is_cluster_deleted, is_segment_deleted, is_blob_deleted,
}
use blobs_db.Transaction.Overlay.{IsValid}
use blobs_db.Transaction.Operations.{
  Operation, write, create, remove, write_checked, perform, perform_all,
}
use blobs_db.Transaction.History.{perform_all_valid, new_state-IsValid, read_blob-perform_all}
use blobs_db.Transaction.Messages.{
  BlobToSend, get_sorted_writes_to_transmit, stable_sort, sort_in, goes_before,
  is_valid_message_size, update_of, construct_commit_messages,
}
use blobs_db.Transaction.Splitting.{
  concat, fits, small_enough, message_with, construct_commit_messages_lem,
}
use blobs_db.Transaction.Committed.{ReadAsCommitted, commit_makes_what_was_read}
use blobs_db.Transaction.IdLists.{merge_blob_id_list}
use blobs_db.Transaction.IdLists.Ascending.{Ascending}
use blobs_db.Transaction.IdLists.Merged.{merge_blob_id_list_lem}
use blobs_db.Transaction.Recreated.{recreated_blob_is_not_listed}
use blobs_db.Tests.Snapshots.{snapshot_before, cluster_0-Present}

abbrev no_locks : HeldLocks
no_locks = record { read = []; write = [] }

abbrev history : List Operation
history = write (at 1 0 5) (1 ∷ []) ∷ write (at 1 0 5) (9 ∷ 9 ∷ []) ∷ remove (at 1 0 0) ∷ []

abbrev pub changed : DatabaseState
changed = record (new_state no_locks) {
  written_blobs = (at 1 0 5, 9 ∷ 9 ∷ []) ∷ [];
  deleted_blobs = at 1 0 0 ∷ [];
}

history_changes : perform_all history (new_state no_locks) ≡ returned changed
unfolding perform_all perform write_checked write_blob delete_blob ensure_blob_not_deleted
    ensure_cluster_not_deleted ensure_segment_not_deleted find insert assign erase lt
history_changes = refl

wide : IsWide (at 1 0 5)
wide = record { segment_fits = omega arith; cluster_fits = omega arith; blob_fits = omega arith }

read_blob-perform_all_example : read_blob (at 1 0 5) changed ≡ returned (some (9 ∷ 9 ∷ []))
unfolding eq
read_blob-perform_all_example =
    read_blob-perform_all history no_locks changed (at 1 0 5) wide history_changes

changed-IsValid : IsValid changed
changed-IsValid =
    (perform_all_valid history (new_state no_locks) changed (at 1 0 5) (new_state-IsValid no_locks)
      wide history_changes).0

abbrev pub writes : List BlobToSend
writes =
    record { location = at 1 0 5; content = some (9 ∷ 9 ∷ []); blob_size = 2 }
    ∷ record { location = at 1 0 0; content = none; blob_size = delete_blob_size }
    ∷ []

writes_of_changed : get_sorted_writes_to_transmit changed ≡ writes
unfolding get_sorted_writes_to_transmit stable_sort sort_in goes_before
writes_of_changed = refl

writes_small : all (small_enough 16 24) writes ≡ true
unfolding is_valid_message_size
writes_small = refl

construct_commit_messages_lem_example :
    (chunks : List (List BlobToSend)) × (construct_commit_messages 16 24 2 7 writes
      ≡ some (map (message_with 7) chunks))
    × (concat chunks ≡ writes)
    × All (λ c. fits 16 24 c ≡ true) chunks
construct_commit_messages_lem_example = construct_commit_messages_lem 16 24 7 writes writes_small

writes_are_updates : All (IsBlobUpdate snapshot_before) (map update_of writes)
writes_are_updates = ((refl, cluster_0-Present 5), ((refl, cluster_0-Present 0), tt))

commit_makes_what_was_read_example :
    (ms : List CommitMessage) × (db' : Snapshot) × (d : Deleted) × (construct_commit_messages 16 24
        (length (get_sorted_writes_to_transmit changed))
        7
        (get_sorted_writes_to_transmit changed)
      ≡ some ms)
    × (calculate_commit_result ms snapshot_before ≡ some (db', d))
    × ReadAsCommitted
        (read_blob (at 1 0 5) changed)
        (content_at (at 1 0 5) snapshot_before)
        (content_at (at 1 0 5) db')
unfolding get_sorted_writes_to_transmit stable_sort sort_in goes_before
commit_makes_what_was_read_example =
    commit_makes_what_was_read 16 24 7 changed snapshot_before (at 1 0 5) changed-IsValid
      (omega arith, tt) refl refl writes_small writes_are_updates refl

-- Blob 3 is deleted and blob 2 created.
abbrev edited : DatabaseState
edited = record (new_state no_locks) {
  written_blobs = (at 1 0 2, 7 ∷ []) ∷ [];
  deleted_blobs = at 1 0 3 ∷ [];
  created_blobs = at 1 0 2 ∷ [];
}

edits :
    perform_all (create (at 1 0 2) (7 ∷ []) ∷ remove (at 1 0 3) ∷ []) (new_state no_locks)
    ≡ returned edited
unfolding perform_all perform create_blob write_checked write_blob delete_blob
    ensure_blob_not_deleted ensure_cluster_not_deleted ensure_segment_not_deleted find insert assign
    erase lt is_cluster_deleted is_segment_deleted is_blob_deleted
edits = refl

edited-IsValid : IsValid edited
edited-IsValid =
    (perform_all_valid (create (at 1 0 2) (7 ∷ []) ∷ remove (at 1 0 3) ∷ []) (new_state no_locks)
      edited (at 1 0 5) (new_state-IsValid no_locks) wide edits).0

nothing_else_deleted : is_cluster_deleted 1 0 edited ≡ false
unfolding is_cluster_deleted is_segment_deleted find
nothing_else_deleted = refl

merge_blob_id_list_lem_example :
    (merged : List ℕ) × (merge_blob_id_list 1 0 (0 ∷ 3 ∷ 5 ∷ []) edited ≡ returned merged)
    × Ascending merged
    × (contains merged 2 ≡ (
        (contains (0 ∷ 3 ∷ 5 ∷ []) 2 && not (count itself (at 1 0 2) edited.deleted_blobs))
        || count itself (at 1 0 2) edited.created_blobs))
merge_blob_id_list_lem_example =
    merge_blob_id_list_lem 1 0 2 (0 ∷ 3 ∷ 5 ∷ []) edited edited-IsValid nothing_else_deleted
      (omega arith) (refl, (refl, (refl, tt)))

recreated_blob_is_not_listed_example :
    (t : DatabaseState) × (listed : List ℕ) × (perform_all
        (create (at 1 0 2) [] ∷ remove (at 1 0 2) ∷ create (at 1 0 2) (7 ∷ []) ∷ [])
        (new_state no_locks)
      ≡ returned t)
    × (read_blob (at 1 0 2) t ≡ returned (some (7 ∷ [])))
    × (merge_blob_id_list 1 0 (0 ∷ []) t ≡ returned listed)
    × (contains listed 2 ≡ false)
recreated_blob_is_not_listed_example =
    recreated_blob_is_not_listed (at 1 0 2) [] (7 ∷ []) (0 ∷ []) no_locks refl
