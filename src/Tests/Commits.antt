-- ===== src/Tests/Commits.antt =====
-- A client creates blob 1 in cluster 0 of segment 1, whose `NextFreeBlobId` it has locked.
use blobs_db.Base.{◌≡◌, refl, true, false, none, some, List, [], ◌∷◌, ◌||◌, all, any, All, arith}
use blobs_db.Reads.{BlobsRead, lock_delete, OpenedDatabase, Handled, try_handle_blobs_read}
use blobs_db.Reads.Assertions.{HasRegularBlobs, try_handle_blobs_read_total}
use blobs_db.Config.{cluster_delete_id, segment_delete_id, next_free_blob_id, blob_list_id}
use blobs_db.BlobLocation.{BlobLocation, at, eq, lt, le}
use blobs_db.Lock.{Lock, owns_write_lock}
use blobs_db.LockUtil.{all_locks_for_location}
use blobs_db.LockTable.{lookup, client_owns_write_lock, acquire_implicit_write_locks}
use blobs_db.BlobLocationRanges.{
  BlobLocationRange, BlobCreationRanges, encompasses, encompasses_with_blob_creation, no_creations,
  next_free_blob_id_committed, is_created_segment, is_created_cluster,
}
use blobs_db.BlobLocationRanges.Coverage.{IsForward}
use blobs_db.BlobLocationRanges.Creation.{IsValid, Creates, encompasses_with_blob_creation-Creates}
use blobs_db.Snapshot.{Snapshot, blob_lookup, get_loaded_segment, get_loaded_cluster, id_content}
use blobs_db.Commit.{validate_updates, CommitMessage, bytes, accepted}
use blobs_db.Commit.Databases.{Opened, validate_messages, implicit_locks}
use blobs_db.Commit.Granted.{is_granted, needed_locks}
use blobs_db.Commit.Accepted.{accepted_writes_are_granted}
use blobs_db.ClientDatabase.CreatedLocks.{counts_on, is_forward, created_locks_are_granted}

abbrev database : Snapshot
database = record {
  next_free_segment = 2;
  segments =
      (
        1,
        record {
          next_free_cluster = 1;
          clusters = (0, record { next_free_blob = 1; blobs = (0, []) ∷ [] }) ∷ [];
        },
      )
      ∷ [];
}

abbrev written_by_1 : BlobLocation → Lock
written_by_1 l = record { location = l; read = []; write = some 1 }

abbrev held : List Lock
held = written_by_1 (at 1 0 next_free_blob_id) ∷ written_by_1 (at 1 0 blob_list_id) ∷ []

abbrev opened : Opened
opened = record { snapshot = database; locks = held; is_mvcc = false }

abbrev messages : List CommitMessage
messages =
    record {
      database_id = 0;
      updates =
          record { location = at 1 0 next_free_blob_id; content = bytes (id_content 2) }
          ∷ record { location = at 1 0 1; content = bytes (7 ∷ 8 ∷ []) }
          ∷ [];
    }
    ∷ []

abbrev created : BlobCreationRanges
created = record {
  ranges = record { begin = at 1 0 1; end = at 1 0 2 } ∷ [];
  committed_next_free_blob_ids = at 1 0 2 ∷ [];
}

messages_are_accepted : validate_messages 1 opened messages no_creations ≡ accepted created
unfolding validate_messages validate_updates all_locks_for_location client_owns_write_lock lookup eq
    owns_write_lock encompasses no_creations get_loaded_segment get_loaded_cluster
    encompasses_with_blob_creation next_free_blob_id_committed blob_lookup
messages_are_accepted = refl

accepted_writes_are_granted_example :
    All
      (λ m.
        All
          (λ u.
            All
              (λ l. is_granted 1 opened.locks created.ranges l ≡ true)
              (needed_locks opened.snapshot u))
          m.updates)
      messages
accepted_writes_are_granted_example =
    accepted_writes_are_granted 1 opened messages created messages_are_accepted

created_is_forward : all is_forward created.ranges ≡ true
unfolding is_created_segment is_created_cluster
created_is_forward = refl

created_locks_are_granted_example :
    client_owns_write_lock 1
      (at 1 0 1)
      (acquire_implicit_write_locks 1 (implicit_locks 1 held created.ranges) held).1
    ≡ (client_owns_write_lock 1 (at 1 0 1) held || any (counts_on (at 1 0 1)) created.ranges)
created_locks_are_granted_example =
    created_locks_are_granted 1 held created.ranges (at 1 0 1) created_is_forward

created-IsForward : IsForward created.ranges
unfolding le eq lt
created-IsForward = (refl, tt)

created-IsValid : IsValid created
created-IsValid = record { forward = created-IsForward; bounded = (omega arith, tt) }

encompasses_with_blob_creation-Creates_example :
    Creates
      (at 1 0 1)
      created
      (encompasses_with_blob_creation (blob_lookup database) (at 1 0 1) created)
encompasses_with_blob_creation-Creates_example =
    encompasses_with_blob_creation-Creates (blob_lookup database) (at 1 0 1) created created-IsValid

abbrev next_blob : BlobLocationRange
next_blob = record { begin = at 1 0 2; end = at 1 0 3 }

next_blob-forward : le next_blob.begin next_blob.end ≡ true
unfolding le eq lt
next_blob-forward = refl

abbrev deletion_of_segment : BlobsRead
deletion_of_segment = record {
  client_id = 3;
  lock_mode = lock_delete;
  locations = at 1 segment_delete_id cluster_delete_id ∷ [];
}

abbrev opened_for_reads : OpenedDatabase
opened_for_reads = record { current = database; mvcc = none; locks = held }

database-HasRegularBlobs : HasRegularBlobs database
database-HasRegularBlobs = (((omega arith, tt), tt), tt)

try_handle_blobs_read_total_example :
    (result : Handled) × (try_handle_blobs_read
        (λ _. false)
        deletion_of_segment
        (some opened_for_reads)
        true
      ≡ some result)
try_handle_blobs_read_total_example =
    try_handle_blobs_read_total (λ _. false) deletion_of_segment opened_for_reads true
      database-HasRegularBlobs
