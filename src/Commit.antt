-- ===== src/Commit.antt =====
-- ServerLib/Server.cpp: `ValidateCommitMessages`, which decides on the commit of a client. The loops
-- over ids that the source counts up are over `count` consecutive ids.
pub mod Databases
pub mod Growth
pub mod Granted
pub mod Accepted
pub mod Implicit
use blobs_db.Base.{
  zero, suc, ℕ, ◌+◌, ◌-◌, ◌%◌, ◌^◌, Bool, true, false, not, ◌&&◌, ◌||◌, Option, none, some, List,
  [], ◌∷◌, ◌++◌, ◌==◌, ltb, add32, if◌then◌else◌, filter,
}
use blobs_db.Config.{
  max_blob_id, max_cluster_id, max_segment_id, next_free_blob_id, next_free_cluster_id,
  next_free_segment_id, cluster_delete_id, segment_delete_id, blob_list_id, cluster_list_id,
  segment_list_id,
}
use blobs_db.BlobLocation.{BlobLocation, at}
use blobs_db.Lock.{Lock}
use blobs_db.LockTable.{client_owns_write_lock}
use blobs_db.LockUtil.{all_locks_for_location}
use blobs_db.BlobLocationRanges.{
  BlobLocationRange, BlobCreationRanges, encompasses, encompasses_created_cluster,
  encompasses_created_segment, encompasses_with_blob_creation, enter_new_cluster, enter_new_segment,
  is_created_cluster, is_created_segment, next_free_blob_id_committed,
}
use blobs_db.Snapshot.{
  Snapshot, Segment, Cluster, read_id, get_loaded_segment, get_loaded_cluster, directory,
  blob_lookup,
}

-- `TransactionCommitResponse::Result`, the results of a failed validation
pub data Refusal : Type 0 where
  database_not_opened : Refusal
  database_order_violated : Refusal
  missing_write_lock : Refusal
  no_transaction_in_progress : Refusal
  segment_does_not_exist : Refusal
  cluster_does_not_exist : Refusal
  blob_does_not_exist : Refusal
  illegal_next_free_blob_id : Refusal
  illegal_next_free_cluster_id : Refusal
  illegal_next_free_segment_id : Refusal
  cannot_commit_mvcc_database : Refusal

-- A failed assertion of LockUtil.hpp, a failed validation, or success with what it found.
pub data Validated {ℓ} (A : Type ℓ) : Type ℓ where
  assertion_failed : Validated A
  refused : Refusal → Validated A
  accepted : A → Validated A

-- The content that an entry of a message transmits; none with `DeleteBlobSize`.
pub data Content : Type 0 where
  deletion : Content
  bytes : List ℕ → Content

pub record Update : Type 0 where
  pub location : BlobLocation
  pub content : Content

pub record CommitMessage : Type 0 where
  pub database_id : ℕ
  pub updates : List Update

-- `pos.ReadData()` as an id, if its size is that of an id.
abbrev pub content_id : Content → Option ℕ
content_id deletion = none
content_id (bytes bs) = read_id bs

-- `EnterNewSegment` and `EnterNewCluster` for `count` ids from `i`.
unfoldable pub enter_new_segments : ℕ → ℕ → List BlobLocationRange → List BlobLocationRange
enter_new_segments zero i ranges = ranges
enter_new_segments (suc count) i ranges =
    enter_new_segments count (add32 i 1) (enter_new_segment i ranges)

unfoldable pub enter_new_clusters : ℕ → ℕ → ℕ → List BlobLocationRange → List BlobLocationRange
enter_new_clusters zero s i ranges = ranges
enter_new_clusters (suc count) s i ranges =
    enter_new_clusters count s (add32 i 1) (enter_new_cluster s i ranges)

abbrev with_ranges : List BlobLocationRange → BlobCreationRanges → BlobCreationRanges
with_ranges rs created = record created { ranges = rs }

-- The update of `NextFreeSegmentId`.
unfoldable pub validate_new_segments :
    Snapshot → Update → BlobCreationRanges → Validated BlobCreationRanges
unfolding enter_new_segments
validate_new_segments db u created =
    if not (u.location.cluster == next_free_cluster_id)
      || not (u.location.blob == next_free_blob_id)
    then refused blob_does_not_exist
    else elim (content_id u.content) [
      | none ↦ refused illegal_next_free_segment_id
      | some n ↦
          if ltb n db.next_free_segment || ltb (max_segment_id + 1) n
          then refused illegal_next_free_segment_id
          else accepted (
              with_ranges
                (enter_new_segments (n - db.next_free_segment) db.next_free_segment created.ranges)
                created)
    ]

-- The segment's current `NextFreeClusterId`.
unfoldable pub current_cluster_id : Snapshot → BlobLocation → BlobCreationRanges → Validated ℕ
current_cluster_id db l created = elim (get_loaded_segment l.segment db) [
  | some segment ↦ accepted segment.next_free_cluster
  | none ↦ if encompasses l created.ranges then accepted 1 else refused segment_does_not_exist
]

-- The update of a `NextFreeClusterId`.
unfoldable pub validate_new_clusters :
    Snapshot → Update → BlobCreationRanges → Validated BlobCreationRanges
unfolding current_cluster_id enter_new_clusters
validate_new_clusters db u created =
    if not (u.location.blob == next_free_blob_id)
    then refused blob_does_not_exist
    else elim (current_cluster_id db u.location created) [
      | assertion_failed ↦ assertion_failed
      | refused r ↦ refused r
      | accepted next_free ↦ elim (content_id u.content) [
        | none ↦ refused illegal_next_free_cluster_id
        | some n ↦
            if ltb n next_free || ltb (max_cluster_id + 1) n
            then refused illegal_next_free_cluster_id
            else accepted (
                with_ranges
                  (enter_new_clusters (n - next_free) u.location.segment next_free created.ranges)
                  created)
      ]
    ]

-- The cluster's current `NextFreeBlobId`.
unfoldable pub current_blob_id : Snapshot → BlobLocation → BlobCreationRanges → Validated ℕ
current_blob_id db l created =
    if encompasses l created.ranges then accepted 1 else elim (get_loaded_segment l.segment db) [
      | none ↦ refused segment_does_not_exist
      | some _ ↦ elim (get_loaded_cluster l.segment l.cluster db) [
        | none ↦ refused cluster_does_not_exist
        | some cluster ↦ accepted cluster.next_free_blob
      ]
    ]

-- The update of a `NextFreeBlobId`.
unfoldable pub validate_new_blobs :
    Snapshot → Update → BlobCreationRanges → Validated BlobCreationRanges
unfolding current_blob_id
validate_new_blobs db u created = elim (current_blob_id db u.location created) [
  | assertion_failed ↦ assertion_failed
  | refused r ↦ refused r
  | accepted next_free ↦ elim (content_id u.content) [
    | none ↦ refused illegal_next_free_blob_id
    | some n ↦
        if ltb n next_free || ltb (max_blob_id + 1) n
        then refused illegal_next_free_blob_id
        else accepted (next_free_blob_id_committed u.location.segment u.location.cluster n created)
  ]
]

-- The checks of a location once the locks are found to be held.
unfoldable pub validate_content :
    Snapshot → Update → BlobCreationRanges → Validated BlobCreationRanges
unfolding validate_new_segments validate_new_clusters validate_new_blobs
validate_content db u created =
    if u.location.segment == segment_list_id
      || (u.location.cluster == cluster_list_id || u.location.blob == blob_list_id)
    then refused blob_does_not_exist
    else if u.location.cluster == segment_delete_id && not (u.location.blob == cluster_delete_id)
    then refused blob_does_not_exist
    else if u.location.segment == next_free_segment_id
    then validate_new_segments db u created
    else if u.location.cluster == next_free_cluster_id
    then validate_new_clusters db u created
    else if u.location.blob == next_free_blob_id
    then validate_new_blobs db u created
    else accepted created

-- The lambda that `AllLocksForLocation` gets.
unfoldable pub may_write :
    ℕ → Snapshot → List Lock → BlobLocation → BlobCreationRanges → Bool × BlobCreationRanges
may_write client db locks l created =
    if client_owns_write_lock client l locks
    then (true, created)
    else encompasses_with_blob_creation (blob_lookup db) l created

-- The body of the loop over the blobs of a message.
unfoldable pub validate_update :
    ℕ → Snapshot → List Lock → Update → BlobCreationRanges → Validated BlobCreationRanges
unfolding may_write validate_content
validate_update client db locks u created =
    elim (all_locks_for_location (may_write client db locks) (directory db)
      (λ s c. encompasses_created_segment s c.ranges)
      (λ s cl c. encompasses_created_cluster s cl c.ranges) u.location created) [
        | none ↦ assertion_failed
        | some (false, _) ↦ refused missing_write_lock
        | some (true, created') ↦ validate_content db u created'
      ]

unfoldable pub validate_updates :
    ℕ → Snapshot → List Lock → List Update → BlobCreationRanges → Validated BlobCreationRanges
unfolding validate_update
validate_updates client db locks [] created = accepted created
validate_updates client db locks (u ∷ us) created =
    elim (validate_update client db locks u created) [
      | assertion_failed ↦ assertion_failed
      | refused r ↦ refused r
      | accepted created' ↦ validate_updates client db locks us created'
    ]
