-- ===== src/ApplyCommit.antt =====
-- How a commit makes the next snapshot: `CalculateCommitResult` and `ApplyCommitMessage` of
-- ServerLib/Database.cpp, and ServerLib/Deleted.cpp. `none` stands for content of an id blob that
-- has not the size of an id.
pub mod Follows
pub mod Steps
pub mod Coherence
pub mod Caches
pub mod SegmentWrites
pub mod Writes
pub mod Contents
use blobs_db.Base.{
  ℕ, Bool, ◌&&◌, ◌||◌, Option, none, some, List, [], ◌∷◌, ◌++◌, ◌==◌, any, if◌then◌else◌,
}
use blobs_db.Config.{
  next_free_blob_id, next_free_cluster_id, next_free_segment_id, cluster_delete_id,
  segment_delete_id,
}
use blobs_db.BlobLocation.{BlobLocation, eq}
use blobs_db.Commit.{Content, deletion, bytes, content_id, Update, CommitMessage}
use blobs_db.Versions.{
  Cluster, Segment, Snapshot, set_content, delete_blob, set_next_free_blob_id, update_cluster,
  set_cluster, delete_cluster, set_next_free_cluster_id, update_segment, set_segment,
  delete_segment, set_next_free_segment_id, next_snapshot,
}

pub record Deleted : Type 0 where
  pub blobs : List BlobLocation
  pub clusters : List (ℕ × ℕ)
  pub segments : List ℕ

unfoldable pub is_deleted : Deleted → BlobLocation → Bool
is_deleted d l =
    any (λ s. s == l.segment) d.segments
    || (any (λ (c : ℕ × ℕ). c.0 == l.segment && c.1 == l.cluster) d.clusters
        || any (λ b. eq b l) d.blobs)

-- The part of an update that concerns one cluster. `none` stands for content that is no id.
unfoldable pub update_in_cluster : ℕ → Content → Cluster → Option Cluster
update_in_cluster b content c =
    if b == next_free_blob_id
    then (elim (content_id content) [ none ↦ none | some id ↦ some (set_next_free_blob_id id c) ])
    else elim content [
      | deletion ↦ some (delete_blob b c)
      | bytes written ↦ some (set_content b written c)
    ]

-- The part that concerns one segment.
unfoldable pub update_in_segment : ℕ → ℕ → Content → Segment → Option Segment
update_in_segment c b content s =
    if c == next_free_cluster_id
    then (elim (content_id content) [
      | none ↦ none
      | some id ↦ some (set_next_free_cluster_id id s)
    ])
    else if b == cluster_delete_id
    then some (delete_cluster c s)
    else elim (update_in_cluster b content (update_cluster c s)) [
      | none ↦ none
      | some cluster ↦ some (set_cluster c cluster s)
    ]

-- One turn of the loop of `ApplyCommitMessage`, without the list of what is deleted.
unfoldable pub apply_update : Update → Snapshot → Option Snapshot
apply_update u db =
    let l = u.location in
    if l.segment == next_free_segment_id
    then (elim (content_id u.content) [
      | none ↦ none
      | some id ↦ some (set_next_free_segment_id id db)
    ])
    else if l.cluster == segment_delete_id
    then some (delete_segment l.segment db)
    else elim (update_in_segment l.cluster l.blob u.content (update_segment l.segment db)) [
      | none ↦ none
      | some segment ↦ some (set_segment l.segment segment db)
    ]

-- What the turn adds to the list.
unfoldable pub note_deleted : Update → Deleted → Deleted
note_deleted u d =
    let l = u.location in
    if l.segment == next_free_segment_id
    then d
    else if l.cluster == segment_delete_id
    then record d { segments = d.segments ++ (l.segment ∷ []) }
    else if l.cluster == next_free_cluster_id
    then d
    else if l.blob == cluster_delete_id
    then record d { clusters = d.clusters ++ ((l.segment, l.cluster) ∷ []) }
    else if l.blob == next_free_blob_id
    then d
    else elim u.content [ deletion ↦ record d { blobs = d.blobs ++ (l ∷ []) } | bytes _ ↦ d ]

unfoldable pub apply_updates : List Update → Snapshot × Deleted → Option (Snapshot × Deleted)
apply_updates [] (db, d) = some (db, d)
apply_updates (u ∷ us) (db, d) = elim (apply_update u db) [
  | none ↦ none
  | some db' ↦ apply_updates us (db', note_deleted u d)
]

unfoldable pub apply_commit_messages :
    List CommitMessage → Snapshot × Deleted → Option (Snapshot × Deleted)
apply_commit_messages [] state = some state
apply_commit_messages (m ∷ ms) state = elim (apply_updates m.updates state) [
  | none ↦ none
  | some state' ↦ apply_commit_messages ms state'
]

-- The snapshot and the deletions of `CalculateCommitResult`.
unfoldable pub calculate_commit_result : List CommitMessage → Snapshot → Option (Snapshot × Deleted)
calculate_commit_result ms db =
    apply_commit_messages ms (next_snapshot db, record { blobs = []; clusters = []; segments = [] })
