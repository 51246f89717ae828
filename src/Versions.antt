-- ===== src/Versions.antt =====
-- The snapshots of ServerLib/Database.cpp, ServerLib/Segment.cpp and ServerLib/Cluster.cpp with the
-- commit ids that the caches of the clients go by, and the steps in which a commit changes them. All
-- objects are loaded. An object that a commit changes is first replaced by a copy with the new
-- commit id, so that an object is given by its value here.
use blobs_db.Base.{add64, ℕ, Bool, ◌&&◌, Option, none, some, List, [], ◌==◌, if◌then◌else◌}
use blobs_db.Config.{next_free_blob_id, next_free_cluster_id, next_free_segment_id}
use blobs_db.BlobLocation.{BlobLocation}
use blobs_db.FlatMap.{find, put, erase}
use blobs_db.Snapshot.{id_content}

pub record Blob : Type 0 where
  pub commit_id : ℕ
  pub content : List ℕ

pub record Cluster : Type 0 where
  pub commit_id : ℕ
  pub blobs : List (ℕ × Blob)
  pub next_free_blob : ℕ
  pub next_free_blob_id_blob : Blob

pub record Segment : Type 0 where
  pub commit_id : ℕ
  pub clusters : List (ℕ × Cluster)
  pub next_free_cluster : ℕ
  pub next_free_cluster_id_blob : Blob

pub record Snapshot : Type 0 where
  pub commit_id : ℕ
  pub segments : List (ℕ × Segment)
  pub next_free_segment : ℕ
  pub next_free_segment_id_blob : Blob

abbrev pub id_blob : ℕ → ℕ → Blob
id_blob commit id = record { commit_id = commit; content = id_content id }

-- `SetIdContent`: the commit id of the blob stays.
abbrev pub set_id : ℕ → Blob → Blob
set_id id b = record b { content = id_content id }

-- `UpdateBlob` of a cluster, and what its result's `SetContent` makes of the cluster.
unfoldable pub update_blob : ℕ → Cluster → Blob
update_blob b c =
    let fresh : Blob = record { commit_id = c.commit_id; content = [] } in
    elim (find b c.blobs) [
      | none ↦ fresh
      | some old ↦ if old.commit_id == c.commit_id then old else fresh
    ]

unfoldable pub set_content : ℕ → List ℕ → Cluster → Cluster
set_content b written c = record c {
  blobs = put b (record (update_blob b c) { content = written }) c.blobs;
}

unfoldable pub delete_blob : ℕ → Cluster → Cluster
delete_blob b c = record c { blobs = erase b c.blobs }

abbrev pub set_next_free_blob_id : ℕ → Cluster → Cluster
set_next_free_blob_id id c = record c {
  next_free_blob = id;
  next_free_blob_id_blob = set_id id c.next_free_blob_id_blob;
}

-- A new cluster, with its empty blob 0, and the copy of a cluster for a commit.
unfoldable pub new_cluster : ℕ → Cluster
new_cluster commit =
    let empty : Cluster = record {
      commit_id = commit;
      blobs = [];
      next_free_blob = 0;
      next_free_blob_id_blob = id_blob commit 0;
    } in
    set_next_free_blob_id 1 (record empty { blobs = put 0 (update_blob 0 empty) [] })

unfoldable pub copy_cluster : ℕ → Cluster → Cluster
copy_cluster commit c = record c {
  commit_id = commit;
  next_free_blob_id_blob = id_blob commit c.next_free_blob;
}

-- The cluster that `UpdateCluster` returns; the segment has it at its id from then on.
unfoldable pub update_cluster : ℕ → Segment → Cluster
update_cluster c s = elim (find c s.clusters) [
  | none ↦ new_cluster s.commit_id
  | some old ↦ if old.commit_id == s.commit_id then old else copy_cluster s.commit_id old
]

abbrev pub set_cluster : ℕ → Cluster → Segment → Segment
set_cluster c cluster s = record s { clusters = put c cluster s.clusters }

unfoldable pub delete_cluster : ℕ → Segment → Segment
delete_cluster c s = record s { clusters = erase c s.clusters }

abbrev pub set_next_free_cluster_id : ℕ → Segment → Segment
set_next_free_cluster_id id s = record s {
  next_free_cluster = id;
  next_free_cluster_id_blob = set_id id s.next_free_cluster_id_blob;
}

unfoldable pub new_segment : ℕ → Segment
new_segment commit =
    let empty : Segment = record {
      commit_id = commit;
      clusters = [];
      next_free_cluster = 0;
      next_free_cluster_id_blob = id_blob commit 0;
    } in
    set_next_free_cluster_id 1 (set_cluster 0 (update_cluster 0 empty) empty)

unfoldable pub copy_segment : ℕ → Segment → Segment
copy_segment commit s = record s {
  commit_id = commit;
  next_free_cluster_id_blob = id_blob commit s.next_free_cluster;
}

unfoldable pub update_segment : ℕ → Snapshot → Segment
update_segment s db = elim (find s db.segments) [
  | none ↦ new_segment db.commit_id
  | some old ↦ if old.commit_id == db.commit_id then old else copy_segment db.commit_id old
]

abbrev pub set_segment : ℕ → Segment → Snapshot → Snapshot
set_segment s segment db = record db { segments = put s segment db.segments }

unfoldable pub delete_segment : ℕ → Snapshot → Snapshot
delete_segment s db = record db { segments = erase s db.segments }

abbrev pub set_next_free_segment_id : ℕ → Snapshot → Snapshot
set_next_free_segment_id id db = record db {
  next_free_segment = id;
  next_free_segment_id_blob = set_id id db.next_free_segment_id_blob;
}

-- `Snapshot(other)`: the copy for the next commit, whose id has 64 bits, with the blob of the next free segment id as it is.
unfoldable pub next_snapshot : Snapshot → Snapshot
next_snapshot db = record db { commit_id = add64 db.commit_id 1 }

-- The blob that `GetLoadedBlob` finds, with its commit id.
unfoldable pub version_in_cluster : ℕ → Cluster → Option Blob
version_in_cluster b c =
    if b == next_free_blob_id then some c.next_free_blob_id_blob else find b c.blobs

unfoldable pub version_in_segment : ℕ → ℕ → Segment → Option Blob
version_in_segment c b s =
    if c == next_free_cluster_id && b == next_free_blob_id
    then some s.next_free_cluster_id_blob
    else elim (find c s.clusters) [ none ↦ none | some cluster ↦ version_in_cluster b cluster ]

abbrev pub version_in_clusters : ℕ → Option Cluster → Option Blob
version_in_clusters b none = none
version_in_clusters b (some c) = version_in_cluster b c

abbrev pub version_in_segments : ℕ → ℕ → Option Segment → Option Blob
version_in_segments c b none = none
version_in_segments c b (some s) = version_in_segment c b s

abbrev pub is_segment_id_blob : BlobLocation → Bool
is_segment_id_blob l =
    l.segment == next_free_segment_id
    && (l.cluster == next_free_cluster_id && l.blob == next_free_blob_id)

unfoldable pub version_of : BlobLocation → Snapshot → Option Blob
version_of l db =
    if is_segment_id_blob l
    then some db.next_free_segment_id_blob
    else elim (find l.segment db.segments) [
      | none ↦ none
      | some s ↦ version_in_segment l.cluster l.blob s
    ]
