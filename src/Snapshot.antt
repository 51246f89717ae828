-- ===== src/Snapshot.antt =====
-- What the server reads of a snapshot: the lookups of ServerLib/Database.cpp (`Snapshot`),
-- ServerLib/Segment.cpp and ServerLib/Cluster.cpp. A `sorted_flat_map` is the list of its entries;
-- a segment, a cluster or a blob stands here with the content that it has once it is loaded.
use blobs_db.Base.{
  ℕ, ◌+◌, ◌*◌, ◌/◌, ◌%◌, ◌&&◌, Option, none, some, List, [], ◌∷◌, ◌==◌, if◌then◌else◌, map, is_some,
}
use blobs_db.Config.{next_free_blob_id, next_free_cluster_id, next_free_segment_id}
use blobs_db.BlobLocation.{BlobLocation}
use blobs_db.LockUtil.{Directory}
use blobs_db.BlobLocationRanges.{Blobs}

pub record Cluster : Type 0 where
  pub next_free_blob : ℕ
  pub blobs : List (ℕ × List ℕ)

pub record Segment : Type 0 where
  pub next_free_cluster : ℕ
  pub clusters : List (ℕ × Cluster)

pub record Snapshot : Type 0 where
  pub next_free_segment : ℕ
  pub segments : List (ℕ × Segment)

-- `sorted_flat_map::find`
abbrev pub entry {ℓ} : {A : Type ℓ} → ℕ → List (ℕ × A) → Option A
entry i [] = none
entry i ((j, a) ∷ xs) = if j == i then some a else entry i xs

abbrev pub keys {ℓ} : {A : Type ℓ} → List (ℕ × A) → List ℕ
keys xs = map (λ e. e.0) xs

-- The four bytes of a `uint32_t`, as `SetIdContent` stores it, and back.
abbrev pub id_content : ℕ → List ℕ
id_content n = n % 256 ∷ n / 256 % 256 ∷ n / 65536 % 256 ∷ n / 16777216 % 256 ∷ []

abbrev pub read_id : List ℕ → Option ℕ
read_id (a ∷ b ∷ c ∷ d ∷ []) = some (a + 256 * b + 65536 * c + 16777216 * d)
read_id _ = none

-- `Cluster::GetLoadedBlob`, `Segment::GetLoadedBlob`, `Snapshot::GetLoadedBlob`
unfoldable pub blob_in_cluster : ℕ → Cluster → Option (List ℕ)
blob_in_cluster b c =
    if b == next_free_blob_id then some (id_content c.next_free_blob) else entry b c.blobs

unfoldable pub blob_in_segment : ℕ → ℕ → Segment → Option (List ℕ)
unfolding blob_in_cluster
blob_in_segment c b s =
    if c == next_free_cluster_id && b == next_free_blob_id
    then some (id_content s.next_free_cluster)
    else elim (entry c s.clusters) [ none ↦ none | some cluster ↦ blob_in_cluster b cluster ]

unfoldable pub get_loaded_blob : BlobLocation → Snapshot → Option (List ℕ)
unfolding blob_in_segment
get_loaded_blob l db =
    if l.segment == next_free_segment_id
      && (l.cluster == next_free_cluster_id && l.blob == next_free_blob_id)
    then some (id_content db.next_free_segment)
    else elim (entry l.segment db.segments) [
      | none ↦ none
      | some s ↦ blob_in_segment l.cluster l.blob s
    ]

-- `Snapshot::GetLoadedSegment` and `Snapshot::GetLoadedCluster`
unfoldable pub get_loaded_segment : ℕ → Snapshot → Option Segment
get_loaded_segment s db = entry s db.segments

unfoldable pub get_loaded_cluster : ℕ → ℕ → Snapshot → Option Cluster
unfolding get_loaded_segment
get_loaded_cluster s c db = elim (get_loaded_segment s db) [
  | none ↦ none
  | some segment ↦ entry c segment.clusters
]

-- What the lock functions read of the snapshot.
unfoldable pub directory : Snapshot → Directory
unfolding get_loaded_cluster
directory db = record {
  clusters_of =
      λ s. elim (get_loaded_segment s db) [ none ↦ none | some seg ↦ some (keys seg.clusters) ];
  blobs_of =
      λ s c. elim (get_loaded_cluster s c db) [ none ↦ none | some cl ↦ some (keys cl.blobs) ];
}

-- What `EncompassesWithBlobCreation` reads of the snapshot: `GetBlob` of the loaded cluster, which
-- knows no artificial blob.
unfoldable pub blob_lookup : Snapshot → Blobs
unfolding get_loaded_cluster
blob_lookup db = record {
  has_blob = λ s c b. elim (get_loaded_cluster s c db) [
    | none ↦ none
    | some cl ↦ some (is_some (entry b cl.blobs))
  ];
}
