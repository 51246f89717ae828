-- ===== src/Transaction/Removals.antt =====
-- The deletion of a cluster or a segment in a transaction keeps its state valid, and takes exactly
-- the blobs in it from the view.
use blobs_db.Base.{ℕ, ◌≡◌, ◌∙◌, Bool, false, ◌&&◌, ◌||◌, none, List, ◌==◌, if◌then◌else◌, arith}
use blobs_db.BlobLocation.{BlobLocation, at, lt}
use blobs_db.BlobLocation.Order.{IsWide}
use blobs_db.StdSet.{find, insert, erase, erase_range}
use blobs_db.StdSet.Laws.{
  Sorted, count-insert, find-erase_range, insert-Sorted, erase_range-Sorted, erase-Sorted,
}
use blobs_db.Transaction.Orders.{
  location_less, cluster_less, segment_less, location_order, cluster_order, segment_order,
}
use blobs_db.Transaction.{
  DatabaseState, itself, location_of, max_id, is_segment_deleted, is_cluster_deleted,
  is_blob_deleted,
}
use blobs_db.Transaction.Overlay.{
  gone, IsValid, overlay, same_cluster, same_segment, cluster_range, segment_range,
}

-- Deleting a cluster.
abbrev pub without_cluster : ℕ → ℕ → DatabaseState → DatabaseState
without_cluster s c t = record t {
  written_blobs = erase_range location_of (at s c 0) (at s c max_id) t.written_blobs;
  created_blobs = erase_range itself (at s c 0) (at s c max_id) t.created_blobs;
  deleted_blobs = erase_range itself (at s c 0) (at s c max_id) t.deleted_blobs;
  created_clusters = erase itself (s, c) t.created_clusters;
  deleted_clusters = insert itself (s, c) t.deleted_clusters;
}

abbrev in_cluster : ℕ → ℕ → BlobLocation → Bool
in_cluster s c k = k.segment == s && k.cluster == c

cluster_end : (s c : ℕ) → lt (at s c max_id) (at s c 0) ≡ false
unfolding lt
cluster_end s c = ground arith

module _ {A : Type 0} (key : A → BlobLocation) where
  find-erase_cluster :
      (s c : ℕ) (k : BlobLocation) (xs : List A)
      → Sorted key location_order xs
      → IsWide k
      → find key k (erase_range key (at s c 0) (at s c max_id) xs)
        ≡ (if in_cluster s c k then none else find key k xs)
  find-erase_cluster s c k xs v w =
      find-erase_range key location_order (at s c 0) (at s c max_id) k xs (cluster_end s c) v
      ∙ ground (arith, cluster_range k s c w)

is_blob_deleted-without_cluster :
    (k : BlobLocation) (s c : ℕ) (t : DatabaseState)
    → IsValid t
    → IsWide k
    → is_blob_deleted k (without_cluster s c t) ≡ (in_cluster s c k || is_blob_deleted k t)
unfolding is_blob_deleted is_cluster_deleted is_segment_deleted
is_blob_deleted-without_cluster k s c t v w = ground (
  arith,
  count-insert itself cluster_order (k.segment, k.cluster) (s, c) t.deleted_clusters,
  same_cluster k.segment k.cluster s c,
  find-erase_cluster itself s c k t.deleted_blobs v.deleted_blobs_sorted w,
)

pub without_cluster-IsValid :
    (s c : ℕ) (t : DatabaseState) → IsValid t → IsValid (without_cluster s c t)
without_cluster-IsValid s c t v = record {
  written_sorted =
      erase_range-Sorted location_of location_order (at s c 0) (at s c max_id) t.written_blobs
        (cluster_end s c) v.written_sorted;
  deleted_blobs_sorted =
      erase_range-Sorted itself location_order (at s c 0) (at s c max_id) t.deleted_blobs
        (cluster_end s c) v.deleted_blobs_sorted;
  created_blobs_sorted =
      erase_range-Sorted itself location_order (at s c 0) (at s c max_id) t.created_blobs
        (cluster_end s c) v.created_blobs_sorted;
  deleted_clusters_sorted =
      insert-Sorted itself cluster_order (s, c) t.deleted_clusters v.deleted_clusters_sorted;
  created_clusters_sorted =
      erase-Sorted itself cluster_order (s, c) t.created_clusters v.created_clusters_sorted;
  deleted_segments_sorted = v.deleted_segments_sorted;
  created_segments_sorted = v.created_segments_sorted;
  not_written = λ k w d. ground (
    arith,
    find-erase_cluster location_of s c k t.written_blobs v.written_sorted w,
    is_blob_deleted-without_cluster k s c t v w,
    v.not_written k w,
  );
  not_created = λ k w d. ground (
    arith,
    find-erase_cluster itself s c k t.created_blobs v.created_blobs_sorted w,
    is_blob_deleted-without_cluster k s c t v w,
    v.not_created k w,
  );
}

pub overlay-without_cluster :
    (k : BlobLocation) (s c : ℕ) (t : DatabaseState)
    → IsValid t
    → IsWide k
    → overlay k (without_cluster s c t) ≡ (if in_cluster s c k then gone else overlay k t)
unfolding overlay
overlay-without_cluster k s c t v w = ground (
  arith,
  find-erase_cluster location_of s c k t.written_blobs v.written_sorted w,
  is_blob_deleted-without_cluster k s c t v w,
)

-- Deleting a segment.
abbrev pub without_segment : ℕ → DatabaseState → DatabaseState
without_segment s t = record t {
  written_blobs = erase_range location_of (at s 0 0) (at s max_id max_id) t.written_blobs;
  created_blobs = erase_range itself (at s 0 0) (at s max_id max_id) t.created_blobs;
  deleted_blobs = erase_range itself (at s 0 0) (at s max_id max_id) t.deleted_blobs;
  created_clusters = erase_range itself (s, 0) (s, max_id) t.created_clusters;
  deleted_clusters = erase_range itself (s, 0) (s, max_id) t.deleted_clusters;
  created_segments = erase itself s t.created_segments;
  deleted_segments = insert itself s t.deleted_segments;
}

segment_end : (s : ℕ) → lt (at s max_id max_id) (at s 0 0) ≡ false
unfolding lt
segment_end s = ground arith

abbrev pair_less : ℕ × ℕ → ℕ × ℕ → Bool
pair_less = cluster_less.less

clusters_end : (s : ℕ) → pair_less (s, max_id) (s, 0) ≡ false
clusters_end s = ground arith

module _ {A : Type 0} (key : A → BlobLocation) where
  find-erase_segment :
      (s : ℕ) (k : BlobLocation) (xs : List A)
      → Sorted key location_order xs
      → IsWide k
      → find key k (erase_range key (at s 0 0) (at s max_id max_id) xs)
        ≡ (if k.segment == s then none else find key k xs)
  find-erase_segment s k xs v w =
      find-erase_range key location_order (at s 0 0) (at s max_id max_id) k xs (segment_end s) v
      ∙ ground (arith, segment_range k s w)

-- The clusters of other segments stay.
find-erase_clusters :
    (s a c : ℕ) (xs : List (ℕ × ℕ))
    → Sorted itself cluster_order xs
    → (a == s) ≡ false
    → find itself (a, c) (erase_range itself (s, 0) (s, max_id) xs) ≡ find itself (a, c) xs
find-erase_clusters s a c xs v n =
    find-erase_range itself cluster_order (s, 0) (s, max_id) (a, c) xs (clusters_end s) v
    ∙ ground arith

is_blob_deleted-without_segment :
    (k : BlobLocation) (s : ℕ) (t : DatabaseState)
    → IsValid t
    → IsWide k
    → is_blob_deleted k (without_segment s t) ≡ (k.segment == s || is_blob_deleted k t)
unfolding is_blob_deleted is_cluster_deleted is_segment_deleted
is_blob_deleted-without_segment k s t v w = ground (
  arith,
  count-insert itself segment_order k.segment s t.deleted_segments,
  same_segment k.segment s,
  find-erase_clusters s k.segment k.cluster t.deleted_clusters v.deleted_clusters_sorted,
  find-erase_segment itself s k t.deleted_blobs v.deleted_blobs_sorted w,
)

pub without_segment-IsValid :
    (s : ℕ) (t : DatabaseState) → IsValid t → IsValid (without_segment s t)
without_segment-IsValid s t v = record {
  written_sorted =
      erase_range-Sorted location_of location_order (at s 0 0) (at s max_id max_id) t.written_blobs
        (segment_end s) v.written_sorted;
  deleted_blobs_sorted =
      erase_range-Sorted itself location_order (at s 0 0) (at s max_id max_id) t.deleted_blobs
        (segment_end s) v.deleted_blobs_sorted;
  created_blobs_sorted =
      erase_range-Sorted itself location_order (at s 0 0) (at s max_id max_id) t.created_blobs
        (segment_end s) v.created_blobs_sorted;
  deleted_clusters_sorted =
      erase_range-Sorted itself cluster_order (s, 0) (s, max_id) t.deleted_clusters (clusters_end s)
        v.deleted_clusters_sorted;
  created_clusters_sorted =
      erase_range-Sorted itself cluster_order (s, 0) (s, max_id) t.created_clusters (clusters_end s)
        v.created_clusters_sorted;
  deleted_segments_sorted =
      insert-Sorted itself segment_order s t.deleted_segments v.deleted_segments_sorted;
  created_segments_sorted =
      erase-Sorted itself segment_order s t.created_segments v.created_segments_sorted;
  not_written = λ k w d. ground (
    arith,
    find-erase_segment location_of s k t.written_blobs v.written_sorted w,
    is_blob_deleted-without_segment k s t v w,
    v.not_written k w,
  );
  not_created = λ k w d. ground (
    arith,
    find-erase_segment itself s k t.created_blobs v.created_blobs_sorted w,
    is_blob_deleted-without_segment k s t v w,
    v.not_created k w,
  );
}

pub overlay-without_segment :
    (k : BlobLocation) (s : ℕ) (t : DatabaseState)
    → IsValid t
    → IsWide k
    → overlay k (without_segment s t) ≡ (if k.segment == s then gone else overlay k t)
unfolding overlay
overlay-without_segment k s t v w = ground (
  arith,
  find-erase_segment location_of s k t.written_blobs v.written_sorted w,
  is_blob_deleted-without_segment k s t v w,
)
