-- ===== src/Transaction/Overlay.antt =====
-- The state of a transaction as a layer over the blobs of the database: each blob is untouched, has
-- new content, or is gone.
use blobs_db.Base.{
  ℕ, ◌≡◌, true, false, not, ◌&&◌, ◌||◌, Option, none, some, List, ◌==◌, if◌then◌else◌, arith,
}
use blobs_db.BlobLocation.{BlobLocation, at, eq, lt}
use blobs_db.BlobLocation.Order.{IsWide}
use blobs_db.StdSet.{find, count, same}
use blobs_db.StdSet.Laws.{Sorted}
use blobs_db.Transaction.Orders.{
  location_less, cluster_less, segment_less, location_order, cluster_order, segment_order,
}
use blobs_db.Transaction.{DatabaseState, itself, location_of, max_id, is_blob_deleted}

pub data View : Type 0 where
  untouched : View
  has_content : List ℕ → View
  gone : View

-- The sets and the map are in order, and nothing that is deleted has new content or counts as
-- created.
pub record IsValid (t : DatabaseState) : Type 0 where
  pub written_sorted : Sorted location_of location_order t.written_blobs
  pub deleted_blobs_sorted : Sorted itself location_order t.deleted_blobs
  pub created_blobs_sorted : Sorted itself location_order t.created_blobs
  pub deleted_clusters_sorted : Sorted itself cluster_order t.deleted_clusters
  pub created_clusters_sorted : Sorted itself cluster_order t.created_clusters
  pub deleted_segments_sorted : Sorted itself segment_order t.deleted_segments
  pub created_segments_sorted : Sorted itself segment_order t.created_segments
  pub not_written :
      (l : BlobLocation)
      → IsWide l
      → is_blob_deleted l t ≡ true
      → find location_of l t.written_blobs ≡ none
  pub not_created :
      (l : BlobLocation)
      → IsWide l
      → is_blob_deleted l t ≡ true
      → count itself l t.created_blobs ≡ false

abbrev pub written_view : Option (BlobLocation × List ℕ) → View
written_view none = untouched
written_view (some e) = has_content e.1

unfoldable pub overlay : BlobLocation → DatabaseState → View
overlay l t =
    if is_blob_deleted l t then gone else written_view (find location_of l t.written_blobs)

pub same-eq-eq : (k l : BlobLocation) → same k l ≡ eq k l
unfolding lt eq
same-eq-eq k l = ground arith

pub same_cluster : (a b c d : ℕ) → same {K = ℕ × ℕ} (a, b) (c, d) ≡ (a == c && b == d)
same_cluster a b c d = ground arith

pub same_segment : (a b : ℕ) → same a b ≡ (a == b)
same_segment a b = ground arith

-- A range of locations from the first to the last of a cluster, or of a segment.
pub cluster_range :
    (k : BlobLocation) (s c : ℕ)
    → IsWide k
    → (lt k (at s c 0) || lt (at s c max_id) k) ≡ not (k.segment == s && k.cluster == c)
unfolding lt
cluster_range k s c w = ground (arith, w.blob_fits)

pub segment_range :
    (k : BlobLocation) (s : ℕ)
    → IsWide k
    → (lt k (at s 0 0) || lt (at s max_id max_id) k) ≡ not (k.segment == s)
unfolding lt
segment_range k s w = ground (arith, w.blob_fits, w.cluster_fits)
