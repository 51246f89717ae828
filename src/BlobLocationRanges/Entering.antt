-- ===== src/BlobLocationRanges/Entering.antt =====
-- The ranges of new clusters and segments.
use blobs_db.Base.{ℕ, ◌≤◌, ◌≡◌, ◌∙◌, ap, ◌&&◌, ◌||◌, List, any, any-append, ltb, ◌==◌, arith}
use blobs_db.Config.{max_blob_id, max_cluster_id, max_segment_id}
use blobs_db.BlobLocation.{BlobLocation, eq, lt, le}
use blobs_db.BlobLocationRanges.{
  BlobLocationRange, blob_range, in_range, encompasses, enter_new_cluster, enter_new_segment,
}
use blobs_db.BlobLocationRanges.Coverage.{IsForward}
use blobs_db.BlobLocationRanges.Creation.{Keeps, append-IsForward, append-Keeps, blob_range-forward}

pub enter_new_cluster-IsForward :
    (s c : ℕ) (rs : List BlobLocationRange)
    → c ≤ max_cluster_id
    → IsForward rs
    → IsForward (enter_new_cluster s c rs)
unfolding enter_new_cluster le eq lt
enter_new_cluster-IsForward s c rs h f =
    append-IsForward rs _ f (blob_range-forward s c 0 (omega arith), (ground arith, tt))

pub enter_new_cluster-Keeps :
    (s c : ℕ) (rs : List BlobLocationRange) → Keeps rs (enter_new_cluster s c rs)
unfolding enter_new_cluster
enter_new_cluster-Keeps s c rs = append-Keeps rs _

pub enter_new_segment-IsForward :
    (s : ℕ) (rs : List BlobLocationRange)
    → s ≤ max_segment_id
    → IsForward rs
    → IsForward (enter_new_segment s rs)
unfolding enter_new_segment le eq lt
enter_new_segment-IsForward s rs h f =
    append-IsForward (enter_new_cluster s 0 rs) _
      (enter_new_cluster-IsForward s 0 rs (omega arith) f) (ground arith, tt)

pub enter_new_segment-Keeps :
    (s : ℕ) (rs : List BlobLocationRange) → Keeps rs (enter_new_segment s rs)
unfolding enter_new_segment
enter_new_segment-Keeps s rs l h =
    append-Keeps (enter_new_cluster s 0 rs) _ l (enter_new_cluster-Keeps s 0 rs l h)

-- A new cluster brings its blob 0 and its artificial blobs, and no other location: in particular no
-- blob that the commit would still have to create.
pub encompasses-enter_new_cluster :
    (s c : ℕ) (rs : List BlobLocationRange) (l : BlobLocation)
    → c ≤ max_cluster_id
    → encompasses l (enter_new_cluster s c rs) ≡ (
        encompasses l rs
        || (l.segment == s && (l.cluster == c && (l.blob == 0 || ltb max_blob_id l.blob))))
unfolding encompasses enter_new_cluster blob_range le eq lt
encompasses-enter_new_cluster s c rs l h =
    any-append (in_range l) rs _ ∙ ap (λ t. any (in_range l) rs || t) (ground arith)
