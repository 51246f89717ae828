-- ===== src/Transaction/Edits.antt =====
-- Each operation of a transaction keeps its state valid, and changes the view of exactly the blobs
-- that it is about.
use blobs_db.Base.{
  ℕ, ◌≡◌, refl, false, not, ◌&&◌, ◌||◌, none, some, List, if◌then◌else◌, arith, Bool-cases, inl,
  inr, Option, ap, ◌∙◌,
}
use blobs_db.BlobLocation.{BlobLocation, eq}
use blobs_db.BlobLocation.Order.{eq_iff, eq_refl}
use blobs_db.StdSet.{find, count, insert, erase}
use blobs_db.StdSet.Laws.{
  find-assign, count-insert, find-erase, assign-Sorted, insert-Sorted, erase-Sorted,
}
use blobs_db.Transaction.Orders.{location_less, cluster_less, segment_less, location_order}
use blobs_db.Transaction.{
  DatabaseState, itself, location_of, is_segment_deleted, is_cluster_deleted, is_blob_deleted,
  write_blob, read_blob, ensure_blob_not_deleted, ensure_cluster_not_deleted,
  ensure_segment_not_deleted,
}
use blobs_db.Outcome.{Outcome, returned, ◌>>=◌}
use blobs_db.Transaction.Overlay.{has_content, gone, IsValid, overlay, same-eq-eq}

-- Writing.
written_after :
    (k l : BlobLocation) (content : List ℕ) (t : DatabaseState)
    → find location_of k (write_blob l content t).written_blobs
      ≡ (if eq k l then some (l, content) else find location_of k t.written_blobs)
unfolding write_blob
written_after k l content t =
    rw (find-assign location_of location_order k (l, content) t.written_blobs, same-eq-eq k l) refl

pub read_blob-write_blob :
    (l : BlobLocation) (content : List ℕ) (t : DatabaseState)
    → ensure_blob_not_deleted l t ≡ returned tt
    → read_blob l (write_blob l content t) ≡ returned (some content)
unfolding read_blob write_blob ensure_blob_not_deleted ensure_cluster_not_deleted
    ensure_segment_not_deleted
read_blob-write_blob l content t clear =
    let found : find location_of l (write_blob l content t).written_blobs ≡ some (l, content) =
      written_after l l content t ∙ rw (eq_refl l) refl in
    let own : Option (BlobLocation × List ℕ) → Outcome (Option (List ℕ)) =
      λ o. returned (elim o [ none ↦ none | some e ↦ some e.1 ]) in
    ap (λ o. o >>= λ _. own (find location_of l (write_blob l content t).written_blobs)) clear
    ∙ ap own found

pub write_blob-IsValid :
    (l : BlobLocation) (content : List ℕ) (t : DatabaseState)
    → IsValid t
    → is_blob_deleted l t ≡ false
    → IsValid (write_blob l content t)
unfolding write_blob is_blob_deleted is_cluster_deleted is_segment_deleted
write_blob-IsValid l content t v n = record {
  written_sorted =
      assign-Sorted location_of location_order (l, content) t.written_blobs v.written_sorted;
  deleted_blobs_sorted = v.deleted_blobs_sorted;
  created_blobs_sorted = v.created_blobs_sorted;
  deleted_clusters_sorted = v.deleted_clusters_sorted;
  created_clusters_sorted = v.created_clusters_sorted;
  deleted_segments_sorted = v.deleted_segments_sorted;
  created_segments_sorted = v.created_segments_sorted;
  not_written =
      λ k w d. ground (arith, written_after k l content t, v.not_written k w d, eq_iff k l);
  not_created = λ k w d. v.not_created k w d;
}

pub overlay-write_blob :
    (k l : BlobLocation) (content : List ℕ) (t : DatabaseState)
    → is_blob_deleted l t ≡ false
    → overlay k (write_blob l content t) ≡ (if eq k l then has_content content else overlay k t)
unfolding overlay is_blob_deleted is_cluster_deleted is_segment_deleted write_blob
overlay-write_blob k l content t n = ground (arith, written_after k l content t, eq_iff k l)

-- Deleting a blob.
abbrev pub without_blob : BlobLocation → DatabaseState → DatabaseState
without_blob l t = record t {
  written_blobs = erase location_of l t.written_blobs;
  created_blobs = erase itself l t.created_blobs;
  deleted_blobs = insert itself l t.deleted_blobs;
}

is_blob_deleted-without_blob :
    (k l : BlobLocation) (t : DatabaseState)
    → is_blob_deleted k (without_blob l t) ≡ (eq k l || is_blob_deleted k t)
unfolding is_blob_deleted is_cluster_deleted is_segment_deleted
is_blob_deleted-without_blob k l t =
    ground (arith, count-insert itself location_order k l t.deleted_blobs, same-eq-eq k l)

written_without_blob :
    (k l : BlobLocation) (t : DatabaseState)
    → IsValid t
    → find location_of k (without_blob l t).written_blobs
      ≡ (if eq k l then none else find location_of k t.written_blobs)
written_without_blob k l t v =
    rw (find-erase location_of location_order l k t.written_blobs v.written_sorted, same-eq-eq k l)
      refl

created_without_blob :
    (k l : BlobLocation) (t : DatabaseState)
    → IsValid t
    → find itself k (without_blob l t).created_blobs
      ≡ (if eq k l then none else find itself k t.created_blobs)
created_without_blob k l t v =
    rw (find-erase itself location_order l k t.created_blobs v.created_blobs_sorted, same-eq-eq k l)
      refl

pub without_blob-IsValid :
    (l : BlobLocation) (t : DatabaseState) → IsValid t → IsValid (without_blob l t)
without_blob-IsValid l t v = record {
  written_sorted = erase-Sorted location_of location_order l t.written_blobs v.written_sorted;
  deleted_blobs_sorted =
      insert-Sorted itself location_order l t.deleted_blobs v.deleted_blobs_sorted;
  created_blobs_sorted =
      erase-Sorted itself location_order l t.created_blobs v.created_blobs_sorted;
  deleted_clusters_sorted = v.deleted_clusters_sorted;
  created_clusters_sorted = v.created_clusters_sorted;
  deleted_segments_sorted = v.deleted_segments_sorted;
  created_segments_sorted = v.created_segments_sorted;
  not_written = λ k w d.
      ground (
        arith,
        written_without_blob k l t v,
        is_blob_deleted-without_blob k l t,
        v.not_written k w,
      );
  not_created = λ k w d.
      ground (
        arith,
        created_without_blob k l t v,
        is_blob_deleted-without_blob k l t,
        v.not_created k w,
      );
}

pub overlay-without_blob :
    (k l : BlobLocation) (t : DatabaseState)
    → IsValid t
    → overlay k (without_blob l t) ≡ (if eq k l then gone else overlay k t)
unfolding overlay
overlay-without_blob k l t v =
    ground (arith, written_without_blob k l t v, is_blob_deleted-without_blob k l t)

-- Creating a blob, which its caller then writes.
abbrev pub with_created : BlobLocation → DatabaseState → DatabaseState
with_created l t =
    if count itself l t.deleted_blobs
    then record t { deleted_blobs = erase itself l t.deleted_blobs }
    else record t { created_blobs = insert itself l t.created_blobs }

is_blob_deleted-with_created :
    (k l : BlobLocation) (t : DatabaseState)
    → IsValid t
    → is_cluster_deleted l.segment l.cluster t ≡ false
    → is_blob_deleted k (with_created l t) ≡ (not (eq k l) && is_blob_deleted k t)
unfolding is_blob_deleted is_cluster_deleted is_segment_deleted
is_blob_deleted-with_created k l t v n = ground (
  arith,
  find-erase itself location_order l k t.deleted_blobs v.deleted_blobs_sorted,
  same-eq-eq k l,
  eq_iff k l,
)

recovered-IsValid :
    (l : BlobLocation) (t : DatabaseState)
    → IsValid t
    → IsValid (record t { deleted_blobs = erase itself l t.deleted_blobs })
unfolding is_blob_deleted is_cluster_deleted is_segment_deleted
recovered-IsValid l t v = record {
  written_sorted = v.written_sorted;
  deleted_blobs_sorted =
      erase-Sorted itself location_order l t.deleted_blobs v.deleted_blobs_sorted;
  created_blobs_sorted = v.created_blobs_sorted;
  deleted_clusters_sorted = v.deleted_clusters_sorted;
  created_clusters_sorted = v.created_clusters_sorted;
  deleted_segments_sorted = v.deleted_segments_sorted;
  created_segments_sorted = v.created_segments_sorted;
  not_written = λ k w d. v.not_written k w (
      ground
        (arith, d, find-erase itself location_order l k t.deleted_blobs v.deleted_blobs_sorted));
  not_created = λ k w d. v.not_created k w (
      ground
        (arith, d, find-erase itself location_order l k t.deleted_blobs v.deleted_blobs_sorted));
}

inserted-IsValid :
    (l : BlobLocation) (t : DatabaseState)
    → IsValid t
    → is_cluster_deleted l.segment l.cluster t ≡ false
    → count itself l t.deleted_blobs ≡ false
    → IsValid (record t { created_blobs = insert itself l t.created_blobs })
unfolding is_blob_deleted is_cluster_deleted is_segment_deleted
inserted-IsValid l t v n m = record {
  written_sorted = v.written_sorted;
  deleted_blobs_sorted = v.deleted_blobs_sorted;
  created_blobs_sorted =
      insert-Sorted itself location_order l t.created_blobs v.created_blobs_sorted;
  deleted_clusters_sorted = v.deleted_clusters_sorted;
  created_clusters_sorted = v.created_clusters_sorted;
  deleted_segments_sorted = v.deleted_segments_sorted;
  created_segments_sorted = v.created_segments_sorted;
  not_written = λ k w d. v.not_written k w d;
  not_created = λ k w d. ground (
    arith,
    n,
    m,
    d,
    v.not_created k w d,
    count-insert itself location_order k l t.created_blobs,
    same-eq-eq k l,
    eq_iff k l,
  );
}

pub with_created-IsValid :
    (l : BlobLocation) (t : DatabaseState)
    → IsValid t
    → is_cluster_deleted l.segment l.cluster t ≡ false
    → IsValid (with_created l t) × (is_blob_deleted l (with_created l t) ≡ false)
with_created-IsValid l t v n = (
  elim (Bool-cases (count itself l t.deleted_blobs)) [
    | inl y ↦ rw y (recovered-IsValid l t v)
    | inr m ↦ rw m (inserted-IsValid l t v n m)
  ],
  ground (arith, is_blob_deleted-with_created l l t v n, eq_refl l),
)

pub overlay-with_created :
    (k l : BlobLocation) (t : DatabaseState)
    → IsValid t
    → is_cluster_deleted l.segment l.cluster t ≡ false
    → eq k l ≡ false
    → overlay k (with_created l t) ≡ overlay k t
unfolding overlay
overlay-with_created k l t v n other = ground (arith, is_blob_deleted-with_created k l t v n)
