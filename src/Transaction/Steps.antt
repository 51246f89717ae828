-- ===== src/Transaction/Steps.antt =====
-- One operation keeps the state of a transaction valid and does to the view what it means.
use blobs_db.Base.{ℕ, ◌≡◌, ◌⊎◌, ◌∙◌, subst, refl, true, false, List, arith, Bool-cases, inl, inr}
use blobs_db.BlobLocation.{BlobLocation, eq}
use blobs_db.BlobLocation.Order.{IsWide}
use blobs_db.StdSet.{count, insert}
use blobs_db.StdSet.Laws.{insert-Sorted}
use blobs_db.Outcome.{
  Exception, blob_deleted, cluster_deleted, segment_deleted, returned, thrown, >>=-eq-returned,
}
use blobs_db.Transaction.Orders.{
  location_less, cluster_less, segment_less, cluster_order, segment_order,
}
use blobs_db.Transaction.{
  DatabaseState, itself, is_segment_deleted, is_cluster_deleted, is_blob_deleted,
  ensure_segment_not_deleted, ensure_cluster_not_deleted, ensure_blob_not_deleted, write_blob,
  create_blob, create_cluster, create_segment, delete_blob, delete_cluster, delete_segment,
}
use blobs_db.Transaction.Overlay.{IsValid, overlay}
use blobs_db.Transaction.Edits.{
  write_blob-IsValid, overlay-write_blob, without_blob, without_blob-IsValid, overlay-without_blob,
  with_created, with_created-IsValid, overlay-with_created,
}
use blobs_db.Transaction.Removals.{
  without_cluster, without_cluster-IsValid, overlay-without_cluster, without_segment,
  without_segment-IsValid, overlay-without_segment,
}
use blobs_db.Transaction.Operations.{
  Operation, write, create, remove, make_cluster, remove_cluster, make_segment, remove_segment,
  write_checked, perform, meaning,
}

pub ensure_blob-cases :
    (l : BlobLocation) (t : DatabaseState)
    → ((is_blob_deleted l t ≡ false) × (ensure_blob_not_deleted l t ≡ returned tt))
      ⊎ ((is_blob_deleted l t ≡ true)
          × ((e : Exception) × (ensure_blob_not_deleted l t ≡ thrown e)))
unfolding is_blob_deleted is_cluster_deleted is_segment_deleted ensure_blob_not_deleted
    ensure_cluster_not_deleted ensure_segment_not_deleted
ensure_blob-cases l t = elim (Bool-cases (count itself l.segment t.deleted_segments)) [
  | inl y ↦ inr (rw y refl, (segment_deleted, rw y refl))
  | inr n ↦ elim (Bool-cases (count itself (l.segment, l.cluster) t.deleted_clusters)) [
    | inl y ↦ inr (rw (n, y) refl, (cluster_deleted, rw (n, y) refl))
    | inr m ↦ elim (Bool-cases (count itself l t.deleted_blobs)) [
      | inl y ↦ inr (rw (n, m, y) refl, (blob_deleted, rw (n, m, y) refl))
      | inr q ↦ inl (rw (n, m, q) refl, rw (n, m, q) refl)
    ]
  ]
]

abbrev pub Performed : Operation → DatabaseState → DatabaseState → Type 0
Performed o t t' =
    IsValid t' × ((k : BlobLocation) → IsWide k → overlay k t' ≡ meaning o k (overlay k t))

write_checked_lem :
    (l : BlobLocation) (content : List ℕ) (t t' : DatabaseState)
    → IsValid t
    → write_checked l content t ≡ returned t'
    → Performed (write l content) t t'
unfolding write_checked
write_checked_lem l content t t' v e = elim (ensure_blob-cases l t) [
  | inl (n, q) ↦
      let same : write_blob l content t ≡ t' = cc (e, q) in
      subst (Performed (write l content) t) same
        (write_blob-IsValid l content t v n, λ k w. overlay-write_blob k l content t n)
  | inr (d, (x, q)) ↦ absurd (ground (arith, q))
]

created_lem :
    (l : BlobLocation) (t t' : DatabaseState)
    → create_blob l t ≡ returned t'
    → (is_cluster_deleted l.segment l.cluster t ≡ false) × (with_created l t ≡ t')
unfolding create_blob
created_lem l t t' e = elim (Bool-cases (is_cluster_deleted l.segment l.cluster t)) [
  | inl y ↦ absurd (ground (arith, rw y at e))
  | inr n ↦ (n, cc (rw n at e))
]

create_lem :
    (l : BlobLocation) (content : List ℕ) (t t' : DatabaseState)
    → IsValid t
    → perform (create l content) t ≡ returned t'
    → Performed (create l content) t t'
unfolding perform
create_lem l content t t' v e =
    let (t1, made, rest) = >>=-eq-returned (create_blob l t) (write_checked l content) e in
    let (n, same) = created_lem l t t1 made in
    let (v1, n1) = with_created-IsValid l t v n in
    let (v', now) = write_checked_lem l content t1 t' (subst IsValid same v1) rest in
    (
      v',
      λ k w. now k w ∙ elim (Bool-cases (eq k l)) [
        | inl y ↦ rw y refl
        | inr m ↦
            rw m (subst (λ u. overlay k u ≡ overlay k t) same (overlay-with_created k l t v n m))
      ],
    )

delete_blob_lem :
    (l : BlobLocation) (t t' : DatabaseState)
    → delete_blob l t ≡ returned t'
    → without_blob l t ≡ t'
unfolding delete_blob
delete_blob_lem l t t' e = elim (ensure_blob-cases l t) [
  | inl (n, q) ↦ cc (rw q at e)
  | inr (d, (x, q)) ↦ absurd (ground (arith, rw q at e))
]

delete_cluster_lem :
    (s c : ℕ) (t t' : DatabaseState)
    → delete_cluster s c t ≡ returned t'
    → without_cluster s c t ≡ t'
unfolding delete_cluster ensure_cluster_not_deleted ensure_segment_not_deleted
delete_cluster_lem s c t t' e = ground arith

delete_segment_lem :
    (s : ℕ) (t t' : DatabaseState) → delete_segment s t ≡ returned t' → without_segment s t ≡ t'
unfolding delete_segment ensure_segment_not_deleted
delete_segment_lem s t t' e = ground arith

create_cluster_lem :
    (s c : ℕ) (t t' : DatabaseState)
    → create_cluster s c t ≡ returned t'
    → record t { created_clusters = insert itself (s, c) t.created_clusters } ≡ t'
unfolding create_cluster
create_cluster_lem s c t t' e = ground arith

create_segment_lem :
    (s : ℕ) (t t' : DatabaseState)
    → create_segment s t ≡ returned t'
    → record t { created_segments = insert itself s t.created_segments } ≡ t'
unfolding create_segment
create_segment_lem s t t' e = ground arith

with_cluster_made :
    (s c : ℕ) (t : DatabaseState)
    → IsValid t
    → Performed
        (make_cluster s c)
        t
        (record t { created_clusters = insert itself (s, c) t.created_clusters })
unfolding overlay is_blob_deleted is_cluster_deleted is_segment_deleted
with_cluster_made s c t v = (
  record {
    written_sorted = v.written_sorted;
    deleted_blobs_sorted = v.deleted_blobs_sorted;
    created_blobs_sorted = v.created_blobs_sorted;
    deleted_clusters_sorted = v.deleted_clusters_sorted;
    created_clusters_sorted =
        insert-Sorted itself cluster_order (s, c) t.created_clusters v.created_clusters_sorted;
    deleted_segments_sorted = v.deleted_segments_sorted;
    created_segments_sorted = v.created_segments_sorted;
    not_written = λ k w d. v.not_written k w d;
    not_created = λ k w d. v.not_created k w d;
  },
  λ k w. refl,
)

with_segment_made :
    (s : ℕ) (t : DatabaseState)
    → IsValid t
    → Performed
        (make_segment s)
        t
        (record t { created_segments = insert itself s t.created_segments })
unfolding overlay is_blob_deleted is_cluster_deleted is_segment_deleted
with_segment_made s t v = (
  record {
    written_sorted = v.written_sorted;
    deleted_blobs_sorted = v.deleted_blobs_sorted;
    created_blobs_sorted = v.created_blobs_sorted;
    deleted_clusters_sorted = v.deleted_clusters_sorted;
    created_clusters_sorted = v.created_clusters_sorted;
    deleted_segments_sorted = v.deleted_segments_sorted;
    created_segments_sorted =
        insert-Sorted itself segment_order s t.created_segments v.created_segments_sorted;
    not_written = λ k w d. v.not_written k w d;
    not_created = λ k w d. v.not_created k w d;
  },
  λ k w. refl,
)

pub perform_lem :
    (o : Operation) (t t' : DatabaseState)
    → IsValid t
    → perform o t ≡ returned t'
    → Performed o t t'
unfolding perform
perform_lem (write l content) t t' v e = write_checked_lem l content t t' v e
perform_lem (create l content) t t' v e = create_lem l content t t' v e
perform_lem (remove l) t t' v e =
    subst (Performed (remove l) t) (delete_blob_lem l t t' e)
      (without_blob-IsValid l t v, λ k w. overlay-without_blob k l t v)
perform_lem (make_cluster s c) t t' v e =
    subst (Performed (make_cluster s c) t) (create_cluster_lem s c t t' e)
      (with_cluster_made s c t v)
perform_lem (remove_cluster s c) t t' v e =
    subst (Performed (remove_cluster s c) t) (delete_cluster_lem s c t t' e)
      (without_cluster-IsValid s c t v, λ k w. overlay-without_cluster k s c t v w)
perform_lem (make_segment s) t t' v e =
    subst (Performed (make_segment s) t) (create_segment_lem s t t' e) (with_segment_made s t v)
perform_lem (remove_segment s) t t' v e =
    subst (Performed (remove_segment s) t) (delete_segment_lem s t t' e)
      (without_segment-IsValid s t v, λ k w. overlay-without_segment k s t v w)
