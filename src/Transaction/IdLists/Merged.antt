-- ===== src/Transaction/IdLists/Merged.antt =====
-- The merged list of the blobs of a cluster.
use blobs_db.Base.{
  ℕ, ◌^◌, ◌<◌, ◌≡◌, ◌∙◌, ap, ap₂, refl, true, false, not, ◌&&◌, ◌||◌, List, [], ◌∷◌, ◌==◌, filter,
  map, all, contains, contains-append, contains-filter, arith, Bool-cases, inl, inr, is_some,
}
use blobs_db.BlobLocation.{BlobLocation, at, eq, lt}
use blobs_db.StdSet.{find, count, range}
use blobs_db.StdSet.Laws.{Sorted, find-cons}
use blobs_db.StdSet.Ranges.{find-range, range-Sorted, within-range}
use blobs_db.Outcome.{returned}
use blobs_db.Transaction.Orders.{location_less, location_order}
use blobs_db.Transaction.{DatabaseState, itself, max_id, is_cluster_deleted}
use blobs_db.Transaction.Overlay.{IsValid, same-eq-eq}
use blobs_db.Transaction.IdLists.{insert_created, sort, merge_blob_id_list}
use blobs_db.Transaction.IdLists.Ascending.{
  Ascending, insert_created-ids, insert_created-Ascending, contains-sort, sort-Ascending,
  filter-Ascending,
}

-- A location between the first and the last of a cluster is in it.
between :
    (s c : ℕ) (l : BlobLocation)
    → not (lt l (at s c 0) || lt (at s c max_id) l) ≡ true
    → (l.segment ≡ s) × (l.cluster ≡ c)
unfolding lt
between s c l h = ground arith

blob_there :
    (s c b : ℕ) (x : BlobLocation)
    → not (lt x (at s c 0) || lt (at s c max_id) x) ≡ true
    → eq (at s c b) x ≡ (x.blob == b)
unfolding eq
blob_there s c b x h = ground (arith, between s c x h)

contains-blobs :
    (s c b : ℕ) (ls : List BlobLocation)
    → Sorted itself location_order ls
    → all (λ l. not (lt l (at s c 0) || lt (at s c max_id) l)) ls ≡ true
    → contains (map (λ l. l.blob) ls) b ≡ count itself (at s c b) ls
unfolding find
contains-blobs s c b [] v a = refl
contains-blobs s c b (l ∷ ls) v a =
    rw (find-cons itself location_order (at s c b) l ls v, same-eq-eq (at s c b) l)
      (ground (arith, contains-blobs s c b ls v.1, blob_there s c b l))

in_id_range :
    (s c b : ℕ) → b < 2 ^ 32 → (lt (at s c b) (at s c 0) || lt (at s c max_id) (at s c b)) ≡ false
unfolding lt
in_id_range s c b h = ground arith

created_ids :
    (s c b : ℕ) (t : DatabaseState)
    → IsValid t
    → b < 2 ^ 32
    → contains (map (λ l. l.blob) (range itself (at s c 0) (at s c max_id) t.created_blobs)) b
      ≡ count itself (at s c b) t.created_blobs
created_ids s c b t v h =
    contains-blobs s c b (range itself (at s c 0) (at s c max_id) t.created_blobs)
      (range-Sorted itself location_order (at s c 0) (at s c max_id) t.created_blobs
        v.created_blobs_sorted)
      (within-range itself location_order (at s c 0) (at s c max_id) t.created_blobs
        v.created_blobs_sorted)
    ∙ ap is_some (
        find-range itself location_order (at s c 0) (at s c max_id) (at s c b) t.created_blobs
          v.created_blobs_sorted
        ∙ rw (in_id_range s c b h) refl)

-- In a cluster that the transaction has not deleted, the merged list is in ascending order if the
-- given one is, also where a blob was created below others, and it names exactly the blobs of the
-- given list that the transaction has not deleted and those that it counts as created.
pub merge_blob_id_list_lem :
    (s c b : ℕ) (ids : List ℕ) (t : DatabaseState)
    → IsValid t
    → is_cluster_deleted s c t ≡ false
    → b < 2 ^ 32
    → Ascending ids
    → (merged : List ℕ) × (merge_blob_id_list s c ids t ≡ returned merged)
      × Ascending merged
      × (contains merged b ≡ (
          (contains ids b && not (count itself (at s c b) t.deleted_blobs))
          || count itself (at s c b) t.created_blobs))
unfolding merge_blob_id_list
merge_blob_id_list_lem s c b ids t v n h a =
    let p = λ (i : ℕ). not (count itself (at s c i) t.deleted_blobs) in
    let kept = filter p ids in
    let created =
      map (λ (l : BlobLocation). l.blob)
        (range itself (at s c 0) (at s c max_id) t.created_blobs) in
    let both : contains (insert_created false kept created).1 b
        ≡ ((contains ids b && p b) || count itself (at s c b) t.created_blobs) =
      ap (λ xs. contains xs b) (insert_created-ids false kept created)
      ∙ contains-append kept created b
      ∙ ap₂ ◌||◌ (contains-filter p ids b) (created_ids s c b t v h) in
    elim (Bool-cases (insert_created false kept created).0) [
      | inl y ↦ (
        sort (insert_created false kept created).1,
        rw (n, y) refl,
        sort-Ascending (insert_created false kept created).1,
        contains-sort (insert_created false kept created).1 b ∙ both,
      )
      | inr m ↦ (
        (insert_created false kept created).1,
        rw (n, m) refl,
        insert_created-Ascending false kept created m (filter-Ascending p ids a),
        both,
      )
    ]
