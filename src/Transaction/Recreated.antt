-- ===== src/Transaction/Recreated.antt =====
-- A blob that is created, deleted and created again in one transaction.
use blobs_db.Base.{
  ℕ, ◌≡◌, ◌∙◌, refl, false, not, some, List, [], ◌∷◌, contains, contains-filter, filter, arith,
}
use blobs_db.BlobLocation.{BlobLocation, at}
use blobs_db.HeldLocks.{HeldLocks}
use blobs_db.StdSet.{find, count, insert, assign, erase, range}
use blobs_db.Outcome.{returned}
use blobs_db.Transaction.Orders.{location_less, location_order}
use blobs_db.Transaction.{
  DatabaseState, new_state, itself, write_blob, create_blob, delete_blob, read_blob,
  ensure_blob_not_deleted, is_cluster_deleted,
}
use blobs_db.Transaction.Operations.{create, remove, perform_all}
use blobs_db.Transaction.IdLists.{merge_blob_id_list}

abbrev recreated : BlobLocation → List ℕ → HeldLocks → DatabaseState
recreated l content locks = record (new_state locks) { written_blobs = (l, content) ∷ [] }

recreated_lem :
    (l : BlobLocation) (first second : List ℕ) (locks : HeldLocks)
    → perform_all (create l first ∷ remove l ∷ create l second ∷ []) (new_state locks)
      ≡ returned (recreated l second locks)
unfolding perform_all create_blob delete_blob write_blob ensure_blob_not_deleted is_cluster_deleted
    find insert assign erase
recreated_lem l first second locks = rw (location_order.irreflexive l) refl

-- Created, deleted and created again in one transaction, a blob is read with its content, but the
-- list of the blobs of its cluster does not name it.
pub recreated_blob_is_not_listed :
    (l : BlobLocation) (first second ids : List ℕ) (locks : HeldLocks)
    → contains ids l.blob ≡ false
    → (t : DatabaseState) × (listed : List ℕ) × (perform_all
          (create l first ∷ remove l ∷ create l second ∷ [])
          (new_state locks)
        ≡ returned t)
      × (read_blob l t ≡ returned (some second))
      × (merge_blob_id_list l.segment l.cluster ids t ≡ returned listed)
      × (contains listed l.blob ≡ false)
unfolding read_blob ensure_blob_not_deleted find merge_blob_id_list range is_cluster_deleted
recreated_blob_is_not_listed l first second ids locks h = (
  recreated l second locks,
  filter (λ (i : ℕ). not (count itself (at l.segment l.cluster i) [])) ids,
  recreated_lem l first second locks,
  rw (location_order.irreflexive l) refl,
  refl,
  contains-filter (λ (i : ℕ). not (count itself (at l.segment l.cluster i) [])) ids l.blob
      ∙ ground arith,
)
