-- ===== src/Transaction/History.antt =====
-- A history of operations of a transaction, and what the transaction reads after it.
use blobs_db.Base.{
  ℕ, ◌≡◌, ◌∙◌, subst, ap, refl, Option, none, some, List, [], ◌∷◌, Option-cases, inl, inr,
}
use blobs_db.BlobLocation.{BlobLocation}
use blobs_db.BlobLocation.Order.{IsWide}
use blobs_db.StdSet.{find}
use blobs_db.HeldLocks.{HeldLocks}
use blobs_db.Outcome.{Exception, Outcome, returned, thrown, >>=-eq-returned}
use blobs_db.Transaction.Orders.{location_less, cluster_less, segment_less}
use blobs_db.Transaction.{
  DatabaseState, new_state, location_of, is_segment_deleted, is_cluster_deleted, is_blob_deleted,
  read_blob,
}
use blobs_db.Transaction.Overlay.{View, untouched, has_content, gone, IsValid, overlay}
use blobs_db.Transaction.Operations.{Operation, perform, perform_all, meaning_all}
use blobs_db.Transaction.Steps.{ensure_blob-cases, perform_lem}

pub perform_all_valid :
    (os : List Operation) (t t' : DatabaseState) (k : BlobLocation)
    → IsValid t
    → IsWide k
    → perform_all os t ≡ returned t'
    → IsValid t' × (overlay k t' ≡ meaning_all os k (overlay k t))
unfolding perform_all
perform_all_valid [] t t' k v w e = (subst IsValid (cc e) v, ap (overlay k) (cc e))
perform_all_valid (o ∷ os) t t' k v w e =
    let (t1, made, rest) = >>=-eq-returned (perform o t) (perform_all os) e in
    let (v1, now) = perform_lem o t t1 v made in
    let (v', after) = perform_all_valid os t1 t' k v1 w rest in
    (v', after ∙ ap (meaning_all os k) (now k w))

pub new_state-IsValid : (locks : HeldLocks) → IsValid (new_state locks)
unfolding find
new_state-IsValid locks = record {
  written_sorted = tt;
  deleted_blobs_sorted = tt;
  created_blobs_sorted = tt;
  deleted_clusters_sorted = tt;
  created_clusters_sorted = tt;
  deleted_segments_sorted = tt;
  created_segments_sorted = tt;
  not_written = λ l w d. refl;
  not_created = λ l w d. refl;
}

fresh : (k : BlobLocation) (locks : HeldLocks) → overlay k (new_state locks) ≡ untouched
unfolding overlay is_blob_deleted is_cluster_deleted is_segment_deleted find
fresh k locks = refl

-- What `ReadBlob` comes to for a view.
abbrev pub Answers : View → Outcome (Option (List ℕ)) → Type 0
Answers untouched o = o ≡ returned none
Answers (has_content content) o = o ≡ returned (some content)
Answers gone o = (e : Exception) × (o ≡ thrown e)

read_blob_lem : (k : BlobLocation) (t : DatabaseState) → Answers (overlay k t) (read_blob k t)
unfolding overlay read_blob
read_blob_lem k t = elim (ensure_blob-cases k t) [
  | inl (n, q) ↦ elim (Option-cases (find location_of k t.written_blobs)) [
    | inl m ↦ rw (n, q, m) refl
    | inr (e, f) ↦ rw (n, q, f) refl
  ]
  | inr (d, (x, q)) ↦ rw (d, q) (x, refl)
]

-- After any history of operations that all return, a transaction that began with no changes reads
-- each blob as the history means: it refuses a blob that is deleted since it was last written or
-- created, by itself, with its cluster or with its segment, it gives the last content that was
-- written, and it knows nothing of a blob that the history leaves alone.
pub read_blob-perform_all :
    (os : List Operation) (locks : HeldLocks) (t : DatabaseState) (k : BlobLocation)
    → IsWide k
    → perform_all os (new_state locks) ≡ returned t
    → Answers (meaning_all os k untouched) (read_blob k t)
read_blob-perform_all os locks t k w e =
    let (v, now) = perform_all_valid os (new_state locks) t k (new_state-IsValid locks) w e in
    subst (λ x. Answers x (read_blob k t)) (now ∙ ap (meaning_all os k) (fresh k locks))
      (read_blob_lem k t)
