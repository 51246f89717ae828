-- ===== src/Transaction/Operations.antt =====
-- The operations of a transaction on the blobs as values, and what they mean for one blob.
use blobs_db.Base.{ℕ, ◌&&◌, List, [], ◌∷◌, ◌==◌, if◌then◌else◌}
use blobs_db.BlobLocation.{BlobLocation, eq}
use blobs_db.Outcome.{Outcome, returned, ◌>>=◌, ◌>>◌}
use blobs_db.Transaction.Orders.{location_less, cluster_less, segment_less}
use blobs_db.Transaction.{
  DatabaseState, ensure_blob_not_deleted, write_blob, create_blob, create_cluster, create_segment,
  delete_blob, delete_cluster, delete_segment,
}
use blobs_db.Transaction.Overlay.{View, has_content, gone}

-- What a client does with the blobs in a transaction; a created blob is written at once.
pub data Operation : Type 0 where
  write : BlobLocation → List ℕ → Operation
  create : BlobLocation → List ℕ → Operation
  remove : BlobLocation → Operation
  make_cluster : ℕ → ℕ → Operation
  remove_cluster : ℕ → ℕ → Operation
  make_segment : ℕ → Operation
  remove_segment : ℕ → Operation

unfoldable pub write_checked : BlobLocation → List ℕ → DatabaseState → Outcome DatabaseState
write_checked l content t = do ensure_blob_not_deleted l t; returned (write_blob l content t)

unfoldable pub perform : Operation → DatabaseState → Outcome DatabaseState
unfolding write_checked
perform (write l content) t = write_checked l content t
perform (create l content) t = do t' ← create_blob l t; write_checked l content t'
perform (remove l) t = delete_blob l t
perform (make_cluster s c) t = create_cluster s c t
perform (remove_cluster s c) t = delete_cluster s c t
perform (make_segment s) t = create_segment s t
perform (remove_segment s) t = delete_segment s t

-- What the operation means for one blob.
abbrev pub meaning : Operation → BlobLocation → View → View
meaning (write l content) k v = if eq k l then has_content content else v
meaning (create l content) k v = if eq k l then has_content content else v
meaning (remove l) k v = if eq k l then gone else v
meaning (make_cluster s c) k v = v
meaning (remove_cluster s c) k v = if k.segment == s && k.cluster == c then gone else v
meaning (make_segment s) k v = v
meaning (remove_segment s) k v = if k.segment == s then gone else v

unfoldable pub perform_all : List Operation → DatabaseState → Outcome DatabaseState
unfolding perform
perform_all [] t = returned t
perform_all (o ∷ os) t = do t' ← perform o t; perform_all os t'

abbrev pub meaning_all : List Operation → BlobLocation → View → View
meaning_all [] k v = v
meaning_all (o ∷ os) k v = meaning_all os k (meaning o k v)
