-- ===== src/ClientDatabase/Lists.antt =====
-- GetAllBlobs, GetAllClusters and GetAllSegments of ClientLib/Database.cpp, with a lock to be held.
use blobs_db.Base.{
  ℕ, zero, suc, ◌+◌, ◌*◌, ◌-◌, ◌^◌, ◌%◌, Bool, none, some, List, [], ◌∷◌, ◌++◌, ltb, if◌then◌else◌,
}
use blobs_db.BlobLocation.{at}
use blobs_db.Config.{max_segment_id, max_cluster_id, blob_list_id, cluster_list_id, segment_list_id}
use blobs_db.Outcome.{Outcome, returned, assertion_failed, generic}
use blobs_db.Transaction.{DatabaseState, is_cluster_created, is_segment_created}
use blobs_db.Transaction.IdLists.{merge_blob_id_list, merge_cluster_id_list, merge_segment_id_list}
use blobs_db.ClientDatabase.{Server, M, ◌>>=◌, state_of, get_transaction, read_blob_internal}
use blobs_db.ClientDatabase.Requests.{◌>>◌, give, throw_when}

-- The loop from the begin of a range to its end, which it leaves out; the ids have 32 bits.
unfoldable pub ids_from : ℕ → ℕ → List ℕ
ids_from zero id = []
ids_from (suc n) id = id ∷ ids_from n ((id + 1) % 2 ^ 32)

abbrev pub number : ℕ → ℕ → ℕ → ℕ → ℕ
number a b c d = a + 256 * b + 65536 * c + 16777216 * d

-- The ids of a list of ranges, each of which has eight bytes.
unfoldable pub ids_in : List ℕ → List ℕ
unfolding ids_from
ids_in (a ∷ b ∷ c ∷ d ∷ e ∷ f ∷ g ∷ h ∷ rest) =
    let begin = number a b c d in
    ids_from ((number e f g h + 2 ^ 32 - begin) % 2 ^ 32) begin ++ ids_in rest
ids_in _ = []

-- The state of the transaction as it is after the read.
abbrev merged : (DatabaseState → Outcome (List ℕ)) → M (List ℕ)
merged f db = elim db.transaction [ none ↦ (assertion_failed, db) | some t ↦ (f (state_of t), db) ]

unfoldable pub get_all_blobs : Server → ℕ → ℕ → Bool → M (List ℕ)
unfolding ids_in
get_all_blobs server s c write = do
  throw_when (ltb max_segment_id s) generic
  throw_when (ltb max_cluster_id c) generic
  t ← get_transaction server
  content ←
      if is_cluster_created s c (state_of t)
      then give []
      else read_blob_internal server (at s c blob_list_id) write
  merged (merge_blob_id_list s c (ids_in content))

unfoldable pub get_all_clusters : Server → ℕ → Bool → M (List ℕ)
unfolding ids_in
get_all_clusters server s write = do
  throw_when (ltb max_segment_id s) generic
  t ← get_transaction server
  content ←
      if is_segment_created s (state_of t)
      then give []
      else read_blob_internal server (at s cluster_list_id blob_list_id) write
  merged (merge_cluster_id_list s (ids_in content))

unfoldable pub get_all_segments : Server → Bool → M (List ℕ)
unfolding ids_in
get_all_segments server write = do
  t ← get_transaction server
  content ← read_blob_internal server (at segment_list_id cluster_list_id blob_list_id) write
  merged (λ s. returned (merge_segment_id_list (ids_in content) s))
