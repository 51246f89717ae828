-- ===== src/Transaction/IdLists.antt =====
-- ClientLib/Transaction.cpp: the id lists of the database merged with the changes of a transaction
-- (`MergeBlobIdList`, `MergeClusterIdList`, `MergeSegmentIdList`).
pub mod Ascending
pub mod Merged
use blobs_db.Base.{
  ℕ, Bool, true, false, not, ◌&&◌, ◌||◌, List, [], ◌∷◌, ◌++◌, ltb, if◌then◌else◌, filter, is_empty,
  map,
}
use blobs_db.BlobLocation.{BlobLocation, at}
use blobs_db.StdSet.{count, range}
use blobs_db.Outcome.{Outcome, returned, ◌>>=◌, ◌>>◌, assert}
use blobs_db.Transaction.Orders.{location_less, cluster_less, segment_less}
use blobs_db.Transaction.{DatabaseState, itself, max_id, is_cluster_deleted, is_segment_deleted}

-- `!blobs.empty() && blobs.back() > id`
unfoldable pub last_is_above : ℕ → List ℕ → Bool
last_is_above id [] = false
last_is_above id (x ∷ xs) = if is_empty xs then ltb id x else last_is_above id xs

-- The loop over the created blobs: whether a sort is needed, and the ids.
unfoldable pub insert_created : Bool → List ℕ → List ℕ → Bool × List ℕ
unfolding last_is_above
insert_created needs_sort ids [] = (needs_sort, ids)
insert_created needs_sort ids (c ∷ cs) =
    insert_created (needs_sort || last_is_above c ids) (ids ++ (c ∷ [])) cs

-- `std::sort`
unfoldable pub sort_id_in : ℕ → List ℕ → List ℕ
sort_id_in a [] = a ∷ []
sort_id_in a (x ∷ xs) = let rest = sort_id_in a xs in if ltb x a then x ∷ rest else a ∷ x ∷ xs

unfoldable pub sort : List ℕ → List ℕ
unfolding sort_id_in
sort [] = []
sort (a ∷ xs) = sort_id_in a (sort xs)

unfoldable pub merge_blob_id_list : ℕ → ℕ → List ℕ → DatabaseState → Outcome (List ℕ)
unfolding insert_created sort
merge_blob_id_list s c ids t = do
  assert (not (is_cluster_deleted s c t))
  let kept = filter (λ b. not (count itself (at s c b) t.deleted_blobs)) ids
  let created = map (λ l. l.blob) (range itself (at s c 0) (at s c max_id) t.created_blobs)
  let (needs_sort, merged) = insert_created false kept created
  returned (if needs_sort then sort merged else merged)

unfoldable pub merge_cluster_id_list : ℕ → List ℕ → DatabaseState → Outcome (List ℕ)
merge_cluster_id_list s ids t = do
  assert (not (is_segment_deleted s t))
  let kept = filter (λ c. not (count itself (s, c) t.deleted_clusters)) ids
  returned (kept ++ map (λ (c : ℕ × ℕ). c.1) (range itself (s, 0) (s, max_id) t.created_clusters))

unfoldable pub merge_segment_id_list : List ℕ → DatabaseState → List ℕ
merge_segment_id_list ids t =
    filter (λ s. not (count itself s t.deleted_segments)) ids ++ t.created_segments
