-- ===== src/LockUtil.antt =====
-- ServerLib/include/server/LockUtil.hpp: which locations have to be locked for a request. What the
-- functions read of the database is the interface `Directory`.
pub mod Visits
pub mod Preserves
pub mod Exists
use blobs_db.Base.{
  ℕ, Bool, true, false, not, ◌&&◌, ◌||◌, Option, none, some, List, [], ◌∷◌, ◌++◌, ◌==◌,
  if◌then◌else◌, map, is_some,
}
use blobs_db.Config.{
  cluster_delete_id, segment_delete_id, next_free_blob_id, next_free_cluster_id,
  next_free_segment_id, blob_list_id, cluster_list_id, segment_list_id,
}
use blobs_db.BlobLocation.{BlobLocation, at}

-- `GetLoadedSegment(s)` with the cluster ids of the segment in order, and `GetLoadedCluster(s, c)`
-- with the blob ids of the cluster in order; `none` is the null pointer.
pub record Directory : Type 0 where
  pub clusters_of : ℕ → Option (List ℕ)
  pub blobs_of : ℕ → ℕ → Option (List ℕ)

abbrev pub list_of_segments : BlobLocation
list_of_segments = at segment_list_id cluster_list_id blob_list_id

abbrev pub list_of_clusters : ℕ → BlobLocation
list_of_clusters s = at s cluster_list_id blob_list_id

-- `f` on each element, the results in a row; `none` once `f` fails.
abbrev pub gather {ℓ κ} :
    {A : Type ℓ} {B : Type κ} → (A → Option (List B)) → List A → Option (List B)
gather f [] = some []
gather f (a ∷ as') = elim (f a) [
  | none ↦ none
  | some bs ↦ elim (gather f as') [ none ↦ none | some cs ↦ some (bs ++ cs) ]
]

module _ (db : Directory) where
  -- The body of the loop over the clusters of a segment that is to be deleted. A cluster that is
  -- in the segment's map but cannot be loaded is a null dereference (`none`).
  cluster_in_segment : ℕ → ℕ → Option (List BlobLocation)
  cluster_in_segment s c = elim (db.blobs_of s c) [
    | none ↦ none
    | some blobs ↦ some (
        at s c cluster_delete_id
        ∷ at s c next_free_blob_id
        ∷ at s c blob_list_id
        ∷ map (λ b. at s c b) blobs)
  ]

  segment_delete : BlobLocation → Option (List BlobLocation)
  unfolding cluster_in_segment
  segment_delete l = elim (db.clusters_of l.segment) [
    | none ↦ none
    | some clusters ↦ elim (gather (cluster_in_segment l.segment) clusters) [
      | none ↦ none
      | some inner ↦ some (
          l
          ∷ at l.segment next_free_cluster_id next_free_blob_id
          ∷ list_of_clusters l.segment
          ∷ list_of_segments
          ∷ inner)
    ]
  ]

  cluster_delete : BlobLocation → Option (List BlobLocation)
  cluster_delete l = elim (db.blobs_of l.segment l.cluster) [
    | none ↦ none
    | some blobs ↦ some (
        l
        ∷ at l.segment l.cluster next_free_blob_id
        ∷ at l.segment l.cluster blob_list_id
        ∷ list_of_clusters l.segment
        ∷ map (λ b. at l.segment l.cluster b) blobs)
  ]

  -- `ForEachLockForLocation`: the locations for which `action` is called, in order. `none` stands
  -- for the assertions that the segment or the cluster exists.
  unfoldable pub for_each_lock_for_location : BlobLocation → Option (List BlobLocation)
  unfolding segment_delete cluster_delete
  for_each_lock_for_location l =
      if l.blob == cluster_delete_id
      then (if l.cluster == segment_delete_id then segment_delete l else cluster_delete l)
      else if l.blob == next_free_blob_id
      then (if l.cluster == next_free_cluster_id
          then (if l.segment == next_free_segment_id
              then some (l ∷ list_of_segments ∷ [])
              else some (l ∷ list_of_clusters l.segment ∷ []))
          else some (l ∷ at l.segment l.cluster blob_list_id ∷ []))
      else some (l ∷ [])

  -- `ForEachLockInMessage`
  unfoldable pub for_each_lock_in_message : List BlobLocation → Option (List BlobLocation)
  unfolding for_each_lock_for_location
  for_each_lock_in_message = gather for_each_lock_for_location

-- The predicate of `AllLocksForLocation` may change what it captures: it takes the captured state
-- to its answer and the new state.
abbrev pub Predicate {ℓ} : Type ℓ → Type ℓ
Predicate S = BlobLocation → S → Bool × S

-- `if (!predicate(l)) return false;` and then the rest
abbrev pub and_then {ℓ} : {S : Type ℓ} → Bool × S → (S → Option (Bool × S)) → Option (Bool × S)
and_then (true, s) rest = rest s
and_then (false, s) rest = some (false, s)

module _ {ℓ} {S : Type ℓ} (predicate : Predicate S) where
  -- A loop of such tests over the ids in `ids`, each made a location by `f`.
  each_of : (ℕ → BlobLocation) → List ℕ → (S → Option (Bool × S)) → S → Option (Bool × S)
  each_of f [] rest s = rest s
  each_of f (i ∷ ids) rest s = and_then (predicate (f i) s) (λ s'. each_of f ids rest s')

  return_true : S → Option (Bool × S)
  return_true s = some (true, s)

  module _ (db : Directory) where
    each_cluster : ℕ → List ℕ → S → Option (Bool × S)
    unfolding each_of return_true
    each_cluster seg [] s = return_true s
    each_cluster seg (c ∷ clusters) s = and_then (predicate (at seg c cluster_delete_id) s) λ s1.
        and_then (predicate (at seg c next_free_blob_id) s1) λ s2.
          and_then (predicate (at seg c blob_list_id) s2) λ s3. elim (db.blobs_of seg c) [
            | none ↦ none
            | some blobs ↦ each_of (λ b. at seg c b) blobs (λ s4. each_cluster seg clusters s4) s3
          ]

    all_for_segment_delete : BlobLocation → Bool → S → Option (Bool × S)
    unfolding each_cluster return_true
    all_for_segment_delete l created s = elim (db.clusters_of l.segment) [
      | none ↦ if created then return_true s else none
      | some clusters ↦ and_then (predicate l s) λ s1.
          and_then (predicate (at l.segment next_free_cluster_id next_free_blob_id) s1) λ s2.
            and_then (predicate (list_of_clusters l.segment) s2) λ s3.
              and_then (predicate list_of_segments s3) λ s4. each_cluster l.segment clusters s4
    ]

    all_for_cluster_delete : BlobLocation → Bool → S → Option (Bool × S)
    unfolding each_of return_true
    all_for_cluster_delete l created s = elim (db.blobs_of l.segment l.cluster) [
      | none ↦ if created then return_true s else none
      | some blobs ↦ and_then (predicate l s) λ s1.
          and_then (predicate (at l.segment l.cluster next_free_blob_id) s1) λ s2.
            and_then (predicate (at l.segment l.cluster blob_list_id) s2) λ s3.
              and_then (predicate (list_of_clusters l.segment) s3)
                λ s4. each_of (λ b. at l.segment l.cluster b) blobs return_true s4
    ]

    -- `AllLocksForLocation`. `created_segment` and `created_cluster` answer
    -- `createdBlobs && createdBlobs->EncompassesCreatedSegment(...)`, and `...Cluster(...)`.
    unfoldable pub all_locks_for_location :
        (ℕ → S → Bool) → (ℕ → ℕ → S → Bool) → BlobLocation → S → Option (Bool × S)
    unfolding all_for_segment_delete all_for_cluster_delete return_true
    all_locks_for_location created_segment created_cluster l s =
        if l.blob == cluster_delete_id
        then (if l.cluster == segment_delete_id
            then all_for_segment_delete l (created_segment l.segment s) s
            else all_for_cluster_delete l (created_cluster l.segment l.cluster s) s)
        else if l.blob == next_free_blob_id
        then (if l.cluster == next_free_cluster_id
            then (if l.segment == next_free_segment_id
                then and_then (predicate l s)
                    (λ s1. and_then (predicate list_of_segments s1) return_true)
                else and_then (predicate l s)
                    (λ s1. and_then (predicate (list_of_clusters l.segment) s1) return_true))
            else and_then (predicate l s)
                (λ s1. and_then (predicate (at l.segment l.cluster blob_list_id) s1) return_true))
        else and_then (predicate l s) return_true

    -- `AllLocksInMessage`, which passes no created blobs.
    unfoldable pub all_locks_in_message : List BlobLocation → S → Option (Bool × S)
    unfolding all_locks_for_location return_true
    all_locks_in_message [] s = some (true, s)
    all_locks_in_message (l ∷ ls) s =
        elim (all_locks_for_location (λ _ _. false) (λ _ _ _. false) l s) [
          | none ↦ none
          | some (b, s') ↦ and_then (b, s') (λ s''. all_locks_in_message ls s'')
        ]
