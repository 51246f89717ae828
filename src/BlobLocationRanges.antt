-- ===== src/BlobLocationRanges.antt =====
-- ServerLib/BlobLocationRanges.cpp: the ranges of locations that a commit creates. Ids are
-- `uint32_t`.
pub mod Coverage
pub mod Creation
pub mod Entering
use blobs_db.Base.{
  ℕ, ◌+◌, Bool, true, false, not, ◌&&◌, ◌||◌, Option, none, some, List, [], ◌∷◌, ◌++◌, any, find,
  leb, ◌==◌, if◌then◌else◌, add32, is_some,
}
use blobs_db.Config.{max_blob_id, max_cluster_id}
use blobs_db.BlobLocation.{BlobLocation, at, eq, lt, le, ge}

-- From `begin` up to but without `end`.
pub record BlobLocationRange : Type 0 where
  pub begin : BlobLocation
  pub end : BlobLocation

abbrev range : BlobLocation → BlobLocation → BlobLocationRange
range b e = record { begin = b; end = e }

-- `BlobLocationRange(segment, cluster, blob)`
unfoldable pub blob_range : ℕ → ℕ → ℕ → BlobLocationRange
blob_range s c b = range (at s c b) (at s c (add32 b 1))

unfoldable pub is_created_cluster : BlobLocationRange → Bool
is_created_cluster r = r.end.cluster == add32 r.begin.cluster 1

unfoldable pub is_created_segment : BlobLocationRange → Bool
is_created_segment r = r.end.segment == add32 r.begin.segment 1

abbrev pub in_range : BlobLocation → BlobLocationRange → Bool
in_range l r = le r.begin l && lt l r.end

unfoldable pub encompasses : BlobLocation → List BlobLocationRange → Bool
encompasses l ranges = any (in_range l) ranges

unfoldable pub encompasses_range : BlobLocationRange → List BlobLocationRange → Bool
encompasses_range check ranges = any (λ r. le r.begin check.begin && ge r.end check.end) ranges

unfoldable pub encompasses_created_cluster : ℕ → ℕ → List BlobLocationRange → Bool
unfolding is_created_cluster
encompasses_created_cluster s c ranges =
    any (λ r. r.begin.segment == s && (r.begin.cluster == c && is_created_cluster r)) ranges

unfoldable pub encompasses_created_segment : ℕ → List BlobLocationRange → Bool
unfolding is_created_segment
encompasses_created_segment s ranges =
    any (λ r. r.begin.segment == s && is_created_segment r) ranges

-- `Enter`: the new range is joined to the last one where it goes on from its end.
unfoldable pub enter : BlobLocationRange → List BlobLocationRange → List BlobLocationRange
enter r [] = r ∷ []
enter r (last ∷ []) =
    if eq last.end r.begin then record last { end = r.end } ∷ [] else last ∷ r ∷ []
enter r (q ∷ q' ∷ ranges) = q ∷ enter r (q' ∷ ranges)

unfoldable pub enter_new_cluster : ℕ → ℕ → List BlobLocationRange → List BlobLocationRange
unfolding blob_range
enter_new_cluster s c ranges =
    ranges ++ (blob_range s c 0 ∷ range (at s c (max_blob_id + 1)) (at s (add32 c 1) 0) ∷ [])

unfoldable pub enter_new_segment : ℕ → List BlobLocationRange → List BlobLocationRange
unfolding enter_new_cluster
enter_new_segment s ranges =
    enter_new_cluster s 0 ranges ++ (range (at s (max_cluster_id + 1) 0) (at (add32 s 1) 0 0) ∷ [])

-- `BlobCreationRanges`, with the ranges of its base class.
pub record BlobCreationRanges : Type 0 where
  pub ranges : List BlobLocationRange
  pub committed_next_free_blob_ids : List BlobLocation

unfoldable pub no_creations : BlobCreationRanges
no_creations = record { ranges = []; committed_next_free_blob_ids = [] }

unfoldable pub next_free_blob_id_committed : ℕ → ℕ → ℕ → BlobCreationRanges → BlobCreationRanges
next_free_blob_id_committed s c next_free created = record created {
  committed_next_free_blob_ids = created.committed_next_free_blob_ids ++ (at s c next_free ∷ []);
}

-- The first committed `NextFreeBlobId` of the cluster.
unfoldable pub committed_id : ℕ → ℕ → List BlobLocation → Option BlobLocation
committed_id s c ids = find (λ e. e.segment == s && e.cluster == c) ids

unfoldable pub try_create_blob : BlobLocation → BlobCreationRanges → Bool × BlobCreationRanges
unfolding committed_id enter blob_range
try_create_blob l created =
    elim (committed_id l.segment l.cluster created.committed_next_free_blob_ids) [
      | none ↦ (false, created)
      | some e ↦ if leb e.blob l.blob then (false, created) else (
        true,
        record created { ranges = enter (blob_range l.segment l.cluster l.blob) created.ranges },
      )
    ]

-- The database's part: `none` if there is no such cluster, else whether it has the blob.
pub record Blobs : Type 0 where
  pub has_blob : ℕ → ℕ → ℕ → Option Bool

unfoldable pub encompasses_with_blob_creation :
    Blobs → BlobLocation → BlobCreationRanges → Bool × BlobCreationRanges
unfolding encompasses encompasses_created_cluster try_create_blob
encompasses_with_blob_creation db l created =
    if encompasses l created.ranges
    then (true, created)
    else if encompasses_created_cluster l.segment l.cluster created.ranges
    then try_create_blob l created
    else elim (db.has_blob l.segment l.cluster l.blob) [
      | none ↦ (false, created)
      | some true ↦ (false, created)
      | some false ↦ try_create_blob l created
    ]
