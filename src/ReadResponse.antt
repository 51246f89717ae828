-- ===== src/ReadResponse.antt =====
-- ServerLib/Server.cpp: what a client gets for the blobs that it has requested
-- (`BuildAndSendBlobsReadResponse` with its handlers), and how the blobs are split into messages.
-- `none` for the blob data stands for no data; `none` as the result of a handler for a failed
-- assertion. The sizes of the message and of a blob's header in it, which the compiler lays out, are
-- parameters; a message's size is a `uint32_t`, and the number of its blobs a `uint8_t`.
pub mod Chunks
use blobs_db.Base.{
  ℕ, zero, suc, ◌+◌, ◌-◌, ◌*◌, ◌%◌, ◌^◌, Bool, true, false, not, ◌&&◌, Option, none, some, List, [],
  ◌∷◌, ◌++◌, ◌==◌, leb, if◌then◌else◌, length, is_empty,
}
use blobs_db.Base.Chunks.{take_fitting}
use blobs_db.Config.{blob_list_id, cluster_list_id, segment_list_id}
use blobs_db.BlobLocation.{BlobLocation}
use blobs_db.FlatMap.{find}
use blobs_db.IdRanges.{IdRange, into_id_ranges}
use blobs_db.Snapshot.{id_content, keys}
use blobs_db.Versions.{Blob, Cluster, Segment, Snapshot, version_of}

-- `BlobsRead::BlobAddress`
pub record BlobAddress : Type 0 where
  pub location : BlobLocation
  pub cache_commit_id : ℕ

-- `BlobData`, for which the version of a blob stands as well.
abbrev pub BlobData : Type 0
BlobData = Blob

-- The data that is sent unless the client's cache has this commit id already.
abbrev unless_cached : ℕ → Blob → Option BlobData
unless_cached cached b = if cached == b.commit_id then none else some b

-- The bytes of the ranges, an id each for its begin and its end.
unfoldable pub ranges_content : List IdRange → List ℕ
ranges_content [] = []
ranges_content (r ∷ rs) = id_content r.first ++ (id_content r.second ++ ranges_content rs)

unfoldable pub handle_regular_blob_read : BlobAddress → Snapshot → Option (Option BlobData)
handle_regular_blob_read a db = elim (version_of a.location db) [
  | none ↦ none
  | some b ↦ some (unless_cached a.cache_commit_id b)
]

abbrev id_list {ℓ} : {A : Type ℓ} → ℕ → List (ℕ × A) → Blob
id_list commit xs = record {
  commit_id = commit;
  content = ranges_content (into_id_ranges (keys xs));
}

unfoldable pub handle_segment_list_id : ℕ → Snapshot → Option BlobData
unfolding ranges_content
handle_segment_list_id cached db = unless_cached cached (id_list db.commit_id db.segments)

unfoldable pub handle_cluster_list_id : ℕ → ℕ → Snapshot → Option (Option BlobData)
unfolding ranges_content
handle_cluster_list_id s cached db = elim (find s db.segments) [
  | none ↦ none
  | some segment ↦ some (unless_cached cached (id_list segment.commit_id segment.clusters))
]

unfoldable pub handle_blob_list_id : ℕ → ℕ → ℕ → Snapshot → Option (Option BlobData)
unfolding ranges_content
handle_blob_list_id s c cached db = elim (find s db.segments) [
  | none ↦ none
  | some segment ↦ elim (find c segment.clusters) [
    | none ↦ none
    | some cluster ↦ some (unless_cached cached (id_list cluster.commit_id cluster.blobs))
  ]
]

-- The data for one requested blob.
unfoldable pub response_data : Bool → BlobAddress → Snapshot → Option (Option BlobData)
unfolding handle_segment_list_id
response_data is_delete a db =
    let l = a.location in
    if is_delete
    then some none
    else if l.blob == blob_list_id
    then (if l.cluster == cluster_list_id
        then (if l.segment == segment_list_id
            then some (handle_segment_list_id a.cache_commit_id db)
            else handle_cluster_list_id l.segment a.cache_commit_id db)
        else handle_blob_list_id l.segment l.cluster a.cache_commit_id db)
    else handle_regular_blob_read a db

-- `BlobSize`
abbrev pub blob_size : Option BlobData → ℕ
blob_size none = 0
blob_size (some b) = length b.content

-- One message: its blobs, whose number is a `uint8_t` in the source and is not bounded here, and
-- whether another message follows.
pub record Message : Type 0 where
  pub blobs : List (Option BlobData)
  pub has_follow_message : Bool

module _ (message_header blob_header : ℕ) where
  unfoldable pub fits_into_message : ℕ → ℕ → Bool
  fits_into_message total n = leb (message_header + blob_header * (n % 2 ^ 8) + total) (2 ^ 32 - 1)

  -- The inner loop, with the chunk so far by its size and number: the rest of the chunk, and what
  -- is left.
  unfoldable pub take_chunk :
      ℕ → ℕ → List (Option BlobData) → List (Option BlobData) × List (Option BlobData)
  take_chunk total n ds = take_fitting blob_size fits_into_message total n ds

  -- The outer loop, which sends a chunk unless it is empty; `none` when the turns are used up.
  unfoldable pub send_chunks : ℕ → List (Option BlobData) → Option (List Message)
  send_chunks turns [] = some []
  send_chunks zero (d ∷ ds) = none
  send_chunks (suc turns) (d ∷ ds) =
      let (chunk, left) = take_chunk 0 0 (d ∷ ds) in
      let rest = send_chunks turns left in
      elim rest [
        | none ↦ none
        | some messages ↦ some (
            if is_empty chunk
            then messages
            else record { blobs = chunk; has_follow_message = not (is_empty left) } ∷ messages)
      ]
