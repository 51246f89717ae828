-- ===== src/ClientDatabase/Creations.antt =====
-- CreateBlob, CreateBlobAt, CreateCluster and CreateSegment of ClientLib/Database.cpp.
use blobs_db.Base.{ℕ, true, false, List, [], ◌∷◌, ltb, leb, add32, length, if◌then◌else◌, contains}
use blobs_db.BlobLocation.{BlobLocation, at}
use blobs_db.Config.{
  max_blob_size, max_blob_id, max_cluster_id, max_segment_id, next_free_blob_id,
  next_free_cluster_id, next_free_segment_id, blob_list_id, cluster_list_id, segment_list_id,
  cluster_delete_id, segment_delete_id,
}
use blobs_db.Snapshot.{id_content}
use blobs_db.Outcome.{
  blob_too_large, blob_limit_reached, cluster_limit_reached, segment_limit_reached,
  blob_already_exists, generic,
}
use blobs_db.Transaction
use blobs_db.ClientDatabase.{Server, M, ◌>>=◌, read_blob_internal, write_blob_internal}
use blobs_db.ClientDatabase.Requests.{
  ◌>>◌, give, throw_when, in_state, now_locked, now_all_locked, id_in,
}
use blobs_db.ClientDatabase.Lists.{get_all_blobs}

-- `CreateBlobInternal`; first its part behind the read of the next free id.
unfoldable pub take_blob_id : Server → ℕ → ℕ → ℕ → M ℕ
take_blob_id server s c id = do
  now_locked (at s c blob_list_id)
  throw_when (ltb max_blob_id id) blob_limit_reached
  write_blob_internal server (at s c next_free_blob_id) (id_content (add32 id 1))
  now_locked (at s c id)
  in_state (Transaction.create_blob (at s c id))
  give id

unfoldable pub create_blob_internal : Server → ℕ → ℕ → M ℕ
unfolding take_blob_id
create_blob_internal server s c =
    read_blob_internal server (at s c next_free_blob_id) true >>= λ content.
    (id_in content >>= take_blob_id server s c)

unfoldable pub create_blob : Server → ℕ → ℕ → List ℕ → M ℕ
unfolding create_blob_internal
create_blob server s c content = do
  throw_when (ltb max_blob_size (length content)) blob_too_large
  throw_when (ltb max_segment_id s) generic
  throw_when (ltb max_cluster_id c) generic
  id ← create_blob_internal server s c
  write_blob_internal server (at s c id) content
  give id

-- The next free id after a blob is created at an id. Below the next free id that blob must not be
-- there yet; in the list of ids in ascending order the binary search finds it if it is a member.
unfoldable pub next_free_after : Server → ℕ → ℕ → ℕ → ℕ → M ℕ
next_free_after server s c blob next = if leb next blob then give (add32 blob 1) else (do
  blobs ← get_all_blobs server s c false
  throw_when (contains blobs blob) blob_already_exists
  give next)

-- `CreateBlobInternalAt`
unfoldable pub create_blob_internal_at : Server → ℕ → ℕ → ℕ → M (Unit {0})
unfolding next_free_after
create_blob_internal_at server s c blob = do
  content ← read_blob_internal server (at s c next_free_blob_id) true
  next ← id_in content
  now_locked (at s c blob_list_id)
  next' ← next_free_after server s c blob next
  write_blob_internal server (at s c next_free_blob_id) (id_content next')
  now_locked (at s c blob)
  in_state (Transaction.create_blob (at s c blob))

unfoldable pub create_blob_at : Server → ℕ → ℕ → ℕ → List ℕ → M (Unit {0})
unfolding create_blob_internal_at
create_blob_at server s c blob content = do
  throw_when (ltb max_blob_size (length content)) blob_too_large
  throw_when (ltb max_segment_id s) generic
  throw_when (ltb max_cluster_id c) generic
  throw_when (ltb max_blob_id blob) generic
  create_blob_internal_at server s c blob
  write_blob_internal server (at s c blob) content

-- The locks that the client holds by the creation of a cluster.
abbrev pub locks_of_new_cluster : ℕ → ℕ → List BlobLocation
locks_of_new_cluster s c =
    at s c next_free_blob_id ∷ at s c cluster_delete_id ∷ at s c blob_list_id ∷ []

unfoldable pub create_cluster : Server → ℕ → M ℕ
unfolding create_blob
create_cluster server s = do
  throw_when (ltb max_segment_id s) generic
  content ← read_blob_internal server (at s next_free_cluster_id next_free_blob_id) true
  id ← id_in content
  now_locked (at s cluster_list_id blob_list_id)
  throw_when (ltb max_cluster_id id) cluster_limit_reached
  write_blob_internal server (at s next_free_cluster_id next_free_blob_id) (id_content (add32 id 1))
  now_all_locked (locks_of_new_cluster s id)
  in_state (Transaction.create_cluster s id)
  write_blob_internal server (at s id next_free_blob_id) (id_content 0)
  _ ← create_blob server s id []
  give id

-- The locks that the client holds by the creation of a segment.
abbrev pub locks_of_new_segment : ℕ → List BlobLocation
locks_of_new_segment s =
    at s next_free_cluster_id next_free_blob_id
    ∷ at s segment_delete_id cluster_delete_id
    ∷ at s cluster_list_id blob_list_id
    ∷ []

unfoldable pub create_segment : Server → M ℕ
unfolding create_cluster
create_segment server = do
  content ←
      read_blob_internal server (at next_free_segment_id next_free_cluster_id next_free_blob_id)
        true
  id ← id_in content
  now_locked (at segment_list_id cluster_list_id blob_list_id)
  throw_when (ltb max_segment_id id) segment_limit_reached
  write_blob_internal server (at next_free_segment_id next_free_cluster_id next_free_blob_id)
      (id_content (add32 id 1))
  now_all_locked (locks_of_new_segment id)
  in_state (Transaction.create_segment id)
  write_blob_internal server (at id next_free_cluster_id next_free_blob_id) (id_content 0)
  _ ← create_cluster server id
  give id
