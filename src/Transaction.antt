-- ===== src/Transaction.antt =====
-- ClientLib/Transaction.cpp: what a transaction of the client library keeps of one database
-- (`DatabaseState`), and the operations on it. The state of a database that the transaction has not
-- touched yet is the empty one. A blob's content is the list of its bytes.
pub mod Orders
pub mod Overlay
pub mod Edits
pub mod Removals
pub mod Operations
pub mod Steps
pub mod History
pub mod IdLists
pub mod Recreated
pub mod Messages
pub mod Sending
pub mod Splitting
pub mod Committed
use blobs_db.Base.{
  ℕ, ◌+◌, ◌-◌, ◌^◌, ◌%◌, Bool, true, false, not, ◌&&◌, ◌||◌, Option, none, some, List, [], ◌∷◌,
  ◌++◌, ◌==◌, ltb, add32, if◌then◌else◌, filter, is_empty,
}
use blobs_db.BlobLocation.{BlobLocation, at}
use blobs_db.ClientLocks.{has}
use blobs_db.HeldLocks
use blobs_db.HeldLocks.{HeldLocks, release_lock_range}
use blobs_db.StdSet.{
  find, count, insert, assign, erase, erase_range, from_lower_bound, from_upper_bound,
}
use blobs_db.Transaction.Orders.{location_less, cluster_less, segment_less}
use blobs_db.Outcome.{
  Outcome, returned, thrown, assertion_failed, blob_deleted, cluster_deleted, segment_deleted,
  ◌>>=◌, ◌>>◌, throw_if, assert,
}

pub record DatabaseState : Type 0 where
  pub held_locks : HeldLocks
  pub written_blobs : List (BlobLocation × List ℕ)
  pub deleted_blobs : List BlobLocation
  pub created_blobs : List BlobLocation
  pub deleted_clusters : List (ℕ × ℕ)
  pub created_clusters : List (ℕ × ℕ)
  pub deleted_segments : List ℕ
  pub created_segments : List ℕ

-- The state that `AccessDatabaseState` makes, without sticky locks and with them.
abbrev pub new_state : HeldLocks → DatabaseState
new_state locks = record {
  held_locks = locks;
  written_blobs = [];
  deleted_blobs = [];
  created_blobs = [];
  deleted_clusters = [];
  created_clusters = [];
  deleted_segments = [];
  created_segments = [];
}

-- The key of an element of a set and of a map.
abbrev pub itself : {A : Type 0} → A → A
itself a = a

abbrev pub location_of : BlobLocation × List ℕ → BlobLocation
location_of e = e.0

-- `std::numeric_limits<...>::max()` of the ids
abbrev pub max_id : ℕ
max_id = 2 ^ 32 - 1

unfoldable pub is_segment_deleted : ℕ → DatabaseState → Bool
is_segment_deleted s t = count itself s t.deleted_segments

unfoldable pub is_cluster_deleted : ℕ → ℕ → DatabaseState → Bool
unfolding is_segment_deleted
is_cluster_deleted s c t = is_segment_deleted s t || count itself (s, c) t.deleted_clusters

unfoldable pub is_blob_deleted : BlobLocation → DatabaseState → Bool
unfolding is_cluster_deleted
is_blob_deleted l t = is_cluster_deleted l.segment l.cluster t || count itself l t.deleted_blobs

unfoldable pub is_segment_created : ℕ → DatabaseState → Bool
is_segment_created s t = count itself s t.created_segments

unfoldable pub is_cluster_created : ℕ → ℕ → DatabaseState → Bool
unfolding is_segment_created
is_cluster_created s c t = count itself (s, c) t.created_clusters || is_segment_created s t

unfoldable pub is_blob_created : BlobLocation → DatabaseState → Bool
unfolding is_cluster_created
is_blob_created l t = count itself l t.created_blobs || is_cluster_created l.segment l.cluster t

unfoldable pub ensure_segment_not_deleted : ℕ → DatabaseState → Outcome (Unit {0})
ensure_segment_not_deleted s t = throw_if (count itself s t.deleted_segments) segment_deleted

unfoldable pub ensure_cluster_not_deleted : ℕ → ℕ → DatabaseState → Outcome (Unit {0})
unfolding ensure_segment_not_deleted
ensure_cluster_not_deleted s c t = do
  ensure_segment_not_deleted s t
  throw_if (count itself (s, c) t.deleted_clusters) cluster_deleted

unfoldable pub ensure_blob_not_deleted : BlobLocation → DatabaseState → Outcome (Unit {0})
unfolding ensure_cluster_not_deleted
ensure_blob_not_deleted l t = do
  ensure_cluster_not_deleted l.segment l.cluster t
  throw_if (count itself l t.deleted_blobs) blob_deleted

-- `Transaction::LockMode` with its values
unfoldable pub get_lock_type : BlobLocation → DatabaseState → ℕ
get_lock_type l t = if has l t.held_locks.write then 2 else if has l t.held_locks.read then 1 else 0

unfoldable pub acquired_lock : BlobLocation → Bool → DatabaseState → DatabaseState
acquired_lock l write t = record t {
  held_locks =
      if write
      then record t.held_locks { write = HeldLocks.insert l t.held_locks.write }
      else record t.held_locks { read = HeldLocks.insert l t.held_locks.read };
}

unfoldable pub write_blob : BlobLocation → List ℕ → DatabaseState → DatabaseState
write_blob l content t = record t {
  written_blobs = assign location_of (l, content) t.written_blobs;
}

unfoldable pub create_blob : BlobLocation → DatabaseState → Outcome DatabaseState
create_blob l t = do
  assert (not (is_cluster_deleted l.segment l.cluster t))
  returned (
      if count itself l t.deleted_blobs
      then record t { deleted_blobs = erase itself l t.deleted_blobs }
      else record t { created_blobs = insert itself l t.created_blobs })

unfoldable pub create_cluster : ℕ → ℕ → DatabaseState → Outcome DatabaseState
create_cluster s c t = do
  assert (not (is_cluster_deleted s c t))
  returned (record t { created_clusters = insert itself (s, c) t.created_clusters })

unfoldable pub create_segment : ℕ → DatabaseState → Outcome DatabaseState
create_segment s t = do
  assert (not (is_segment_deleted s t))
  returned (record t { created_segments = insert itself s t.created_segments })

unfoldable pub delete_blob : BlobLocation → DatabaseState → Outcome DatabaseState
delete_blob l t = do
  ensure_blob_not_deleted l t
  returned (record t {
    written_blobs = erase location_of l t.written_blobs;
    created_blobs = erase itself l t.created_blobs;
    deleted_blobs = insert itself l t.deleted_blobs;
  })

unfoldable pub delete_cluster : ℕ → ℕ → DatabaseState → Outcome DatabaseState
delete_cluster s c t = do
  ensure_cluster_not_deleted s c t
  returned (record t {
    written_blobs = erase_range location_of (at s c 0) (at s c max_id) t.written_blobs;
    created_blobs = erase_range itself (at s c 0) (at s c max_id) t.created_blobs;
    deleted_blobs = erase_range itself (at s c 0) (at s c max_id) t.deleted_blobs;
    created_clusters = erase itself (s, c) t.created_clusters;
    deleted_clusters = insert itself (s, c) t.deleted_clusters;
  })

unfoldable pub delete_segment : ℕ → DatabaseState → Outcome DatabaseState
delete_segment s t = do
  ensure_segment_not_deleted s t
  returned (record t {
    written_blobs = erase_range location_of (at s 0 0) (at s max_id max_id) t.written_blobs;
    created_blobs = erase_range itself (at s 0 0) (at s max_id max_id) t.created_blobs;
    deleted_blobs = erase_range itself (at s 0 0) (at s max_id max_id) t.deleted_blobs;
    created_clusters = erase_range itself (s, 0) (s, max_id) t.created_clusters;
    deleted_clusters = erase_range itself (s, 0) (s, max_id) t.deleted_clusters;
    created_segments = erase itself s t.created_segments;
    deleted_segments = insert itself s t.deleted_segments;
  })

-- `none` stands for a blob that the transaction has not written.
unfoldable pub read_blob : BlobLocation → DatabaseState → Outcome (Option (List ℕ))
read_blob l t = do
  ensure_blob_not_deleted l t
  returned (elim (find location_of l t.written_blobs) [ none ↦ none | some e ↦ some e.1 ])
