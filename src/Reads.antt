-- ===== src/Reads.antt =====
-- ServerLib/Server.cpp: how a request to read blobs is handled (`EnsureRequestedBlobsExist` and
-- `TryHandleBlobsRead`), up to the response itself. `current` is the database's snapshot, `seen` the
-- one that the request reads: the MVCC snapshot with `isMVCC`, else the current one.
pub mod Assertions
use blobs_db.Base.{
  ℕ, Bool, true, false, not, ◌&&◌, ◌||◌, Option, none, some, List, [], ◌∷◌, ◌==◌, if◌then◌else◌,
  is_some,
}
use blobs_db.Config.{
  cluster_delete_id, segment_delete_id, blob_list_id, cluster_list_id, segment_list_id,
}
use blobs_db.BlobLocation.{BlobLocation}
use blobs_db.Lock.{Lock}
use blobs_db.LockTable.{Revocation, acquire_locks}
use blobs_db.Snapshot.{Snapshot, directory, get_loaded_blob, get_loaded_segment, get_loaded_cluster}

-- `BlobsRead::LockMode`
pub data LockMode : Type 0 where
  lock_none : LockMode
  lock_read : LockMode
  lock_write : LockMode
  lock_delete : LockMode

pub record BlobsRead : Type 0 where
  pub client_id : ℕ
  pub lock_mode : LockMode
  pub locations : List BlobLocation

-- `BlobsRead::NeedsWriteLock` and `BlobsRead::IsDirtyRead`
unfoldable pub needs_write_lock : LockMode → Bool
needs_write_lock lock_write = true
needs_write_lock lock_delete = true
needs_write_lock _ = false

unfoldable pub is_dirty_read : LockMode → Bool
is_dirty_read lock_none = true
is_dirty_read _ = false

abbrev pub is_delete : LockMode → Bool
is_delete lock_delete = true
is_delete _ = false

-- `BlobsReadResponse::Result`, the results that the two functions send
pub data ReadError : Type 0 where
  datbase_not_opened : ReadError
  no_transaction_in_progress : ReadError
  cannot_write_lock_in_mvcc : ReadError
  segment_does_not_exist : ReadError
  cluster_does_not_exist : ReadError
  blob_does_not_exist : ReadError

-- The error that is sent if the test fails.
abbrev error_unless : ReadError → Bool → Option ReadError
error_unless e true = none
error_unless e false = some e

-- The body of the loop over the requested blobs.
unfoldable pub check_requested_blob :
    Snapshot → Snapshot → LockMode → BlobLocation → Option ReadError
check_requested_blob current seen mode l =
    if l.cluster == segment_delete_id && (l.blob == cluster_delete_id && is_delete mode)
    then error_unless segment_does_not_exist (is_some (get_loaded_segment l.segment current))
    else if l.blob == cluster_delete_id && is_delete mode
    then error_unless cluster_does_not_exist
        (is_some (get_loaded_cluster l.segment l.cluster current))
    else if l.blob == blob_list_id
    then (if l.cluster == cluster_list_id
        then (if l.segment == segment_list_id
            then none
            else error_unless segment_does_not_exist (is_some (get_loaded_segment l.segment seen)))
        else error_unless cluster_does_not_exist
            (is_some (get_loaded_cluster l.segment l.cluster seen)))
    else error_unless blob_does_not_exist (is_some (get_loaded_blob l seen))

-- `EnsureRequestedBlobsExist`: the error that is sent, or none.
unfoldable pub ensure_requested_blobs_exist :
    Snapshot → Snapshot → LockMode → List BlobLocation → Option ReadError
unfolding check_requested_blob
ensure_requested_blobs_exist current seen mode [] = none
ensure_requested_blobs_exist current seen mode (l ∷ ls) =
    elim (check_requested_blob current seen mode l) [
      | some e ↦ some e
      | none ↦ ensure_requested_blobs_exist current seen mode ls
    ]

-- What the request finds: the database that the client has open with its id, with the MVCC snapshot
-- if it is opened in that mode.
pub record OpenedDatabase : Type 0 where
  pub current : Snapshot
  pub mvcc : Option Snapshot
  pub locks : List Lock

-- An error is sent; or the blobs are sent, with these revocations before and these locks after; or
-- the request is not handled yet and is to be queued.
pub data Handled : Type 0 where
  failed : ReadError → Handled
  answered : List Revocation → List Lock → Handled
  not_yet : Handled

-- `client.AcquireLocks(message)`
unfoldable pub handle_with_locks : (ℕ → Bool) → BlobsRead → OpenedDatabase → Option Handled
handle_with_locks can_revoke m db =
    elim (acquire_locks can_revoke (directory db.current) m.client_id (needs_write_lock m.lock_mode)
      m.locations db.locks) [
        | none ↦ none
        | some (true, revoked, locks') ↦ some (answered revoked locks')
        | some (false, _, _) ↦ some not_yet
      ]

-- From the snapshot on that the request sees.
unfoldable pub handle_seen :
    (ℕ → Bool) → BlobsRead → OpenedDatabase → Option Snapshot → Option Handled
unfolding ensure_requested_blobs_exist handle_with_locks is_dirty_read needs_write_lock
handle_seen can_revoke m db (some seen) =
    if needs_write_lock m.lock_mode
    then some (failed cannot_write_lock_in_mvcc)
    else elim (ensure_requested_blobs_exist db.current seen m.lock_mode m.locations) [
      | some e ↦ some (failed e)
      | none ↦ some (answered [] db.locks)
    ]
handle_seen can_revoke m db none =
    elim (ensure_requested_blobs_exist db.current db.current m.lock_mode m.locations) [
      | some e ↦ some (failed e)
      | none ↦
          if is_dirty_read m.lock_mode
          then some (answered [] db.locks)
          else handle_with_locks can_revoke m db
    ]

-- `TryHandleBlobsRead`; `inside` is `client.IsInsideTransaction()`. `none` stands for a failed
-- assertion of LockUtil.hpp.
unfoldable pub try_handle_blobs_read :
    (ℕ → Bool) → BlobsRead → Option OpenedDatabase → Bool → Option Handled
unfolding handle_seen is_dirty_read
try_handle_blobs_read can_revoke m none inside = some (failed datbase_not_opened)
try_handle_blobs_read can_revoke m (some db) inside =
    if not (is_dirty_read m.lock_mode) && not inside
    then some (failed no_transaction_in_progress)
    else handle_seen can_revoke m db (if is_dirty_read m.lock_mode then none else db.mvcc)
