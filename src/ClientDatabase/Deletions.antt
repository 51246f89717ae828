-- ===== src/ClientDatabase/Deletions.antt =====
-- DeleteBlob, DeleteCluster and DeleteSegment of ClientLib/Database.cpp.
use blobs_db.Base.{ℕ, ◌==◌, if◌then◌else◌}
use blobs_db.BlobLocation.{BlobLocation, at}
use blobs_db.Config.{
  blob_list_id, cluster_list_id, segment_list_id, cluster_delete_id, segment_delete_id,
}
use blobs_db.Outcome.{returned}
use blobs_db.Transaction
use blobs_db.Transaction.{get_lock_type}
use blobs_db.BlobCache.{Cache, remove_blob, remove_cluster, remove_segment}
use blobs_db.ClientDatabase.{
  Server, RunningTransaction, M, ◌>>=◌, state_of, get_transaction, ensure_write_lock,
  write_lock_no_content,
}
use blobs_db.ClientDatabase.Requests.{◌>>◌, give, in_state, now_locked}

abbrev pub in_cache : (Cache → Cache) → M (Unit {0})
in_cache f db = (returned tt, record db { cache = f db.cache })

unfoldable pub delete_blob : Server → BlobLocation → M (Unit {0})
unfolding ensure_write_lock remove_blob
delete_blob server l = do
  t ← get_transaction server
  t' ← ensure_write_lock server (at l.segment l.cluster blob_list_id) t
  _ ← ensure_write_lock server l t'
  in_state (Transaction.delete_blob l)
  in_cache (remove_blob l)

-- The write lock at the first location brings that of the second with it.
unfoldable pub lock_both : Server → BlobLocation → BlobLocation → RunningTransaction → M (Unit {0})
unfolding write_lock_no_content
lock_both server l list t =
    if get_lock_type l (state_of t) == 2
    then give tt
    else (do _ ← write_lock_no_content server l t; now_locked list)

unfoldable pub delete_cluster : Server → ℕ → ℕ → M (Unit {0})
unfolding lock_both remove_cluster
delete_cluster server s c = do
  t ← get_transaction server
  lock_both server (at s c cluster_delete_id) (at s cluster_list_id blob_list_id) t
  in_state (Transaction.delete_cluster s c)
  in_cache (remove_cluster s c)

unfoldable pub delete_segment : Server → ℕ → M (Unit {0})
unfolding lock_both remove_segment
delete_segment server s = do
  t ← get_transaction server
  lock_both server (at s segment_delete_id cluster_delete_id)
      (at segment_list_id cluster_list_id blob_list_id) t
  in_state (Transaction.delete_segment s)
  in_cache (remove_segment s)
