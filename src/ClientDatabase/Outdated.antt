-- ===== src/ClientDatabase/Outdated.antt =====
-- A cached blob that is outdated, and a write of it in a transaction that is aborted.
use blobs_db.Base.{
  ℕ, Bool, add64, ◌≡◌, ◌∙◌, subst, sym, arith, refl, true, false, none, some, List, [], ◌∷◌, ◌==◌,
}
use blobs_db.BlobLocation.{BlobLocation}
use blobs_db.StdSet.{find}
use blobs_db.Outcome.{returned}
use blobs_db.HeldLocks
use blobs_db.HeldLocks.{HeldLocks, update_locks, erase_locks}
use blobs_db.BlobLocation.Order.{eq_refl}
use blobs_db.Transaction.{
  new_state, ensure_blob_not_deleted, ensure_cluster_not_deleted, ensure_segment_not_deleted,
  write_blob, read_blob, get_lock_type, acquired_lock, is_blob_deleted, is_cluster_deleted,
  is_segment_deleted,
}
use blobs_db.Transaction.Orders.{location_less, location_order}
use blobs_db.ClientDatabase.CommittedCache.{get-set}
use blobs_db.BlobCache.{Cache, CachedBlob, update_txn_id_for_held_locks, update_txn_id, get}
use blobs_db.ClientDatabase.{
  Database, Server, Answer, sent, state_of, write_blob_internal, read_blob_internal, abort,
  RunningTransaction, ensure_write_lock, write_in_transaction, read_in_transaction,
  write_lock_no_content, get_transaction, continue_with, keep_write, first_of, begin_transaction,
  apply_sticky_locks, read_cached, transfer_and_clear_state,
}

-- A client without a transaction and without sticky locks in the database, and not in MVCC mode.
abbrev pub idle : Cache → Bool → ℕ → Database
idle cache active next = record {
  cache = cache;
  sticky_locks = none;
  mvcc_setting = false;
  mvcc_active = active;
  transaction = none;
  next_transaction_id = next;
}

-- A server that has revoked no lock.
abbrev pub keeping : (BlobLocation → ℕ → Bool → Answer) → (BlobLocation → Answer) → Server
keeping read lock = record { keep = false; locks = []; read = read; lock = lock }

abbrev only : BlobLocation → HeldLocks
only l = record { read = []; write = l ∷ [] }

-- What is left after the write and Abort.
abbrev aborted : BlobLocation → Cache → ℕ → Database
aborted l cache next = record (idle cache false (add64 next 1)) { sticky_locks = some (only l) }

write_lock_no_content-granted :
    (read : BlobLocation → ℕ → Bool → Answer) (lock : BlobLocation → Answer) (l : BlobLocation)
    (t : RunningTransaction) (db : Database) (commit : ℕ) (content : List ℕ)
    → db.mvcc_active ≡ false
    → lock l ≡ sent commit content
    → let t' : RunningTransaction = record t { state = some (acquired_lock l true (state_of t)) } in
      write_lock_no_content (keeping read lock) l t db
      ≡ (returned t', record db { transaction = some t' })
unfolding write_lock_no_content
write_lock_no_content-granted read lock l t db commit content active granted = ground arith

write_blob_internal-idle :
    (read : BlobLocation → ℕ → Bool → Answer) (lock : BlobLocation → Answer) (l : BlobLocation)
    (cache : Cache) (active : Bool) (next commit : ℕ) (content written : List ℕ)
    → lock l ≡ sent commit content
    → let wrote = write_blob_internal (keeping read lock) l written (idle cache active next) in
      (wrote.0 ≡ returned tt) × ((abort wrote.1).1 ≡ aborted l cache next)
unfolding write_blob_internal begin_transaction write_in_transaction abort ensure_write_lock
    get_transaction apply_sticky_locks transfer_and_clear_state ensure_blob_not_deleted
    ensure_cluster_not_deleted ensure_segment_not_deleted write_blob get_lock_type acquired_lock
    is_blob_deleted is_cluster_deleted is_segment_deleted find HeldLocks.insert
write_blob_internal-idle read lock l cache active next commit content written granted =
    subst
      (λ p.
        ((continue_with (keep_write l written) p).0 ≡ returned tt)
        × ((abort (continue_with (keep_write l written) p).1).1 ≡ aborted l cache next))
      (sym (
        write_lock_no_content-granted read lock l (first_of (idle cache active next))
          (begin_transaction (keeping read lock) (idle cache active next)) commit content refl
          granted))
      (refl, refl)

-- The cached blob counts as read in the transaction that takes the lock over.
get-update_txn_id :
    (l : BlobLocation) (b : CachedBlob) (cache : Cache) (id : ℕ)
    → get l cache ≡ some b
    → get l (update_txn_id (l ∷ []) id cache) ≡ some (record b { transaction_id = id })
unfolding update_txn_id
get-update_txn_id l b cache id there =
    rw (update_txn_id, there)
      (get-set l l (record b { transaction_id = id }) cache
        ∙ rw (location_order.irreflexive l) refl)

get_lock_type-write :
    (l : BlobLocation) → get_lock_type l (new_state record { read = []; write = l ∷ [] }) ≡ 2
unfolding get_lock_type
get_lock_type-write l = rw (eq_refl l) refl

read_cached-held :
    (server : Server) (l : BlobLocation) (b : CachedBlob) (db : Database)
    → get l db.cache ≡ some b
    → (read_cached server l false
        (record { id = b.transaction_id; state = some (new_state (only l)) })
        db).0
      ≡ returned b.content
unfolding read_cached
read_cached-held server l b db there =
    let same : (b.transaction_id == b.transaction_id) ≡ true = ground arith in
    rw (read_cached, there, same, get_lock_type-write l) refl

-- A client that has a blob in its cache, no transaction and no sticky locks in the database, and that
-- is not in MVCC mode, writes the blob, for which the server grants the lock, and aborts. If the
-- server has then revoked no lock, the next transaction reads the blob as it is in the cache,
-- whatever the server has for it.
pub aborted_write_makes_cache_current :
    (read later_read : BlobLocation → ℕ → Bool → Answer) (lock later_lock : BlobLocation → Answer)
    (l : BlobLocation) (b : CachedBlob) (cache : Cache) (active : Bool) (next commit : ℕ)
    (content written : List ℕ)
    → get l cache ≡ some b
    → lock l ≡ sent commit content
    → let wrote = write_blob_internal (keeping read lock) l written (idle cache active next) in
      (wrote.0 ≡ returned tt)
      × ((read_blob_internal (keeping later_read later_lock) l false (abort wrote.1).1).0
          ≡ returned b.content)
unfolding read_blob_internal read_in_transaction begin_transaction get_transaction
    apply_sticky_locks update_txn_id_for_held_locks update_locks erase_locks read_blob
    ensure_blob_not_deleted ensure_cluster_not_deleted ensure_segment_not_deleted is_blob_deleted
    is_cluster_deleted is_segment_deleted find update_txn_id
aborted_write_makes_cache_current read later_read lock later_lock l b cache active next commit
      content written there granted =
    let (wrote, left) =
      write_blob_internal-idle read lock l cache active next commit content written granted in
    let id = add64 next 1 in
    let t : RunningTransaction = record { id = id; state = some (new_state (only l)) } in
    (
      wrote,
      rw left (
          read_cached-held (keeping later_read later_lock) l (record b { transaction_id = id })
            (record (idle (update_txn_id (l ∷ []) id cache) false (add64 id 1)) {
              transaction = some t;
            })
            (get-update_txn_id l b cache id there)),
    )
