-- ===== src/Tests/ClientDatabases.antt =====
-- Runs of a client: a write of a blob in the cache and what is read of it, also after Abort; a
-- creation, a deletion, a commit.
use blobs_db.Base.{none, ℕ, ◌≡◌, refl, false, List, [], ◌∷◌, ◌≤◌, Bool, true, some, map, arith}
use blobs_db.BlobLocation.{BlobLocation, at, eq, lt}
use blobs_db.StdSet.{find, assign, insert, erase, erase_range, before_lower_bound, from_upper_bound}
use blobs_db.Outcome.{Outcome, returned, thrown, blob_deleted}
use blobs_db.Transaction.Orders.{location_less}
use blobs_db.Transaction.{
  ensure_blob_not_deleted, ensure_cluster_not_deleted, ensure_segment_not_deleted, get_lock_type,
  read_blob, write_blob, acquired_lock, is_cluster_deleted, is_segment_deleted,
}
use blobs_db.BlobCache.{get}
use blobs_db.ClientDatabase.{
  Database, apply_sticky_locks, begin_transaction, get_transaction, write_lock_no_content,
  ensure_write_lock, write_in_transaction, write_blob_internal, abort, Server, sent,
  read_in_transaction, read_cached, request_blob, read_blob_internal,
}
use blobs_db.ClientDatabase.Outdated.{idle, keeping, aborted_write_makes_cache_current}
use blobs_db.ClientDatabase.OwnWrites.{read_blob_internal-write_blob_internal}
use blobs_db.HeldLocks
use blobs_db.Base.Chunks.{take_fitting}
use blobs_db.Config.{max_blob_size, max_blob_id, max_cluster_id, max_segment_id}
use blobs_db.Snapshot.{id_content}
use blobs_db.IdRanges.{into_id_ranges}
use blobs_db.ReadResponse.{ranges_content}
use blobs_db.Transaction
use blobs_db.Transaction.Messages.{
  ClientCommit, update_of, construct_transaction_messages, construct_all, mark_follow_messages,
  construct_commit_messages, get_sorted_writes_to_transmit, stable_sort, sort_in, goes_before,
  is_valid_message_size,
}
use blobs_db.ClientDatabase.Lists.{ids_in}
use blobs_db.ClientDatabase.ListRoundTrip.{ids_in_lem}
use blobs_db.ClientDatabase.Creations.{take_blob_id, create_blob_internal, create_blob}
use blobs_db.ClientDatabase.Created.{read_blob_internal-create_blob}
use blobs_db.ClientDatabase.Deletions.{delete_blob}
use blobs_db.ClientDatabase.Removed.{delete_blob_lem}
use blobs_db.ClientDatabase.Committing.{made, commit}
use blobs_db.ClientDatabase.CommittedCache.{commit_lem}
use blobs_db.Tests.Transactions.{changed, writes}

-- The server has another content, of commit 7.
abbrev newer : BlobLocation → ℕ → ℕ × List ℕ
newer l known = (7, 6 ∷ [])

abbrev granting : (BlobLocation → ℕ → ℕ × List ℕ) → Server
granting answer =
    keeping (λ l known write. sent (answer l known).0 (answer l known).1) (λ l. sent 0 [])

-- A client with one blob in its cache.
abbrev caching : BlobLocation → List ℕ → Database
caching l content =
    idle ((l, record { content = content; last_updated = 1; transaction_id = 0 }) ∷ []) false 1

blob_is_cached :
    get (at 1 0 5) (caching (at 1 0 5) (9 ∷ [])).cache
    ≡ some record { content = 9 ∷ []; last_updated = 1; transaction_id = 0 }
unfolding get find lt
blob_is_cached = refl

aborted_write_makes_cache_current_example :
    ((write_blob_internal (granting newer) (at 1 0 5) [] (caching (at 1 0 5) (9 ∷ []))).0
      ≡ returned tt)
    × ((read_blob_internal
          (granting newer)
          (at 1 0 5)
          false
          (abort
            (write_blob_internal
              (granting newer)
              (at 1 0 5)
              []
              (caching (at 1 0 5) (9 ∷ []))).1).1).0
        ≡ returned (9 ∷ []))
aborted_write_makes_cache_current_example =
    aborted_write_makes_cache_current (granting newer).read (granting newer).read
      (granting newer).lock (granting newer).lock (at 1 0 5)
      (record { content = 9 ∷ []; last_updated = 1; transaction_id = 0 })
      (caching (at 1 0 5) (9 ∷ [])).cache false 1 0 [] [] blob_is_cached refl

abbrev after_write : Outcome (Unit {0}) × Database
after_write = write_blob_internal (granting newer) (at 1 0 5) (2 ∷ []) (caching (at 1 0 5) (9 ∷ []))

write_returns : after_write.0 ≡ returned tt
unfolding write_blob_internal write_in_transaction begin_transaction ensure_write_lock
    write_lock_no_content get_transaction apply_sticky_locks ensure_blob_not_deleted
    ensure_cluster_not_deleted ensure_segment_not_deleted get_lock_type find
write_returns = refl

read_blob_internal-write_blob_internal_example :
    read_blob_internal (granting newer) (at 1 0 5) false after_write.1
    ≡ (returned (2 ∷ []), after_write.1)
read_blob_internal-write_blob_internal_example =
    read_blob_internal-write_blob_internal (granting newer) (granting newer) (at 1 0 5) (2 ∷ [])
      (caching (at 1 0 5) (9 ∷ [])) write_returns

-- A server that answers each read with the next free id 6.
abbrev next_free : Server
next_free = granting (λ l known. (7, id_content 6))

create_returns : (create_blob next_free 1 0 (9 ∷ []) (caching (at 1 0 5) [])).0 ≡ returned 6
unfolding create_blob create_blob_internal take_blob_id read_blob_internal read_in_transaction
    read_cached request_blob get get_transaction begin_transaction apply_sticky_locks read_blob
    write_blob_internal write_in_transaction ensure_write_lock write_lock_no_content
    ensure_blob_not_deleted ensure_cluster_not_deleted ensure_segment_not_deleted get_lock_type
    acquired_lock find assign lt eq HeldLocks.insert Transaction.create_blob is_cluster_deleted
    is_segment_deleted insert erase_range before_lower_bound from_upper_bound erase write_blob
create_returns = refl

read_blob_internal-create_blob_example :
    (1 ≤ max_blob_size)
    × (1 ≤ max_segment_id)
    × (0 ≤ max_cluster_id)
    × (6 ≤ max_blob_id)
    × (read_blob_internal
          (granting newer)
          (at 1 0 6)
          false
          (create_blob next_free 1 0 (9 ∷ []) (caching (at 1 0 5) [])).1
        ≡ (returned (9 ∷ []), (create_blob next_free 1 0 (9 ∷ []) (caching (at 1 0 5) [])).1))
read_blob_internal-create_blob_example =
    read_blob_internal-create_blob next_free (granting newer) 1 0 6 (9 ∷ []) (caching (at 1 0 5) [])
      create_returns

abbrev after_delete : Outcome (Unit {0}) × Database
after_delete = delete_blob (granting newer) (at 1 0 5) (caching (at 1 0 5) (9 ∷ []))

delete_returns : after_delete.0 ≡ returned tt
unfolding delete_blob get_transaction begin_transaction apply_sticky_locks ensure_write_lock
    write_lock_no_content ensure_blob_not_deleted ensure_cluster_not_deleted
    ensure_segment_not_deleted get_lock_type acquired_lock find eq HeldLocks.insert lt
    Transaction.delete_blob
delete_returns = refl

delete_blob_lem_example :
    (read_blob_internal (granting newer) (at 1 0 5) false after_delete.1
      ≡ (thrown blob_deleted, after_delete.1))
    × (write_blob_internal (granting newer) (at 1 0 5) [] after_delete.1
        ≡ (thrown blob_deleted, after_delete.1))
delete_blob_lem_example =
    delete_blob_lem (granting newer) (granting newer) (at 1 0 5) [] (caching (at 1 0 5) (9 ∷ []))
      delete_returns

ids_in_lem_example :
    ids_in (ranges_content (into_id_ranges (0 ∷ 1 ∷ 2 ∷ 300 ∷ []))) ≡ 0 ∷ 1 ∷ 2 ∷ 300 ∷ []
ids_in_lem_example =
    ids_in_lem (0 ∷ 1 ∷ 2 ∷ 300 ∷ []) (omega arith, (omega arith, (omega arith, (omega arith, tt))))

abbrev writing : Database
writing = record (caching (at 1 0 5) (4 ∷ [])) {
  transaction = some record { id = 3; state = some changed };
}

abbrev messages : List ClientCommit
messages =
    record {
      message = record { database_id = 2; updates = map update_of writes };
      has_follow_message = false;
    }
    ∷ []

messages_of_changed :
    construct_transaction_messages 16 24 (2 ∷ []) ((2, changed) ∷ []) ≡ some messages
unfolding construct_transaction_messages construct_all mark_follow_messages
    construct_commit_messages get_sorted_writes_to_transmit stable_sort sort_in goes_before
    is_valid_message_size take_fitting
messages_of_changed = refl

abbrev committed : Outcome Bool × Database
committed = commit 16 24 (λ ms. made (some 8)) 2 writing

commit_lem_example :
    (committed.0 ≡ returned true)
    × (committed.1.transaction ≡ none)
    × (get (at 1 0 5) committed.1.cache
        ≡ some record { content = 9 ∷ 9 ∷ []; last_updated = 8; transaction_id = 3 })
unfolding find lt
commit_lem_example =
    commit_lem 16 24 (λ ms. made (some 8)) 2 8 3 changed messages writing (at 1 0 5) refl
      messages_of_changed refl (refl, tt) (refl, tt) refl
