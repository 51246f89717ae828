-- ===== src/BlobCache.antt =====
-- The class BlobCache of ClientLib/Database.cpp: the cache of blobs of a database in the client library.
use blobs_db.Base.{ℕ, not, ◌&&◌, Option, none, some, List, [], ◌∷◌, ◌==◌, filter}
use blobs_db.BlobLocation.{BlobLocation}
use blobs_db.HeldLocks.{HeldLocks}
use blobs_db.StdSet.{find, assign, erase}
use blobs_db.Transaction.Orders.{location_less}

-- `BlobCache::CachedBlob`
pub record CachedBlob : Type 0 where
  pub content : List ℕ
  pub last_updated : ℕ
  pub transaction_id : ℕ

abbrev pub Cache : Type 0
Cache = List (BlobLocation × CachedBlob)

abbrev pub cached_at : BlobLocation × CachedBlob → BlobLocation
cached_at e = e.0

unfoldable pub get : BlobLocation → Cache → Option CachedBlob
get l cache = elim (find cached_at l cache) [ none ↦ none | some e ↦ some e.1 ]

-- `Update` and `Set`
abbrev pub set : BlobLocation → CachedBlob → Cache → Cache
set l blob cache = assign cached_at (l, blob) cache

unfoldable pub remove_blob : BlobLocation → Cache → Cache
remove_blob l cache = erase cached_at l cache

unfoldable pub remove_cluster : ℕ → ℕ → Cache → Cache
remove_cluster s c cache =
    filter (λ (e : BlobLocation × CachedBlob). not (e.0.segment == s && e.0.cluster == c)) cache

unfoldable pub remove_segment : ℕ → Cache → Cache
remove_segment s cache = filter (λ (e : BlobLocation × CachedBlob). not (e.0.segment == s)) cache

-- The loop over the locks of one set.
unfoldable pub update_txn_id : List BlobLocation → ℕ → Cache → Cache
unfolding get
update_txn_id [] id cache = cache
update_txn_id (l ∷ ls) id cache = update_txn_id ls id (elim (get l cache) [
  | none ↦ cache
  | some blob ↦ set l (record blob { transaction_id = id }) cache
])

unfoldable pub update_txn_id_for_held_locks : HeldLocks → ℕ → Cache → Cache
unfolding update_txn_id
update_txn_id_for_held_locks locks id cache =
    update_txn_id locks.write id (update_txn_id locks.read id cache)
