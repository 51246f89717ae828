-- ===== src/Reads/Assertions.antt =====
-- The checks of a request are enough for the assertions behind it.
use blobs_db.Base.{
  ℕ, ◌≤◌, ◌≡◌, refl, subst, Bool, true, not, ◌&&◌, inl, inr, Option, none, some, List, [], ◌∷◌,
  ◌==◌, if◌then◌else◌, contains, is_some, All, Bool-cases, Option-cases, arith,
}
use blobs_db.Config.{max_blob_id, cluster_delete_id}
use blobs_db.BlobLocation.{BlobLocation}
use blobs_db.LockUtil.{for_each_lock_in_message}
use blobs_db.LockUtil.Exists.{Exists, IsClosed, for_each_lock_in_message_total}
use blobs_db.LockTable.Safety.{acquire_locks_all_or_nothing}
use blobs_db.Snapshot.{
  Snapshot, entry, keys, directory, get_loaded_blob, get_loaded_segment, get_loaded_cluster,
  blob_in_segment, blob_in_cluster,
}
use blobs_db.Reads.{
  LockMode, BlobsRead, check_requested_blob, ensure_requested_blobs_exist, needs_write_lock,
  is_dirty_read, OpenedDatabase, Handled, handle_with_locks, handle_seen, try_handle_blobs_read,
}

-- No cluster of the snapshot has a blob with one of the artificial ids.
abbrev pub HasRegularBlobs : Snapshot → Type 0
HasRegularBlobs db =
    All (λ s. All (λ c. All (λ b. b.0 ≤ max_blob_id) c.1.blobs) s.1.clusters) db.segments

some_eq {ℓ} : {A : Type ℓ} {a b : A} → some a ≡ some b → a ≡ b
some_eq e = cc

entry-All {ℓ κ} :
    {A : Type ℓ} (P : ℕ × A → Type κ) (xs : List (ℕ × A)) (i : ℕ) (a : A)
    → All P xs
    → entry i xs ≡ some a
    → (j : ℕ) × (j ≡ i) × P (j, a)
entry-All P [] i a h e = absurd (ground arith)
entry-All P ((j, b) ∷ xs) i a h e = elim (Bool-cases (j == i)) [
  | inl y ↦ (j, ground arith, subst (λ t. P (j, t)) (some_eq (rw y at e)) h.0)
  | inr n ↦ entry-All P xs i a h.1 (rw n at e)
]

entry-keys {ℓ} :
    {A : Type ℓ} (xs : List (ℕ × A)) (i : ℕ)
    → contains (keys xs) i ≡ true
    → is_some (entry i xs) ≡ true
entry-keys [] i h = h
entry-keys ((j, b) ∷ xs) i h = elim (Bool-cases (j == i)) [
  | inl y ↦ rw y
  | inr n ↦ rw n (entry-keys xs i (rw n at h))
]

-- A cluster has no blob with the id `ClusterDeleteId`, so a request for it has to be a deletion.
entry-artificial :
    (bs : List (ℕ × List ℕ)) → All (λ b. b.0 ≤ max_blob_id) bs → entry cluster_delete_id bs ≡ none
entry-artificial [] h = refl
entry-artificial ((j, b) ∷ bs) h = ground (arith, entry-artificial bs h.1)

-- Each cluster that the directory of a snapshot lists can be loaded.
directory-IsClosed : (db : Snapshot) → IsClosed (directory db)
unfolding directory get_loaded_segment get_loaded_cluster
directory-IsClosed db s cs c e h = elim (Option-cases (entry s db.segments)) [
  | inl n ↦ absurd (ground arith)
  | inr (seg, p) ↦ elim (Option-cases (entry c seg.clusters)) [
    | inl n ↦ absurd (ground (arith, entry-keys seg.clusters c))
    | inr (cl, q) ↦ rw (p, q, directory, get_loaded_segment, get_loaded_cluster)
  ]
]

-- There is no blob at a location with the blob id `ClusterDeleteId`.
no_deleting_blob :
    (db : Snapshot) (l : BlobLocation)
    → HasRegularBlobs db
    → l.blob == cluster_delete_id ≡ true
    → get_loaded_blob l db ≡ none
unfolding get_loaded_blob blob_in_segment blob_in_cluster
no_deleting_blob db l v h = elim (Option-cases (entry l.segment db.segments)) [
  | inl n ↦ ground arith
  | inr (s, p) ↦
      let (i, same, regular) = entry-All _ db.segments l.segment s v p in
      elim (Option-cases (entry l.cluster s.clusters)) [
        | inl n ↦ ground arith
        | inr (c, q) ↦
            let (j, same', regular') = entry-All _ s.clusters l.cluster c regular q in
            ground (arith, entry-artificial c.blobs regular')
      ]
]

checked-Exists :
    (db : Snapshot) (mode : LockMode) (l : BlobLocation)
    → HasRegularBlobs db
    → check_requested_blob db db mode l ≡ none
    → Exists (directory db) l
unfolding check_requested_blob directory
checked-Exists db mode l v e = record {
  segment_exists = λ y y'. ground (arith, no_deleting_blob db l v y);
  cluster_exists = λ y n. ground (arith, no_deleting_blob db l v y);
}

ensured-Exists :
    (db : Snapshot) (mode : LockMode) (ls : List BlobLocation)
    → HasRegularBlobs db
    → ensure_requested_blobs_exist db db mode ls ≡ none
    → All (Exists (directory db)) ls
unfolding ensure_requested_blobs_exist
ensured-Exists db mode [] v e = tt
ensured-Exists db mode (l ∷ ls) v e = elim (Option-cases (check_requested_blob db db mode l)) [
  | inl n ↦ (
    checked-Exists db mode l v n,
    ensured-Exists db mode ls v (rw (n, ensure_requested_blobs_exist) at e),
  )
  | inr (x, p) ↦ absurd (ground arith)
]

handle_with_locks_total :
    (can_revoke : ℕ → Bool) (m : BlobsRead) (db : OpenedDatabase)
    → HasRegularBlobs db.current
    → ensure_requested_blobs_exist db.current db.current m.lock_mode m.locations ≡ none
    → is_some (handle_with_locks can_revoke m db) ≡ true
unfolding handle_with_locks
handle_with_locks_total can_revoke m db v e =
    elim (Option-cases (for_each_lock_in_message (directory db.current) m.locations)) [
      | inl n ↦ absurd (
          ground (
            arith,
            for_each_lock_in_message_total (directory db.current) (directory-IsClosed db.current)
                m.locations (ensured-Exists db.current m.lock_mode m.locations v e),
          ))
      | inr (visited, p) ↦
          elim (acquire_locks_all_or_nothing can_revoke (directory db.current) m.client_id
            (needs_write_lock m.lock_mode) m.locations visited db.locks p) [
              | inl refused_all ↦ rw (refused_all, handle_with_locks)
              | inr (revoked, locks', got, _) ↦ rw (got, handle_with_locks)
            ]
    ]

handle_seen_total :
    (can_revoke : ℕ → Bool) (m : BlobsRead) (db : OpenedDatabase) (seen : Option Snapshot)
    → HasRegularBlobs db.current
    → is_some (handle_seen can_revoke m db seen) ≡ true
unfolding handle_seen
handle_seen_total can_revoke m db (some seen) v = elim (Bool-cases (needs_write_lock m.lock_mode)) [
  | inl y ↦ rw (y, handle_seen)
  | inr n ↦
      elim (Option-cases (ensure_requested_blobs_exist db.current seen m.lock_mode m.locations)) [
        | inl e ↦ rw (n, e, handle_seen)
        | inr (x, e) ↦ rw (n, e, handle_seen)
      ]
]
handle_seen_total can_revoke m db none v =
    elim (Option-cases
      (ensure_requested_blobs_exist db.current db.current m.lock_mode m.locations)) [
        | inl e ↦ elim (Bool-cases (is_dirty_read m.lock_mode)) [
          | inl y ↦ rw (e, y, handle_seen)
          | inr n ↦ rw (e, n, handle_seen) (handle_with_locks_total can_revoke m db v e)
        ]
        | inr (x, e) ↦ rw (e, handle_seen)
      ]

-- `TryHandleBlobsRead` always comes to a result, in every lock mode and whatever is requested: once
-- `EnsureRequestedBlobsExist` finds no error, no assertion of LockUtil.hpp fails behind it. No
-- cluster of the current snapshot may have a blob with an artificial id.
pub try_handle_blobs_read_total :
    (can_revoke : ℕ → Bool) (m : BlobsRead) (db : OpenedDatabase) (inside : Bool)
    → HasRegularBlobs db.current
    → (result : Handled) × (try_handle_blobs_read can_revoke m (some db) inside ≡ some result)
unfolding try_handle_blobs_read handle_seen
try_handle_blobs_read_total can_revoke m db inside v =
    elim (Option-cases (try_handle_blobs_read can_revoke m (some db) inside)) [
      | inl n ↦ absurd (ground (arith, total))
      | inr (r, p) ↦ (r, p)
    ]
  where
    total : is_some (try_handle_blobs_read can_revoke m (some db) inside) ≡ true
    total = elim (Bool-cases (not (is_dirty_read m.lock_mode) && not inside)) [
      | inl y ↦ rw (y, try_handle_blobs_read)
      | inr n ↦
          rw (n, try_handle_blobs_read)
            (handle_seen_total can_revoke m db (if is_dirty_read m.lock_mode then none else db.mvcc)
              v)
    ]
