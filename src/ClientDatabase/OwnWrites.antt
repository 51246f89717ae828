-- ===== src/ClientDatabase/OwnWrites.antt =====
-- What a client reads of the blobs that it has written in its transaction.
use blobs_db.Base.{
  ℕ, ◌≡◌, ◌∙◌, subst, sym, ap, refl, arith, false, Option-cases, inl, inr, none, some, List,
}
use blobs_db.BlobLocation.{BlobLocation}
use blobs_db.Outcome.{returned}
use blobs_db.Transaction.{
  acquired_lock, ensure_cluster_not_deleted, ensure_segment_not_deleted, ensure_blob_not_deleted,
  write_blob, read_blob,
}
use blobs_db.Transaction.Edits.{read_blob-write_blob}
use blobs_db.ClientDatabase.{
  Database, Server, RunningTransaction, state_of, apply_sticky_locks, get_transaction,
  begin_transaction, first_of, write_lock_no_content, ensure_write_lock, keep_write, continue_with,
  ◌>>=◌, >>=-returned, write_in_transaction, read_in_transaction, write_blob_internal,
  read_blob_internal,
}

-- The database after the transaction is there: it is the one of the database, and no locks wait
-- for it.
abbrev pub Runs : RunningTransaction → Database → Type 0
Runs t db = (db.transaction ≡ some t) × (db.sticky_locks ≡ none)

apply_sticky_locks-Runs :
    (t t' : RunningTransaction) (db : Database)
    → db.transaction ≡ some t
    → (apply_sticky_locks t db).0 ≡ returned t'
    → Runs t' (apply_sticky_locks t db).1
unfolding apply_sticky_locks
apply_sticky_locks-Runs t t' db r h = elim (Option-cases db.sticky_locks) [
  | inl none_there ↦ ground arith
  | inr (locks, there) ↦ elim (Option-cases t.state) [
    | inl fresh ↦ ground arith
    | inr (s, used) ↦ ground arith
  ]
]

pub get_transaction-Runs :
    (server : Server) (t : RunningTransaction) (db : Database)
    → (get_transaction server db).0 ≡ returned t
    → Runs t (get_transaction server db).1
unfolding get_transaction begin_transaction
get_transaction-Runs server t db h = elim (Option-cases db.transaction) [
  | inl idle ↦
      let e : get_transaction server db
          ≡ apply_sticky_locks (first_of db) (begin_transaction server db) =
        ground arith in
      subst (λ r. Runs t r.1) (sym e)
        (apply_sticky_locks-Runs (first_of db) t (begin_transaction server db) refl
          (sym (ap (λ r. r.0) e) ∙ h))
  | inr (t', runs) ↦
      let e : get_transaction server db ≡ apply_sticky_locks t' db = ground arith in
      subst (λ r. Runs t r.1) (sym e)
        (apply_sticky_locks-Runs t' t db runs (sym (ap (λ r. r.0) e) ∙ h))
]

-- A running transaction is what GetTransaction gives.
pub get_transaction-eq :
    (server : Server) (t : RunningTransaction) (db : Database)
    → Runs t db
    → get_transaction server db ≡ (returned t, db)
unfolding get_transaction apply_sticky_locks
get_transaction-eq server t db (runs, none_left) = ground arith

-- WriteLockNoContent leaves the transaction running, and its state but for the lock.
write_lock_no_content-Runs :
    (server : Server) (l : BlobLocation) (t t' : RunningTransaction) (db : Database)
    → Runs t db
    → (write_lock_no_content server l t db).0 ≡ returned t'
    → Runs t' (write_lock_no_content server l t db).1
unfolding write_lock_no_content
write_lock_no_content-Runs server l t t' db r h = ground arith

pub ensure_write_lock-Runs :
    (server : Server) (l : BlobLocation) (t t' : RunningTransaction) (db : Database)
    → Runs t db
    → (ensure_write_lock server l t db).0 ≡ returned t'
    → (Runs t' (ensure_write_lock server l t db).1)
      × (ensure_blob_not_deleted l (state_of t') ≡ ensure_blob_not_deleted l (state_of t))
unfolding ensure_write_lock write_lock_no_content acquired_lock ensure_blob_not_deleted
    ensure_cluster_not_deleted ensure_segment_not_deleted
ensure_write_lock-Runs server l t t' db r h = ground arith

write_in_transaction-not_deleted :
    (server : Server) (l : BlobLocation) (content : List ℕ) (t : RunningTransaction) (db : Database)
    → (write_in_transaction server l content t db).0 ≡ returned tt
    → (ensure_blob_not_deleted l (state_of t) ≡ returned tt)
      × (write_in_transaction server l content t db
          ≡ (ensure_write_lock server l t >>= keep_write l content) db)
unfolding write_in_transaction
write_in_transaction-not_deleted server l content t db h = ground arith

-- WriteBlobInternal that returns leaves the content with the running transaction.
write_in_transaction-returned :
    (server : Server) (l : BlobLocation) (content : List ℕ) (t : RunningTransaction) (db : Database)
    → Runs t db
    → (write_in_transaction server l content t db).0 ≡ returned tt
    → (t' : RunningTransaction) × (Runs
        (record t' { state = some (write_blob l content (state_of t')) })
        (write_in_transaction server l content t db).1)
      × (ensure_blob_not_deleted l (state_of t') ≡ returned tt)
write_in_transaction-returned server l content t db r h =
    let (clear, e) = write_in_transaction-not_deleted server l content t db h in
    let (t', locked, e') =
      >>=-returned (ensure_write_lock server l t) (keep_write l content) db
        (sym (ap (λ p. p.0) e) ∙ h) in
    let (runs, same) = ensure_write_lock-Runs server l t t' db r locked in
    (
      t',
      subst (λ p. Runs (record t' { state = some (write_blob l content (state_of t')) }) p.1)
          (sym (e ∙ e')) (refl, runs.1),
      same ∙ clear,
    )

-- What the transaction has written is read without a question to the server.
read_blob_internal-own :
    (server : Server) (l : BlobLocation) (content : List ℕ) (t : RunningTransaction) (db : Database)
    → Runs t db
    → read_blob l (state_of t) ≡ returned (some content)
    → read_blob_internal server l false db ≡ (returned content, db)
unfolding read_blob_internal read_in_transaction
read_blob_internal-own server l content t db r own =
    ap (continue_with (read_in_transaction server l false)) (get_transaction-eq server t db r)
    ∙ ground arith

-- A blob that WriteBlobInternal has written is read with its content in the same transaction,
-- whatever the server answers.
pub read_blob_internal-write_blob_internal :
    (server later : Server) (l : BlobLocation) (content : List ℕ) (db : Database)
    → (write_blob_internal server l content db).0 ≡ returned tt
    → let db' = (write_blob_internal server l content db).1 in
      read_blob_internal later l false db' ≡ (returned content, db')
unfolding write_blob_internal read_blob_internal
read_blob_internal-write_blob_internal server later l content db h =
    let (t, there, e) =
      >>=-returned (get_transaction server) (write_in_transaction server l content) db h in
    let (t', runs, clear) =
      write_in_transaction-returned server l content t (get_transaction server db).1
        (get_transaction-Runs server t db there) (sym (ap (λ p. p.0) e) ∙ h) in
    subst (λ p. read_blob_internal later l false p.1 ≡ (returned content, p.1)) (sym e)
      (read_blob_internal-own later l content
        (record t' { state = some (write_blob l content (state_of t')) })
        (write_in_transaction server l content t (get_transaction server db).1).1 runs
        (read_blob-write_blob l content (state_of t') clear))
