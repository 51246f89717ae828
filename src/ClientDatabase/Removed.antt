-- ===== src/ClientDatabase/Removed.antt =====
-- What is left of a blob that DeleteBlob has deleted.
use blobs_db.Base.{ℕ, ◌≡◌, ◌∙◌, subst, sym, ap, refl, arith, true, false, some, List}
use blobs_db.BlobLocation.{BlobLocation, at}
use blobs_db.Config.{blob_list_id}
use blobs_db.StdSet.{count, insert, erase}
use blobs_db.StdSet.Laws.{count-insert}
use blobs_db.Outcome.{Outcome, ◌>>=◌, returned, thrown, blob_deleted, >>=-eq-returned, throw_if}
use blobs_db.Transaction.Orders.{location_less, location_order}
use blobs_db.Transaction
use blobs_db.Transaction.{
  DatabaseState, itself, location_of, read_blob, ensure_blob_not_deleted,
  ensure_cluster_not_deleted, ensure_segment_not_deleted,
}
use blobs_db.BlobCache.{remove_blob}
use blobs_db.ClientDatabase.{
  Server, Database, RunningTransaction, M, state_of, >>=-returned, get_transaction,
  ensure_write_lock, continue_with, read_in_transaction, write_in_transaction, read_blob_internal,
  write_blob_internal,
}
use blobs_db.ClientDatabase.Requests.{◌>>◌, in_state}
use blobs_db.ClientDatabase.Deletions.{delete_blob, in_cache}
use blobs_db.ClientDatabase.OwnWrites.{
  Runs, get_transaction-Runs, get_transaction-eq, ensure_write_lock-Runs,
}

abbrev bind : {A B : Type 0} → M A → (A → M B) → M B
bind m f db = continue_with f (m db)

ensure_blob_not_deleted-delete_blob :
    (l : BlobLocation) (t t' : DatabaseState)
    → Transaction.delete_blob l t ≡ returned t'
    → ensure_blob_not_deleted l t' ≡ thrown blob_deleted
unfolding Transaction.delete_blob ensure_blob_not_deleted ensure_cluster_not_deleted
    ensure_segment_not_deleted
ensure_blob_not_deleted-delete_blob l t t' h =
    let removed : DatabaseState = record t {
      written_blobs = erase location_of l t.written_blobs;
      created_blobs = erase itself l t.created_blobs;
      deleted_blobs = insert itself l t.deleted_blobs;
    } in
    let (_, clear, made) =
      >>=-eq-returned (ensure_blob_not_deleted l t) (λ _. returned removed) h in
    let (_, cluster_there, _) =
      >>=-eq-returned (ensure_cluster_not_deleted l.segment l.cluster t)
        (λ _. throw_if (count itself l t.deleted_blobs) blob_deleted) clear in
    let there : count itself l removed.deleted_blobs ≡ true =
      count-insert itself location_order l l t.deleted_blobs
      ∙ rw (location_order.irreflexive l) refl in
    let gone : ensure_blob_not_deleted l removed ≡ thrown blob_deleted =
      ap (λ o. o >>= λ _. throw_if (count itself l removed.deleted_blobs) blob_deleted)
        cluster_there
      ∙ ap (λ b. throw_if b blob_deleted) there in
    let same : removed ≡ t' = cc in
    subst (λ u. ensure_blob_not_deleted l u ≡ thrown blob_deleted) same gone

in_state-Runs :
    (f : DatabaseState → Outcome DatabaseState) (t : RunningTransaction) (db : Database)
    → Runs t db
    → (in_state f db).0 ≡ returned tt
    → (s : DatabaseState) × (f (state_of t) ≡ returned s)
      × Runs (record t { state = some s }) (in_state f db).1
in_state-Runs f t db r h = ground arith

-- A running transaction that has deleted the blob refuses it without a question to the server.
refused :
    (server : Server) (l : BlobLocation) (content : List ℕ) (t : RunningTransaction) (db : Database)
    → Runs t db
    → ensure_blob_not_deleted l (state_of t) ≡ thrown blob_deleted
    → (read_blob_internal server l false db ≡ (thrown blob_deleted, db))
      × (write_blob_internal server l content db ≡ (thrown blob_deleted, db))
unfolding read_blob_internal write_blob_internal read_in_transaction write_in_transaction read_blob
refused server l content t db r gone = (
  ap (continue_with (read_in_transaction server l false)) (get_transaction-eq server t db r)
      ∙ ground arith,
  ap (continue_with (write_in_transaction server l content)) (get_transaction-eq server t db r)
      ∙ ground arith,
)

-- After DeleteBlob both reads and writes of the blob are refused in the same transaction.
pub delete_blob_lem :
    (server later : Server) (l : BlobLocation) (content : List ℕ) (db : Database)
    → (delete_blob server l db).0 ≡ returned tt
    → let db' = (delete_blob server l db).1 in
      (read_blob_internal later l false db' ≡ (thrown blob_deleted, db'))
      × (write_blob_internal later l content db' ≡ (thrown blob_deleted, db'))
unfolding delete_blob
delete_blob_lem server later l content db h =
    let list = at l.segment l.cluster blob_list_id in
    let mark : M (Unit {0}) = in_state (Transaction.delete_blob l) >> in_cache (remove_blob l) in
    let lock : RunningTransaction → M (Unit {0}) =
      λ t'. bind (ensure_write_lock server l t') (λ _. mark) in
    let (t, there, e) =
      >>=-returned (get_transaction server) (λ t. bind (ensure_write_lock server list t) lock) db
        h in
    let db1 = (get_transaction server db).1 in
    let h1 = sym (ap (λ p. p.0) e) ∙ h in
    let (t', there', e') = >>=-returned (ensure_write_lock server list t) lock db1 h1 in
    let db2 = (ensure_write_lock server list t db1).1 in
    let h2 = sym (ap (λ p. p.0) e') ∙ h1 in
    let (t'', there'', e'') = >>=-returned (ensure_write_lock server l t') (λ _. mark) db2 h2 in
    let db3 = (ensure_write_lock server l t' db2).1 in
    let h3 = sym (ap (λ p. p.0) e'') ∙ h2 in
    let (_, marked, e3) =
      >>=-returned (in_state (Transaction.delete_blob l)) (λ _. in_cache (remove_blob l)) db3 h3 in
    let runs1 = get_transaction-Runs server t db there in
    let runs2 = (ensure_write_lock-Runs server list t t' db1 runs1 there').0 in
    let runs3 = (ensure_write_lock-Runs server l t' t'' db2 runs2 there'').0 in
    let (s, made, runs) = in_state-Runs (Transaction.delete_blob l) t'' db3 runs3 marked in
    let db' : Database =
      (in_cache (remove_blob l) (in_state (Transaction.delete_blob l) db3).1).1 in
    subst
      (λ p.
        (read_blob_internal later l false p.1 ≡ (thrown blob_deleted, p.1))
        × (write_blob_internal later l content p.1 ≡ (thrown blob_deleted, p.1)))
      (sym (e ∙ e' ∙ e'' ∙ e3))
      (refused later l content (record t'' { state = some s }) db' runs
        (ensure_blob_not_deleted-delete_blob l (state_of t'') s made))
