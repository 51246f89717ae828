-- ===== src/Transaction/Committed.antt =====
-- What a transaction has read is what its commit makes of the database.
use blobs_db.Base.{
  ℕ, ◌≡◌, ◌∙◌, sym, ap, subst, refl, true, false, Option, none, some, List, [], ◌∷◌, ◌++◌, ◌==◌,
  if◌then◌else◌, all, All, map, length, Option-cases, inl, inr,
}
use blobs_db.Config.{next_free_blob_id}
use blobs_db.BlobLocation.{BlobLocation}
use blobs_db.Commit.{Update, CommitMessage}
use blobs_db.Versions.{Snapshot}
use blobs_db.ApplyCommit.{Deleted, calculate_commit_result}
use blobs_db.ApplyCommit.Writes.{content_at}
use blobs_db.ApplyCommit.Contents.{
  content_after_messages, IsBlobUpdate, calculate_commit_result_lem,
}
use blobs_db.StdSet.{find, count}
use blobs_db.Outcome.{Outcome, returned, thrown, assertion_failed}
use blobs_db.Transaction.Orders.{location_less, cluster_less, segment_less}
use blobs_db.Transaction.{
  DatabaseState, itself, location_of, is_segment_deleted, is_cluster_deleted, is_blob_deleted,
  read_blob,
}
use blobs_db.Transaction.Overlay.{IsValid}
use blobs_db.Transaction.Messages.{
  BlobToSend, update_of, get_sorted_writes_to_transmit, construct_commit_messages,
}
use blobs_db.Transaction.Sending.{
  AllSmall, sent_content, sent_content-append, content_or, sent_updates,
}
use blobs_db.Transaction.Splitting.{
  message_with, concat, small_enough, construct_commit_messages_lem,
}
use blobs_db.Transaction.Steps.{ensure_blob-cases}

-- What the transaction has read for a blob against the contents before and after its commit.
abbrev pub ReadAsCommitted : Outcome (Option (List ℕ)) → Option (List ℕ) → Option (List ℕ) → Type 0
ReadAsCommitted (returned none) before after = after ≡ before
ReadAsCommitted (returned (some content)) before after = after ≡ some content
ReadAsCommitted (thrown e) before after = after ≡ none
ReadAsCommitted assertion_failed before after = ⊥

content_after_chunks :
    (k : BlobLocation) (id : ℕ) (chunks : List (List BlobToSend)) (o : Option (List ℕ))
    → content_after_messages k (map (message_with id) chunks) o ≡ sent_content k (concat chunks) o
content_after_chunks k id [] o = refl
content_after_chunks k id (c ∷ cs) o =
    content_after_chunks k id cs (sent_content k c o) ∙ sym (sent_content-append k c (concat cs) o)

module _ (P : Update → Type 0) where
  All-front : (c bs : List BlobToSend) → All P (map update_of (c ++ bs)) → All P (map update_of c)
  All-front [] bs a = tt
  All-front (b ∷ c) bs a = (a.0, All-front c bs a.1)

  All-back : (c bs : List BlobToSend) → All P (map update_of (c ++ bs)) → All P (map update_of bs)
  All-back [] bs a = a
  All-back (b ∷ c) bs a = All-back c bs a.1

  All-chunks :
      (id : ℕ) (chunks : List (List BlobToSend))
      → All P (map update_of (concat chunks))
      → All (λ m. All P m.updates) (map (message_with id) chunks)
  All-chunks id [] a = tt
  All-chunks id (c ∷ cs) a =
      (All-front c (concat cs) a, All-chunks id cs (All-back c (concat cs) a))

only_blobs_deleted :
    (k : BlobLocation) (t : DatabaseState)
    → t.deleted_clusters ≡ []
    → t.deleted_segments ≡ []
    → is_blob_deleted k t ≡ count itself k t.deleted_blobs
unfolding is_blob_deleted is_cluster_deleted is_segment_deleted find
only_blobs_deleted k t nc ns = rw (nc, ns) refl

read_as_sent :
    (k : BlobLocation) (t : DatabaseState) (o : Option (List ℕ))
    → t.deleted_clusters ≡ []
    → t.deleted_segments ≡ []
    → ReadAsCommitted (read_blob k t) o (
        if count itself k t.deleted_blobs
        then none
        else content_or (find location_of k t.written_blobs) o)
unfolding read_blob
read_as_sent k t o nc ns = rw (← only_blobs_deleted k t nc ns) (elim (ensure_blob-cases k t) [
  | inl (n, q) ↦ elim (Option-cases (find location_of k t.written_blobs)) [
    | inl m ↦ rw (n, q, m) refl
    | inr (e, f) ↦ rw (n, q, f) refl
  ]
  | inr (d, (x, q)) ↦ rw (d, q) refl
])

-- The state of a transaction is valid, with contents within the size limit; it has deleted no cluster
-- and no segment; each of its writes and deletions fits into a message by itself, and is of a blob of
-- a cluster that the server's snapshot has, so that the transaction has written to no cluster or
-- segment that it has created, and what it writes as a next free blob id is an id. Then its commit
-- messages are made and make a new snapshot, in which each blob, but those of the next free ids, is
-- what the transaction has read: it has the content that the transaction has read from its own
-- writes, it is gone if the transaction refused to read it, and it is as it was if the transaction
-- has not written it.
pub commit_makes_what_was_read :
    (message_header blob_header id : ℕ) (t : DatabaseState) (db : Snapshot) (k : BlobLocation)
    → IsValid t
    → AllSmall t.written_blobs
    → t.deleted_clusters ≡ []
    → t.deleted_segments ≡ []
    → all (small_enough message_header blob_header) (get_sorted_writes_to_transmit t) ≡ true
    → All (IsBlobUpdate db) (map update_of (get_sorted_writes_to_transmit t))
    → (k.blob == next_free_blob_id) ≡ false
    → (ms : List CommitMessage) × (db' : Snapshot) × (d : Deleted) × (construct_commit_messages
          message_header blob_header
          (length (get_sorted_writes_to_transmit t))
          id
          (get_sorted_writes_to_transmit t)
        ≡ some ms)
      × (calculate_commit_result ms db ≡ some (db', d))
      × ReadAsCommitted (read_blob k t) (content_at k db) (content_at k db')
commit_makes_what_was_read message_header blob_header id t db k v a nc ns small blobs r =
    let writes = get_sorted_writes_to_transmit t in
    let (chunks, made, whole, fitting) =
      construct_commit_messages_lem message_header blob_header id writes small in
    let (db', d, done, now) = calculate_commit_result_lem k (map (message_with id) chunks) db r (
      All-chunks (IsBlobUpdate db) id chunks
        (subst (λ bs. All (IsBlobUpdate db) (map update_of bs)) (sym whole) blobs)) in
    let after =
      now
      ∙ content_after_chunks k id chunks (content_at k db)
      ∙ ap (λ bs. sent_content k bs (content_at k db)) whole
      ∙ sent_updates k t (content_at k db) v a nc ns in
    (
      map (message_with id) chunks,
      db',
      d,
      made,
      done,
      subst (ReadAsCommitted (read_blob k t) (content_at k db)) (sym after)
          (read_as_sent k t (content_at k db) nc ns),
    )
