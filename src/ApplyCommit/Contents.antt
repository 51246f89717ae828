-- ===== src/ApplyCommit/Contents.antt =====
-- What a commit of blobs makes of the contents of all blobs.
use blobs_db.Base.{
  ℕ, ◌≡◌, ◌∙◌, refl, ap, true, false, Option, some, List, [], ◌∷◌, ◌==◌, if◌then◌else◌, All,
}
use blobs_db.Config.{next_free_blob_id}
use blobs_db.BlobLocation.{BlobLocation, eq}
use blobs_db.Commit.{Update, CommitMessage}
use blobs_db.Versions.{Snapshot, next_snapshot, version_of}
use blobs_db.ApplyCommit.{
  Deleted, note_deleted, apply_updates, apply_commit_messages, calculate_commit_result,
}
use blobs_db.ApplyCommit.SegmentWrites.{written}
use blobs_db.ApplyCommit.Writes.{Present, content_at, is_blob_update, write_at}

-- The content at a location after a list of updates: the last update there gives it.
abbrev pub content_after : BlobLocation → List Update → Option (List ℕ) → Option (List ℕ)
content_after k [] o = o
content_after k (u ∷ us) o = content_after k us (if eq k u.location then written u.content else o)

abbrev pub content_after_messages :
    BlobLocation → List CommitMessage → Option (List ℕ) → Option (List ℕ)
content_after_messages k [] o = o
content_after_messages k (m ∷ ms) o = content_after_messages k ms (content_after k m.updates o)

-- The update concerns the blobs of a cluster that is there.
abbrev pub IsBlobUpdate : Snapshot → Update → Type 0
IsBlobUpdate db u = (is_blob_update u ≡ true) × Present u.location db

module _ (k : BlobLocation) (r : (k.blob == next_free_blob_id) ≡ false) where
  abbrev Keeps : Snapshot → Snapshot → Type 0
  Keeps db db' = (m : BlobLocation) → Present m db → Present m db'

  keep_updates :
      (db db' : Snapshot) (us : List Update)
      → Keeps db db'
      → All (IsBlobUpdate db) us
      → All (IsBlobUpdate db') us
  keep_updates db db' [] h a = a
  keep_updates db db' (u ∷ us) h ((b, p), a) = ((b, h u.location p), keep_updates db db' us h a)

  keep_messages :
      (db db' : Snapshot) (ms : List CommitMessage)
      → Keeps db db'
      → All (λ m. All (IsBlobUpdate db) m.updates) ms
      → All (λ m. All (IsBlobUpdate db') m.updates) ms
  keep_messages db db' [] h a = a
  keep_messages db db' (m ∷ ms) h (b, a) =
      (keep_updates db db' m.updates h b, keep_messages db db' ms h a)

  write_updates :
      (us : List Update) (db : Snapshot) (d : Deleted)
      → All (IsBlobUpdate db) us
      → (db' : Snapshot) × (d' : Deleted) × (apply_updates us (db, d) ≡ some (db', d'))
        × Keeps db db'
        × (content_at k db' ≡ content_after k us (content_at k db))
  unfolding apply_updates
  write_updates [] db d a = (db, d, refl, λ m p. p, refl)
  write_updates (u ∷ us) db d ((b, p), a) =
      let (db1, made, keeps, now) = write_at k u db p r b in
      let (db2, d2, made2, keeps2, now2) =
        write_updates us db1 (note_deleted u d) (keep_updates db db1 us keeps a) in
      (
        db2,
        d2,
        rw (made, apply_updates) made2,
        λ m q. keeps2 m (keeps m q),
        now2 ∙ ap (content_after k us) now,
      )

  write_messages :
      (ms : List CommitMessage) (db : Snapshot) (d : Deleted)
      → All (λ m. All (IsBlobUpdate db) m.updates) ms
      → (db' : Snapshot) × (d' : Deleted) × (apply_commit_messages ms (db, d) ≡ some (db', d'))
        × (content_at k db' ≡ content_after_messages k ms (content_at k db))
  unfolding apply_commit_messages
  write_messages [] db d a = (db, d, refl, refl)
  write_messages (m ∷ ms) db d (b, a) =
      let (db1, d1, made, keeps, now) = write_updates m.updates db d b in
      let (db2, d2, made2, now2) = write_messages ms db1 d1 (keep_messages db db1 ms keeps a) in
      (db2, d2, rw (made, apply_commit_messages) made2, now2 ∙ ap (content_after_messages k ms) now)

  next_snapshot-Present : (db : Snapshot) → Keeps db (next_snapshot db)
  unfolding next_snapshot
  next_snapshot-Present db m p = record {
    segment = p.segment;
    cluster = p.cluster;
    segment_there = p.segment_there;
    cluster_there = p.cluster_there;
    sorted = p.sorted;
  }

  content_at-next_snapshot : (db : Snapshot) → content_at k (next_snapshot db) ≡ content_at k db
  unfolding next_snapshot version_of
  content_at-next_snapshot db = refl

-- A commit of messages that write, delete and create blobs, in clusters that are there, has a
-- result, and in it every blob, at whatever location that is no next free id, has the content that the last
-- update for its location gave it, is gone if that deleted it, and is as it was if there is none.
pub calculate_commit_result_lem :
    (k : BlobLocation) (ms : List CommitMessage) (db : Snapshot)
    → (k.blob == next_free_blob_id) ≡ false
    → All (λ m. All (IsBlobUpdate db) m.updates) ms
    → (db' : Snapshot) × (d : Deleted) × (calculate_commit_result ms db ≡ some (db', d))
      × (content_at k db' ≡ content_after_messages k ms (content_at k db))
unfolding calculate_commit_result
calculate_commit_result_lem k ms db r a =
    let (db', d, made, now) =
      write_messages k r ms (next_snapshot db) (record { blobs = []; clusters = []; segments = [] })
        (keep_messages k r db (next_snapshot db) ms (next_snapshot-Present k r db) a) in
    (db', d, made, now ∙ ap (content_after_messages k ms) (content_at-next_snapshot k r db))
