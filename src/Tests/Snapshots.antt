-- ===== src/Tests/Snapshots.antt =====
-- A snapshot with one cluster of two blobs, and a commit that writes one of them.
use blobs_db.Base.{
  ℕ, suc, ◌≤◌, ◌≡◌, ◌⊎◌, inl, inr, subst, refl, true, Option, none, some, List, [], ◌∷◌, ◌==◌,
  if◌then◌else◌, length, all, All, arith,
}
use blobs_db.BlobLocation.{at, eq}
use blobs_db.FlatMap.{find, put, erase}
use blobs_db.FlatMap.Refinement.{Sorted, flat_map_lem}
use blobs_db.Commit.{bytes, deletion, CommitMessage}
use blobs_db.Versions.{
  Blob, Cluster, Segment, Snapshot, id_blob, version_of, next_snapshot, update_segment,
  copy_segment, set_content, update_cluster, copy_cluster, update_blob, version_in_segment,
  version_in_cluster,
}
use blobs_db.ApplyCommit.{
  Deleted, calculate_commit_result, apply_commit_messages, apply_updates, apply_update,
  update_in_segment, update_in_cluster, note_deleted,
}
use blobs_db.ApplyCommit.Follows.{IsValidCluster, IsValidSegment}
use blobs_db.ApplyCommit.Steps.{IsValid}
use blobs_db.ApplyCommit.Coherence.{calculate_commit_result-IsValid}
use blobs_db.ApplyCommit.Caches.{same_commit_id_same_content}
use blobs_db.ApplyCommit.Writes.{Present, content_at}
use blobs_db.ApplyCommit.Contents.{
  content_after_messages, IsBlobUpdate, calculate_commit_result_lem,
}
use blobs_db.ReadResponse.{BlobData, Message, fits_into_message, send_chunks}
use blobs_db.ReadResponse.Chunks.{fits, fits_alone, sent, announced, send_chunks_lem}

abbrev two_entries : List (ℕ × ℕ)
two_entries = (3, 30) ∷ (8, 80) ∷ []

flat_map_lem_example :
    (Sorted (put 5 50 two_entries)
      × (find 8 (put 5 50 two_entries) ≡ (if 8 == 5 then some 50 else find 8 two_entries)))
    × (Sorted (erase 5 two_entries)
        × (find 8 (erase 5 two_entries) ≡ (if 8 == 5 then none else find 8 two_entries)))
flat_map_lem_example = flat_map_lem 5 50 two_entries 8 (refl, (refl, tt))

abbrev written : List ℕ → ℕ → Blob
written content commit = record { commit_id = commit; content = content }

abbrev cluster_with : ℕ → Blob → Cluster
cluster_with commit last = record {
  commit_id = commit;
  blobs = (0, written [] 1) ∷ (5, last) ∷ [];
  next_free_blob = 6;
  next_free_blob_id_blob = id_blob commit 6;
}

abbrev snapshot_with : ℕ → Blob → Snapshot
snapshot_with commit last = record {
  commit_id = commit;
  segments =
      (
        1,
        record {
          commit_id = commit;
          clusters = (0, cluster_with commit last) ∷ [];
          next_free_cluster = 1;
          next_free_cluster_id_blob = id_blob commit 1;
        },
      )
      ∷ [];
  next_free_segment = 2;
  next_free_segment_id_blob = id_blob 1 2;
}

abbrev pub snapshot_before : Snapshot
snapshot_before = snapshot_with 3 (written (7 ∷ []) 2)

abbrev snapshot_after : Snapshot
snapshot_after = snapshot_with 4 (written (9 ∷ 9 ∷ []) 4)

abbrev commit : List CommitMessage
commit =
    record {
      database_id = 0;
      updates = record { location = at 1 0 5; content = bytes (9 ∷ 9 ∷ []) } ∷ [];
    }
    ∷ []

abbrev nothing_deleted : Deleted
nothing_deleted = record { blobs = []; clusters = []; segments = [] }

commit_result :
    calculate_commit_result commit snapshot_before ≡ some (snapshot_after, nothing_deleted)
unfolding calculate_commit_result apply_commit_messages apply_updates apply_update update_in_segment
    update_in_cluster next_snapshot put note_deleted update_segment find copy_segment set_content
    update_cluster copy_cluster update_blob
commit_result = refl

found_in_one : {A : Type 0} (k : ℕ) (v : A) (i : ℕ) (x : A) → find i ((k, v) ∷ []) ≡ some x → v ≡ x
unfolding find
found_in_one k v i x e = ground arith

found_in_two :
    {A : Type 0} (k j : ℕ) (v w : A) (i : ℕ) (x : A)
    → find i ((k, v) ∷ (j, w) ∷ []) ≡ some x
    → (v ≡ x) ⊎ (w ≡ x)
unfolding find
found_in_two k j v w i x e = ground arith

cluster-IsValid : IsValidCluster 3 (cluster_with 3 (written (7 ∷ []) 2))
cluster-IsValid = record {
  known = omega arith;
  id_known = omega arith;
  sorted = (refl, (refl, tt));
  each = λ b x e. elim (found_in_two 0 5 (written [] 1) (written (7 ∷ []) 2) b x e) [
    | inl p ↦ subst (λ (z : Blob). z.commit_id ≤ 3) p (omega arith)
    | inr p ↦ subst (λ (z : Blob). z.commit_id ≤ 3) p (omega arith)
  ];
}

abbrev segment_before : Segment
segment_before = record {
  commit_id = 3;
  clusters = (0, cluster_with 3 (written (7 ∷ []) 2)) ∷ [];
  next_free_cluster = 1;
  next_free_cluster_id_blob = id_blob 3 1;
}

segment-IsValid : IsValidSegment 3 segment_before
segment-IsValid = record {
  known = omega arith;
  id_known = omega arith;
  sorted = (refl, tt);
  each = λ c x e. subst (IsValidCluster 3) (found_in_one 0 _ c x e) cluster-IsValid;
}

snapshot_before-IsValid : IsValid snapshot_before
snapshot_before-IsValid = record {
  id_known = omega arith;
  sorted = (refl, tt);
  each = λ s x e. subst (IsValidSegment 3) (found_in_one 1 segment_before s x e) segment-IsValid;
}

calculate_commit_result-IsValid_example :
    IsValid snapshot_after
    × (snapshot_after.commit_id ≡ suc snapshot_before.commit_id)
    × (snapshot_after.next_free_segment_id_blob.commit_id
        ≡ snapshot_before.next_free_segment_id_blob.commit_id)
calculate_commit_result-IsValid_example =
    calculate_commit_result-IsValid commit snapshot_before snapshot_after nothing_deleted
      (omega arith) snapshot_before-IsValid commit_result

blob_0_before : version_of (at 1 0 0) snapshot_before ≡ some (written [] 1)
unfolding version_of find version_in_segment version_in_cluster
blob_0_before = refl

blob_0_after : version_of (at 1 0 0) snapshot_after ≡ some (written [] 1)
unfolding version_of find version_in_segment version_in_cluster
blob_0_after = refl

same_commit_id_same_content_example : (written [] 1).content ≡ (written [] 1).content
same_commit_id_same_content_example =
    same_commit_id_same_content commit snapshot_before snapshot_after nothing_deleted (at 1 0 0)
      (written [] 1) (written [] 1) (omega arith) snapshot_before-IsValid commit_result refl
      blob_0_before blob_0_after refl

-- A blob, one that is up to date, and another.
abbrev read_data : List (Option BlobData)
read_data = some (written (7 ∷ []) 2) ∷ none ∷ some (written [] 1) ∷ []

each_fits : all (fits_alone 16 24) read_data ≡ true
unfolding fits_into_message
each_fits = refl

send_chunks_lem_example :
    (messages : List Message) × (send_chunks 16 24 (length read_data) read_data ≡ some messages)
    × (sent messages ≡ read_data)
    × All (λ m. fits 16 24 m.blobs ≡ true) messages
    × (announced messages ≡ true)
send_chunks_lem_example = send_chunks_lem 16 24 read_data each_fits

-- Two updates of one blob in two messages, and one that deletes another.
abbrev later_commit : List CommitMessage
later_commit =
    record {
      database_id = 0;
      updates =
          record { location = at 1 0 5; content = bytes (1 ∷ []) }
          ∷ record { location = at 1 0 0; content = deletion }
          ∷ [];
    }
    ∷ record {
      database_id = 0;
      updates = record { location = at 1 0 5; content = bytes (9 ∷ 9 ∷ []) } ∷ [];
    }
    ∷ []

pub cluster_0-Present : (b : ℕ) → Present (at 1 0 b) snapshot_before
unfolding find
cluster_0-Present b = record {
  segment = segment_before;
  cluster = cluster_with 3 (written (7 ∷ []) 2);
  segment_there = refl;
  cluster_there = refl;
  sorted = (refl, (refl, tt));
}

later_commit_writes_blobs : All (λ m. All (IsBlobUpdate snapshot_before) m.updates) later_commit
later_commit_writes_blobs = (
  ((refl, cluster_0-Present 5), ((refl, cluster_0-Present 0), tt)),
  (((refl, cluster_0-Present 5), tt), tt),
)

last_update_counts :
    content_after_messages (at 1 0 5) later_commit (content_at (at 1 0 5) snapshot_before)
    ≡ some (9 ∷ 9 ∷ [])
unfolding eq
last_update_counts = refl

calculate_commit_result_lem_example :
    (db' : Snapshot) × (d : Deleted) × (calculate_commit_result later_commit snapshot_before
      ≡ some (db', d))
    × (content_at (at 1 0 5) db'
        ≡ content_after_messages (at 1 0 5) later_commit (content_at (at 1 0 5) snapshot_before))
calculate_commit_result_lem_example =
    calculate_commit_result_lem (at 1 0 5) later_commit snapshot_before refl
      later_commit_writes_blobs
