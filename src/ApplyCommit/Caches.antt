-- ===== src/ApplyCommit/Caches.antt =====
-- A blob that keeps its commit id keeps its content.
use blobs_db.Base.{
  ℕ, suc, ◌+◌, ◌<◌, ◌^◌, ◌≤◌, ◌≡◌, ◌⊎◌, ◌∙◌, sym, ap, subst, false, ◌&&◌, Option, none, some, List,
  ◌==◌, inl, inr, arith, Bool-cases, Option-cases, some_eq,
}
use blobs_db.Config.{next_free_blob_id, next_free_cluster_id}
use blobs_db.BlobLocation.{BlobLocation}
use blobs_db.FlatMap.{find}
use blobs_db.Commit.{CommitMessage}
use blobs_db.Versions.{
  Blob, Cluster, Segment, Snapshot, version_in_cluster, version_in_segment, version_of,
  is_segment_id_blob, version_in_clusters, version_in_segments,
}
use blobs_db.ApplyCommit.{Deleted, calculate_commit_result}
use blobs_db.ApplyCommit.Follows.{
  IsValidCluster, IsValidSegment, cluster_in, blob_in, FollowsCluster, FollowsSegment,
}
use blobs_db.ApplyCommit.Steps.{IsValid, Follows}
use blobs_db.ApplyCommit.Coherence.{calculate_commit_result-Follows}

known_version_in_cluster :
    (n b : ℕ) (c : Cluster) (x : Blob)
    → IsValidCluster n c
    → version_in_cluster b c ≡ some x
    → x.commit_id ≤ n
unfolding version_in_cluster
known_version_in_cluster n b c x v e = elim (Bool-cases (b == next_free_blob_id)) [
  | inl y ↦ subst (λ (z : Blob). z.commit_id ≤ n) (some_eq (rw y at e)) v.id_known
  | inr k ↦ v.each b x (rw k at e)
]

known_version_in_segment :
    (n c b : ℕ) (s : Segment) (x : Blob)
    → IsValidSegment n s
    → version_in_segment c b s ≡ some x
    → x.commit_id ≤ n
unfolding version_in_segment
known_version_in_segment n c b s x v e =
    elim (Bool-cases (c == next_free_cluster_id && b == next_free_blob_id)) [
      | inl y ↦ subst (λ (z : Blob). z.commit_id ≤ n) (some_eq (rw y at e)) v.id_known
      | inr k ↦ elim (Option-cases (find c s.clusters)) [
        | inl m ↦ absurd (ground arith)
        | inr (cl, p) ↦ known_version_in_cluster n b cl x (v.each c cl p) (ground arith)
      ]
    ]

known_version :
    (db : Snapshot) (l : BlobLocation) (x : Blob)
    → IsValid db
    → version_of l db ≡ some x
    → x.commit_id ≤ db.commit_id
unfolding version_of
known_version db l x v e = elim (Bool-cases (is_segment_id_blob l)) [
  | inl y ↦ subst (λ (z : Blob). z.commit_id ≤ db.commit_id) (some_eq (rw y at e)) v.id_known
  | inr k ↦ elim (Option-cases (find l.segment db.segments)) [
    | inl m ↦ absurd (ground arith)
    | inr (s, p) ↦
        known_version_in_segment db.commit_id l.cluster l.blob s x (v.each l.segment s p)
          (ground arith)
  ]
]

-- A version in the new object is made for the commit, or that of the old object.
module _ (n : ℕ) where
  kept_in_cluster :
      (b : ℕ) (o : Option Cluster) (c : Cluster) (x : Blob)
      → FollowsCluster n o c
      → version_in_cluster b c ≡ some x
      → (x.commit_id ≡ suc n) ⊎ (version_in_clusters b o ≡ some x)
  unfolding version_in_cluster
  kept_in_cluster b o c x (inr (same, v)) e = inr (ap (version_in_clusters b) same ∙ e)
  kept_in_cluster b o c x (inl m) e = elim (Bool-cases (b == next_free_blob_id)) [
    | inl y ↦ inl (sym (ap (λ (z : Blob). z.commit_id) (some_eq (rw y at e))) ∙ m.id_made)
    | inr k ↦ elim (m.each b x (rw k at e)) [
      | inl made ↦ inl made
      | inr (same, small) ↦ inr (elsewhere k o same)
    ]
  ]
    where
      elsewhere :
          (b == next_free_blob_id) ≡ false
          → (p : Option Cluster) → blob_in b p ≡ some x
          → version_in_clusters b p ≡ some x
      elsewhere k none h = absurd (ground arith)
      elsewhere k (some d) h = rw k h

  kept_in_segment :
      (c b : ℕ) (o : Option Segment) (s : Segment) (x : Blob)
      → FollowsSegment n o s
      → version_in_segment c b s ≡ some x
      → (x.commit_id ≡ suc n) ⊎ (version_in_segments c b o ≡ some x)
  unfolding version_in_segment
  kept_in_segment c b o s x (inr (same, v)) e = inr (ap (version_in_segments c b) same ∙ e)
  kept_in_segment c b o s x (inl m) e =
      elim (Bool-cases (c == next_free_cluster_id && b == next_free_blob_id)) [
        | inl y ↦ inl (sym (ap (λ (z : Blob). z.commit_id) (some_eq (rw y at e))) ∙ m.id_made)
        | inr k ↦ elim (Option-cases (find c s.clusters)) [
          | inl q ↦ absurd (ground arith)
          | inr (cl, p) ↦
              elim (kept_in_cluster b (cluster_in c o) cl x (m.each c cl p) (ground arith)) [
                | inl made ↦ inl made
                | inr same ↦ inr (elsewhere k o same)
              ]
        ]
      ]
    where
      elsewhere :
          (c == next_free_cluster_id && b == next_free_blob_id) ≡ false
          → (p : Option Segment) → version_in_clusters b (cluster_in c p) ≡ some x
          → version_in_segments c b p ≡ some x
      elsewhere k none h = absurd (ground arith)
      elsewhere k (some t) h = elim (Option-cases (find c t.clusters)) [
        | inl q ↦ absurd (ground arith)
        | inr (cl, p) ↦ ground arith
      ]

version_kept :
    (old db : Snapshot) (l : BlobLocation) (x : Blob)
    → Follows old db
    → is_segment_id_blob l ≡ false
    → version_of l db ≡ some x
    → (x.commit_id ≡ suc old.commit_id) ⊎ (version_of l old ≡ some x)
unfolding version_of
version_kept old db l x f k e = elim (Option-cases (find l.segment db.segments)) [
  | inl q ↦ absurd (ground arith)
  | inr (s, p) ↦
      elim (kept_in_segment old.commit_id l.cluster l.blob (find l.segment old.segments) s x
        (f.each l.segment s p) (ground arith)) [
          | inl made ↦ inl made
          | inr same ↦ elim (Option-cases (find l.segment old.segments)) [
            | inl q ↦ absurd (ground arith)
            | inr (t, r) ↦ inr (ground arith)
          ]
        ]
]

-- As long as the commit ids do not use up their 64 bits: for each location but that of the next free
-- segment id, a commit to a valid snapshot that leaves the commit id of the blob leaves its content,
-- so that a client that has the blob in its cache with this commit id has its content.
pub same_commit_id_same_content :
    (ms : List CommitMessage) (db db' : Snapshot) (d : Deleted) (l : BlobLocation)
    (cached now : Blob)
    → db.commit_id + 1 < 2 ^ 64
    → IsValid db
    → calculate_commit_result ms db ≡ some (db', d)
    → is_segment_id_blob l ≡ false
    → version_of l db ≡ some cached
    → version_of l db' ≡ some now
    → now.commit_id ≡ cached.commit_id
    → now.content ≡ cached.content
same_commit_id_same_content ms db db' d l cached now below v e k old new same =
    elim (version_kept db db' l now (calculate_commit_result-Follows db ms db' d below v e) k new) [
      | inl made ↦ absurd (omega (arith, known_version db l cached v old))
      | inr kept ↦ ap (λ (z : Blob). z.content) (some_eq (sym kept ∙ old))
    ]
