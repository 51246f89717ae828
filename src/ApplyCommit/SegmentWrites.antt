-- ===== src/ApplyCommit/SegmentWrites.antt =====
-- What an update of a blob makes of the contents of the blobs of its segment.
use blobs_db.Base.{
  ℕ, ◌⊎◌, Bool, is_some, ◌≡◌, sym, refl, ap, subst, true, false, ◌&&◌, Option, none, some, List,
  ◌==◌, if◌then◌else◌, inl, inr, arith, Bool-cases, Option-cases, ==_iff,
}
use blobs_db.Config.{next_free_blob_id, next_free_cluster_id, cluster_delete_id}
use blobs_db.FlatMap.{find}
use blobs_db.FlatMap.Refinement.{Sorted, put-Sorted, erase-Sorted, find-put, find-erase}
use blobs_db.Commit.{Content, deletion, bytes, content_id}
use blobs_db.Versions.{
  set_next_free_blob_id, Blob, Cluster, Segment, update_blob, set_content, delete_blob,
  copy_cluster, update_cluster, set_cluster, version_in_cluster, version_in_segment,
  version_in_clusters,
}
use blobs_db.ApplyCommit.{update_in_cluster, update_in_segment}

abbrev pub content_of : Option Blob → Option (List ℕ)
content_of none = none
content_of (some x) = some x.content

-- The content that an update gives its blob; none if it deletes the blob.
abbrev pub written : Content → Option (List ℕ)
written deletion = none
written (bytes content) = some content

write_blob_in_cluster :
    (i b : ℕ) (content : Content) (c : Cluster)
    → Sorted c.blobs
    → (i == next_free_blob_id) ≡ false
    → (b == next_free_blob_id) ≡ false
    → (d : Cluster) × Sorted d.blobs
      × (update_in_cluster b content c ≡ some d)
      × (content_of (version_in_cluster i d)
          ≡ (if i == b then written content else content_of (version_in_cluster i c)))
unfolding update_in_cluster version_in_cluster set_content delete_blob
write_blob_in_cluster i b deletion c v r s = rw s (
  delete_blob b c,
  erase-Sorted b c.blobs v,
  refl,
  rw (r, find-erase b c.blobs i v) (ground arith),
)
write_blob_in_cluster i b (bytes content) c v r s = rw s (
  set_content b content c,
  put-Sorted b (record (update_blob b c) { content = content }) c.blobs v,
  refl,
  rw (r, find-put b (record (update_blob b c) { content = content }) c.blobs i) (ground arith),
)

-- What is written as a next free blob id is an id.
abbrev pub is_proper : ℕ → Content → Bool
is_proper b content = if b == next_free_blob_id then is_some (content_id content) else true

write_in_cluster :
    (i b : ℕ) (content : Content) (c : Cluster)
    → Sorted c.blobs
    → (i == next_free_blob_id) ≡ false
    → is_proper b content ≡ true
    → (d : Cluster) × Sorted d.blobs
      × (update_in_cluster b content c ≡ some d)
      × (content_of (version_in_cluster i d)
          ≡ (if i == b then written content else content_of (version_in_cluster i c)))
unfolding update_in_cluster version_in_cluster
write_in_cluster i b content c v r s = elim (Bool-cases (b == next_free_blob_id)) [
  | inr n ↦ write_blob_in_cluster i b content c v r n
  | inl y ↦ elim (Option-cases (content_id content)) [
    | inl m ↦ absurd (ground (arith, rw (y, m) at s))
    | inr (id, e) ↦
        let other : (i == b) ≡ false = ground arith in
        rw (y, e) (set_next_free_blob_id id c, v, refl, rw (r, other) refl)
  ]
]

blobs-update_cluster :
    (c : ℕ) (s : Segment) (x : Cluster)
    → find c s.clusters ≡ some x
    → (update_cluster c s).blobs ≡ x.blobs
unfolding update_cluster copy_cluster
blobs-update_cluster c s x e = rw (e, update_cluster) (ground arith)

version_in_cluster-update_cluster :
    (i c : ℕ) (s : Segment) (x : Cluster)
    → (i == next_free_blob_id) ≡ false
    → find c s.clusters ≡ some x
    → version_in_cluster i (update_cluster c s) ≡ version_in_cluster i x
unfolding version_in_cluster
version_in_cluster-update_cluster i c s x r e = rw r (ap (find i) (blobs-update_cluster c s x e))

pub version_in_segment-eq-clusters :
    (j i : ℕ) (s : Segment)
    → (i == next_free_blob_id) ≡ false
    → version_in_segment j i s ≡ version_in_clusters i (find j s.clusters)
unfolding version_in_segment
version_in_segment-eq-clusters j i s r = elim (Option-cases (find j s.clusters)) [
  | inl m ↦ rw m (ground arith)
  | inr (x, e) ↦ rw e (ground arith)
]

pub write_in_segment :
    (j i c b : ℕ) (content : Content) (s : Segment) (x : Cluster)
    → find c s.clusters ≡ some x
    → Sorted x.blobs
    → (i == next_free_blob_id) ≡ false
    → (c == next_free_cluster_id) ≡ false
    → (b == cluster_delete_id) ≡ false
    → is_proper b content ≡ true
    → (d : Cluster) × Sorted d.blobs
      × (update_in_segment c b content s ≡ some (set_cluster c d s))
      × (content_of (version_in_segment j i (set_cluster c d s))
          ≡ (if j == c && i == b then written content else content_of (version_in_segment j i s)))
unfolding update_in_segment
write_in_segment j i c b content s x e v r p q z =
    let (d, sorted, made, found) =
      write_in_cluster i b content (update_cluster c s)
        (subst (λ xs. Sorted xs) (sym (blobs-update_cluster c s x e)) v) r z in
    rw (p, q, made)
      (
        d,
        sorted,
        refl,
        rw
            (
              version_in_segment-eq-clusters j i (set_cluster c d s) r,
              version_in_segment-eq-clusters j i s r,
              find-put c d s.clusters j,
            )
            (at_cluster d found (Bool-cases (j == c))),
      )
  where
    at_cluster :
        (d : Cluster)
        → content_of (version_in_cluster i d) ≡ (
            if i == b
            then written content
            else content_of (version_in_cluster i (update_cluster c s)))
        → (((j == c) ≡ true) ⊎ ((j == c) ≡ false))
        → content_of (version_in_clusters i (if j == c then some d else find j s.clusters)) ≡ (
            if j == c && i == b
            then written content
            else content_of (version_in_clusters i (find j s.clusters)))
    at_cluster d found (inl y) =
        let there : find j s.clusters ≡ some x =
          subst (λ k. find k s.clusters ≡ some x) (sym ((==_iff j c).0 y)) e in
        rw (y, there) (rw (version_in_cluster-update_cluster i c s x r e) at found)
    at_cluster d found (inr n) = rw n refl
