-- ===== src/ApplyCommit/Writes.antt =====
-- What an update of a blob makes of the contents of all blobs.
use blobs_db.Base.{
  ℕ, ◌⊎◌, ◌≡◌, ◌∙◌, sym, refl, ap, subst, true, false, Bool, ◌&&◌, Option, some, List, ◌==◌,
  if◌then◌else◌, inl, inr, arith, Bool-cases, Option-cases, ==_iff,
}
use blobs_db.Config.{
  next_free_blob_id, next_free_cluster_id, next_free_segment_id, cluster_delete_id,
  segment_delete_id,
}
use blobs_db.BlobLocation.{BlobLocation, eq}
use blobs_db.FlatMap.{find}
use blobs_db.FlatMap.Refinement.{Sorted, find-put}
use blobs_db.Commit.{Update}
use blobs_db.Versions.{
  Cluster, Segment, Snapshot, set_cluster, copy_segment, update_segment, set_segment,
  version_in_segment, version_of, version_in_clusters, version_in_segments,
}
use blobs_db.ApplyCommit.{apply_update}
use blobs_db.ApplyCommit.SegmentWrites.{
  content_of, is_proper, written, version_in_segment-eq-clusters, write_in_segment,
}

abbrev pub content_at : BlobLocation → Snapshot → Option (List ℕ)
content_at l db = content_of (version_of l db)

-- The update writes or deletes a blob, or it sets the next free blob id of a cluster, to an id.
abbrev pub is_blob_update : Update → Bool
is_blob_update u =
    if u.location.segment == next_free_segment_id
    then false
    else if u.location.cluster == segment_delete_id
    then false
    else if u.location.cluster == next_free_cluster_id
    then false
    else if u.location.blob == cluster_delete_id
    then false
    else is_proper u.location.blob u.content

clusters-update_segment :
    (i : ℕ) (db : Snapshot) (s : Segment)
    → find i db.segments ≡ some s
    → (update_segment i db).clusters ≡ s.clusters
unfolding update_segment copy_segment
clusters-update_segment i db s e = rw (e, update_segment) (ground arith)

version_of-eq-segments :
    (l : BlobLocation) (db : Snapshot)
    → (l.blob == next_free_blob_id) ≡ false
    → version_of l db ≡ version_in_segments l.cluster l.blob (find l.segment db.segments)
unfolding version_of
version_of-eq-segments l db r = elim (Option-cases (find l.segment db.segments)) [
  | inl m ↦ rw m (ground arith)
  | inr (s, e) ↦ rw e (ground arith)
]

version_in_segment-update_segment :
    (j i k : ℕ) (db : Snapshot) (s : Segment)
    → (i == next_free_blob_id) ≡ false
    → find k db.segments ≡ some s
    → version_in_segment j i (update_segment k db) ≡ version_in_segment j i s
version_in_segment-update_segment j i k db s r e =
    version_in_segment-eq-clusters j i (update_segment k db) r
    ∙ ap (λ xs. version_in_clusters i (find j xs)) (clusters-update_segment k db s e)
    ∙ sym (version_in_segment-eq-clusters j i s r)

at_segment :
    (k l : BlobLocation) (o : Option (List ℕ)) (db : Snapshot) (s t : Segment)
    → (k.blob == next_free_blob_id) ≡ false
    → find l.segment db.segments ≡ some s
    → content_of (version_in_segment k.cluster k.blob t) ≡ (
        if k.cluster == l.cluster && k.blob == l.blob
        then o
        else content_of (version_in_segment k.cluster k.blob (update_segment l.segment db)))
    → content_at k (set_segment l.segment t db) ≡ (if eq k l then o else content_at k db)
unfolding eq
at_segment k l o db s t r e found =
    rw
      (
        version_of-eq-segments k (set_segment l.segment t db) r,
        version_of-eq-segments k db r,
        find-put l.segment t db.segments k.segment,
      )
      (by_segment (Bool-cases (k.segment == l.segment)))
  where
    by_segment :
        ((k.segment == l.segment) ≡ true) ⊎ ((k.segment == l.segment) ≡ false)
        → content_of (
            version_in_segments k.cluster k.blob
              (if k.segment == l.segment then some t else find k.segment db.segments))
          ≡ (if k.segment == l.segment && (k.cluster == l.cluster && k.blob == l.blob)
              then o
              else content_of (version_in_segments k.cluster k.blob (find k.segment db.segments)))
    by_segment (inl y) =
        let there : find k.segment db.segments ≡ some s =
          subst (λ i. find i db.segments ≡ some s) (sym ((==_iff k.segment l.segment).0 y)) e in
        rw (y, there)
          (rw (version_in_segment-update_segment k.cluster k.blob l.segment db s r e) at found)
    by_segment (inr n) = rw n refl

-- The cluster of the location is there, with its blobs in order.
pub record Present (l : BlobLocation) (db : Snapshot) : Type 0 where
  pub segment : Segment
  pub cluster : Cluster
  pub segment_there : find l.segment db.segments ≡ some segment
  pub cluster_there : find l.cluster segment.clusters ≡ some cluster
  pub sorted : Sorted cluster.blobs

abbrev with_cluster : BlobLocation → Cluster → Snapshot → Snapshot
with_cluster l d db =
    set_segment l.segment (set_cluster l.cluster d (update_segment l.segment db)) db

with_cluster-Present :
    (l m : BlobLocation) (d : Cluster) (db : Snapshot)
    → Present l db
    → Sorted d.blobs
    → Present m db
    → Present m (with_cluster l d db)
with_cluster-Present l m d db p v q = elim (Bool-cases (m.segment == l.segment)) [
  | inr n ↦ record {
    segment = q.segment;
    cluster = q.cluster;
    segment_there =
        rw
          (
            find-put l.segment (set_cluster l.cluster d (update_segment l.segment db)) db.segments
                m.segment,
            n,
          )
          q.segment_there;
    cluster_there = q.cluster_there;
    sorted = q.sorted;
  }
  | inl y ↦ elim (Bool-cases (m.cluster == l.cluster)) [
    | inl z ↦ record {
      segment = set_cluster l.cluster d (update_segment l.segment db);
      cluster = d;
      segment_there =
          rw
            (
              find-put l.segment (set_cluster l.cluster d (update_segment l.segment db)) db.segments
                  m.segment,
              y,
            )
            refl;
      cluster_there =
          rw (find-put l.cluster d (update_segment l.segment db).clusters m.cluster, z) refl;
      sorted = v;
    }
    | inr n ↦ record {
      segment = set_cluster l.cluster d (update_segment l.segment db);
      cluster = q.cluster;
      segment_there =
          rw
            (
              find-put l.segment (set_cluster l.cluster d (update_segment l.segment db)) db.segments
                  m.segment,
              y,
            )
            refl;
      cluster_there =
          rw
            (
              find-put l.cluster d (update_segment l.segment db).clusters m.cluster,
              n,
              clusters-update_segment l.segment db q.segment (
                  subst (λ i. find i db.segments ≡ some q.segment)
                    ((==_iff m.segment l.segment).0 y) q.segment_there),
            )
            q.cluster_there;
      sorted = q.sorted;
    }
  ]
]

pub write_at :
    (k : BlobLocation) (u : Update) (db : Snapshot)
    → Present u.location db
    → (k.blob == next_free_blob_id) ≡ false
    → is_blob_update u ≡ true
    → (db' : Snapshot) × (apply_update u db ≡ some db')
      × ((m : BlobLocation) → Present m db → Present m db')
      × (content_at k db' ≡ (if eq k u.location then written u.content else content_at k db))
unfolding apply_update
write_at k u db p r is =
    let l = u.location in
    let a : (l.segment == next_free_segment_id) ≡ false = ground arith in
    let b : (l.cluster == segment_delete_id) ≡ false = ground arith in
    let c : (l.cluster == next_free_cluster_id) ≡ false = ground arith in
    let e : (l.blob == cluster_delete_id) ≡ false = ground arith in
    let q : is_proper l.blob u.content ≡ true = ground arith in
    let there : find l.cluster (update_segment l.segment db).clusters ≡ some p.cluster =
      rw (clusters-update_segment l.segment db p.segment p.segment_there) p.cluster_there in
    let (d, sorted, made, found) =
      write_in_segment k.cluster k.blob l.cluster l.blob u.content (update_segment l.segment db)
        p.cluster there p.sorted r c e q in
    rw (a, b, made)
      (
        with_cluster l d db,
        refl,
        λ m. with_cluster-Present l m d db p sorted,
        at_segment k l (written u.content) db p.segment
            (set_cluster l.cluster d (update_segment l.segment db)) r p.segment_there found,
      )
