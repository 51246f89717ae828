-- ===== src/ApplyCommit/Steps.antt =====
-- The updates of a commit, one after the other, keep the new snapshot a follower of the old one.
use blobs_db.Base.{
  ℕ, suc, ◌≤◌, ◌≡◌, refl, sym, subst, true, false, Option, some, [], ◌∷◌, ◌==◌, if◌then◌else◌, inl,
  inr, arith, Bool-cases, Option-cases,
}
use blobs_db.Config.{
  next_free_blob_id, next_free_cluster_id, next_free_segment_id, cluster_delete_id,
  segment_delete_id,
}
use blobs_db.FlatMap.{find}
use blobs_db.FlatMap.Refinement.{Sorted, put-Sorted, erase-Sorted, find-put-cases, find-erase}
use blobs_db.Commit.{Content, deletion, bytes, content_id, Update}
use blobs_db.Versions.{
  Cluster, Segment, Snapshot, update_cluster, set_cluster, new_segment, copy_segment,
  update_segment, set_segment, delete_segment, set_next_free_segment_id,
}
use blobs_db.ApplyCommit.{update_in_cluster, update_in_segment, apply_update}
use blobs_db.ApplyCommit.Follows.{
  IsValidSegment, cluster_in, MadeCluster, MadeSegment, FollowsSegment, set_content-Made,
  delete_blob-Made, set_next_free_blob_id-Made, update_cluster-Made, set_cluster-Made,
  delete_cluster-Made, set_next_free_cluster_id-Made,
}

pub record IsValid (db : Snapshot) : Type 0 where
  pub id_known : db.next_free_segment_id_blob.commit_id ≤ db.commit_id
  pub sorted : Sorted db.segments
  pub each : (s : ℕ) (x : Segment) → find s db.segments ≡ some x → IsValidSegment db.commit_id x

module _ (old : Snapshot) where
  pub record Follows (db : Snapshot) : Type 0 where
    pub made : db.commit_id ≡ suc old.commit_id
    pub id_kept : db.next_free_segment_id_blob.commit_id ≡ old.next_free_segment_id_blob.commit_id
    pub sorted : Sorted db.segments
    pub each :
        (s : ℕ) (x : Segment)
        → find s db.segments ≡ some x
        → FollowsSegment old.commit_id (find s old.segments) x

  -- Segments, for a commit.
  abbrev n : ℕ
  n = old.commit_id

  new_segment-Made : (o : Option Segment) → MadeSegment n o (new_segment (suc n))
  unfolding new_segment find
  new_segment-Made o =
      let empty : Segment = record {
        commit_id = suc n;
        clusters = [];
        next_free_cluster = 0;
        next_free_cluster_id_blob = record { commit_id = suc n; content = 0 ∷ 0 ∷ 0 ∷ 0 ∷ [] };
      } in
      let start : MadeSegment n o empty = record {
        made = refl;
        id_made = refl;
        sorted = tt;
        each = λ c x e. absurd (ground arith);
      } in
      set_next_free_cluster_id-Made n o 1 (set_cluster 0 (update_cluster 0 empty) empty) (
        set_cluster-Made n o 0 (update_cluster 0 empty) empty start
          (update_cluster-Made n o 0 empty start))

  copy_segment-Made :
      (s : Segment) → IsValidSegment n s → MadeSegment n (some s) (copy_segment (suc n) s)
  unfolding copy_segment
  copy_segment-Made s v = record {
    made = refl;
    id_made = refl;
    sorted = v.sorted;
    each = λ c x e. inr (e, v.each c x e);
  }

  update_segment-Made :
      (s : ℕ) (db : Snapshot)
      → Follows db
      → MadeSegment n (find s old.segments) (update_segment s db)
  unfolding update_segment
  update_segment-Made s db f = elim (Option-cases (find s db.segments)) [
    | inl k ↦ rw (k, f.made, update_segment) (new_segment-Made (find s old.segments))
    | inr (x, e) ↦ rw (e, f.made, update_segment) (either x (f.each s x e))
  ]
    where
      either :
          (x : Segment)
          → FollowsSegment n (find s old.segments) x
          → MadeSegment n
              (find s old.segments)
              (if x.commit_id == suc n then x else copy_segment (suc n) x)
      either x (inl made) =
          let is_made : (x.commit_id == suc n) ≡ true = ground (arith, made.made) in rw is_made made
      either x (inr (same, v)) =
          let is_old : (x.commit_id == suc n) ≡ false = ground (arith, v.known) in
          rw is_old (
            subst (λ o. MadeSegment n o (copy_segment (suc n) x)) (sym same)
              (copy_segment-Made x v))

  set_segment-Follows :
      (s : ℕ) (segment : Segment) (db : Snapshot)
      → Follows db
      → MadeSegment n (find s old.segments) segment
      → Follows (set_segment s segment db)
  set_segment-Follows s segment db f m = record {
    made = f.made;
    id_kept = f.id_kept;
    sorted = put-Sorted s segment db.segments f.sorted;
    each = λ i x e. elim (find-put-cases s segment db.segments i x e) [
      | inl (here, same) ↦ inl (at_id i x here same)
      | inr kept ↦ f.each i x kept
    ];
  }
    where
      at_id : (i : ℕ) (x : Segment) → s ≡ i → segment ≡ x → MadeSegment n (find i old.segments) x
      at_id i x here same =
          subst (λ j. MadeSegment n (find j old.segments) x) here
            (subst (MadeSegment n (find s old.segments)) same m)

  delete_segment-Follows : (s : ℕ) (db : Snapshot) → Follows db → Follows (delete_segment s db)
  unfolding delete_segment
  delete_segment-Follows s db f = record {
    made = f.made;
    id_kept = f.id_kept;
    sorted = erase-Sorted s db.segments f.sorted;
    each = λ i x e. f.each i x (ground (arith, e, find-erase s db.segments i f.sorted));
  }

  update_in_cluster-Made :
      (o : Option Cluster) (b : ℕ) (content : Content) (c c' : Cluster)
      → MadeCluster n o c
      → update_in_cluster b content c ≡ some c'
      → MadeCluster n o c'
  unfolding update_in_cluster
  update_in_cluster-Made o b content c c' m e = elim (Bool-cases (b == next_free_blob_id)) [
    | inl y ↦ elim (Option-cases (content_id content)) [
      | inl k ↦ absurd (ground arith)
      | inr (id, p) ↦ subst (MadeCluster n o) (ground arith) (set_next_free_blob_id-Made n o id c m)
    ]
    | inr k ↦ other k content refl
  ]
    where
      other : (b == next_free_blob_id) ≡ false → (d : Content) → content ≡ d → MadeCluster n o c'
      other k deletion p = subst (MadeCluster n o) (ground arith) (delete_blob-Made n o b c m)
      other k (bytes written) p =
          subst (MadeCluster n o) (ground arith) (set_content-Made n o b written c m)

  update_in_segment-Made :
      (o : Option Segment) (c b : ℕ) (content : Content) (s s' : Segment)
      → MadeSegment n o s
      → update_in_segment c b content s ≡ some s'
      → MadeSegment n o s'
  unfolding update_in_segment
  update_in_segment-Made o c b content s s' m e = elim (Bool-cases (c == next_free_cluster_id)) [
    | inl y ↦ elim (Option-cases (content_id content)) [
      | inl k ↦ absurd (ground arith)
      | inr (id, p) ↦
          subst (MadeSegment n o) (ground arith) (set_next_free_cluster_id-Made n o id s m)
    ]
    | inr k ↦ elim (Bool-cases (b == cluster_delete_id)) [
      | inl y ↦ subst (MadeSegment n o) (ground arith) (delete_cluster-Made n o c s m)
      | inr j ↦ elim (Option-cases (update_in_cluster b content (update_cluster c s))) [
        | inl q ↦ absurd (ground arith)
        | inr (cluster, p) ↦ subst (MadeSegment n o) (ground arith) (
            set_cluster-Made n o c cluster s m (
              update_in_cluster-Made (cluster_in c o) b content (update_cluster c s) cluster
                (update_cluster-Made n o c s m) p))
      ]
    ]
  ]

  pub apply_update-Follows :
      (u : Update) (db db' : Snapshot) → Follows db → apply_update u db ≡ some db' → Follows db'
  unfolding apply_update
  apply_update-Follows u db db' f e =
      elim (Bool-cases (u.location.segment == next_free_segment_id)) [
        | inl y ↦ elim (Option-cases (content_id u.content)) [
          | inl k ↦ absurd (ground arith)
          | inr (id, p) ↦
              let last : set_next_free_segment_id id db ≡ db' = ground arith in
              subst Follows last
                record { made = f.made; id_kept = f.id_kept; sorted = f.sorted; each = f.each }
        ]
        | inr k ↦ elim (Bool-cases (u.location.cluster == segment_delete_id)) [
          | inl y ↦ subst Follows (ground arith) (delete_segment-Follows u.location.segment db f)
          | inr j ↦
              elim (Option-cases (
                update_in_segment u.location.cluster u.location.blob u.content
                  (update_segment u.location.segment db))) [
                    | inl q ↦ absurd (ground arith)
                    | inr (segment, p) ↦ subst Follows (ground arith) (
                        set_segment-Follows u.location.segment segment db f (
                          update_in_segment-Made (find u.location.segment old.segments)
                            u.location.cluster u.location.blob u.content
                            (update_segment u.location.segment db) segment
                            (update_segment-Made u.location.segment db f) p))
                  ]
        ]
      ]
