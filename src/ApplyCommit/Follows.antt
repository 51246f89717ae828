-- ===== src/ApplyCommit/Follows.antt =====
-- What a commit leaves of the old snapshot: every object of the new one is either made for the
-- commit or the old one.
use blobs_db.Base.{
  ℕ, suc, ◌≤◌, ◌≡◌, ◌⊎◌, refl, ◌∙◌, sym, ap, subst, true, false, Option, none, some, List, ◌==◌,
  if◌then◌else◌, inl, inr, arith, Option-cases,
}
use blobs_db.FlatMap.{find, put}
use blobs_db.FlatMap.Refinement.{Sorted, put-Sorted, erase-Sorted, find-put-cases, find-erase}
use blobs_db.Versions.{
  Blob, Cluster, Segment, update_blob, set_content, delete_blob, set_next_free_blob_id, new_cluster,
  copy_cluster, update_cluster, set_cluster, delete_cluster, set_next_free_cluster_id,
}

-- No commit id is above `n`, and the maps are in order.
pub record IsValidCluster (n : ℕ) (c : Cluster) : Type 0 where
  pub known : c.commit_id ≤ n
  pub id_known : c.next_free_blob_id_blob.commit_id ≤ n
  pub sorted : Sorted c.blobs
  pub each : (b : ℕ) (x : Blob) → find b c.blobs ≡ some x → x.commit_id ≤ n

pub record IsValidSegment (n : ℕ) (s : Segment) : Type 0 where
  pub known : s.commit_id ≤ n
  pub id_known : s.next_free_cluster_id_blob.commit_id ≤ n
  pub sorted : Sorted s.clusters
  pub each : (c : ℕ) (x : Cluster) → find c s.clusters ≡ some x → IsValidCluster n x

abbrev pub blob_in : ℕ → Option Cluster → Option Blob
blob_in b none = none
blob_in b (some c) = find b c.blobs

abbrev pub cluster_in : ℕ → Option Segment → Option Cluster
cluster_in c none = none
cluster_in c (some s) = find c s.clusters

-- After the commit `n + 1`: the object is made for it, or is the old one.
module _ (n : ℕ) where
  pub record MadeCluster (old : Option Cluster) (c : Cluster) : Type 0 where
    pub made : c.commit_id ≡ suc n
    pub id_made : c.next_free_blob_id_blob.commit_id ≡ suc n
    pub sorted : Sorted c.blobs
    pub each :
        (b : ℕ) (x : Blob)
        → find b c.blobs ≡ some x
        → (x.commit_id ≡ suc n) ⊎ ((blob_in b old ≡ some x) × (x.commit_id ≤ n))

  abbrev pub FollowsCluster : Option Cluster → Cluster → Type 0
  FollowsCluster old c = MadeCluster old c ⊎ ((old ≡ some c) × IsValidCluster n c)

  pub record MadeSegment (old : Option Segment) (s : Segment) : Type 0 where
    pub made : s.commit_id ≡ suc n
    pub id_made : s.next_free_cluster_id_blob.commit_id ≡ suc n
    pub sorted : Sorted s.clusters
    pub each :
        (c : ℕ) (x : Cluster) → find c s.clusters ≡ some x → FollowsCluster (cluster_in c old) x

  abbrev pub FollowsSegment : Option Segment → Segment → Type 0
  FollowsSegment old s = MadeSegment old s ⊎ ((old ≡ some s) × IsValidSegment n s)

  -- Clusters.
  commit_id-update_blob : (b : ℕ) (c : Cluster) → (update_blob b c).commit_id ≡ c.commit_id
  unfolding update_blob
  commit_id-update_blob b c = elim (Option-cases (find b c.blobs)) [
    | inl m ↦ ground (arith, m)
    | inr (x, e) ↦ ground (arith, e)
  ]

  pub set_content-Made :
      (old : Option Cluster) (b : ℕ) (written : List ℕ) (c : Cluster)
      → MadeCluster old c
      → MadeCluster old (set_content b written c)
  unfolding set_content
  set_content-Made old b written c m = record {
    made = m.made;
    id_made = m.id_made;
    sorted = put-Sorted b (record (update_blob b c) { content = written }) c.blobs m.sorted;
    each = λ i x e.
        elim (find-put-cases b (record (update_blob b c) { content = written }) c.blobs i x e) [
          | inl (here, same) ↦
              inl (sym (ap (λ (y : Blob). y.commit_id) same) ∙ commit_id-update_blob b c ∙ m.made)
          | inr kept ↦ m.each i x kept
        ];
  }

  pub delete_blob-Made :
      (old : Option Cluster) (b : ℕ) (c : Cluster)
      → MadeCluster old c
      → MadeCluster old (delete_blob b c)
  unfolding delete_blob
  delete_blob-Made old b c m = record {
    made = m.made;
    id_made = m.id_made;
    sorted = erase-Sorted b c.blobs m.sorted;
    each = λ i x e. m.each i x (ground (arith, e, find-erase b c.blobs i m.sorted));
  }

  pub set_next_free_blob_id-Made :
      (old : Option Cluster) (id : ℕ) (c : Cluster)
      → MadeCluster old c
      → MadeCluster old (set_next_free_blob_id id c)
  set_next_free_blob_id-Made old id c m = record {
    made = m.made;
    id_made = m.id_made;
    sorted = m.sorted;
    each = m.each;
  }

  new_cluster-Made : (old : Option Cluster) → MadeCluster old (new_cluster (suc n))
  unfolding new_cluster update_blob find put
  new_cluster-Made old = record {
    made = refl;
    id_made = refl;
    sorted = (refl, tt);
    each = λ b x e. inl (ground (arith, e));
  }

  copy_cluster-Made :
      (c : Cluster) → IsValidCluster n c → MadeCluster (some c) (copy_cluster (suc n) c)
  unfolding copy_cluster
  copy_cluster-Made c v = record {
    made = refl;
    id_made = refl;
    sorted = v.sorted;
    each = λ b x e. inr (e, v.each b x e);
  }

  pub update_cluster-Made :
      (old : Option Segment) (c : ℕ) (s : Segment)
      → MadeSegment old s
      → MadeCluster (cluster_in c old) (update_cluster c s)
  unfolding update_cluster
  update_cluster-Made old c s m = elim (Option-cases (find c s.clusters)) [
    | inl k ↦ rw (k, m.made, update_cluster) (new_cluster-Made (cluster_in c old))
    | inr (x, e) ↦ rw (e, m.made, update_cluster) (either x (m.each c x e))
  ]
    where
      either :
          (x : Cluster)
          → FollowsCluster (cluster_in c old) x
          → MadeCluster
              (cluster_in c old)
              (if x.commit_id == suc n then x else copy_cluster (suc n) x)
      either x (inl made) =
          let is_made : (x.commit_id == suc n) ≡ true = ground (arith, made.made) in rw is_made made
      either x (inr (same, v)) =
          let is_old : (x.commit_id == suc n) ≡ false = ground (arith, v.known) in
          rw is_old
            (subst (λ o. MadeCluster o (copy_cluster (suc n) x)) (sym same) (copy_cluster-Made x v))

  pub set_cluster-Made :
      (old : Option Segment) (c : ℕ) (cluster : Cluster) (s : Segment)
      → MadeSegment old s
      → MadeCluster (cluster_in c old) cluster
      → MadeSegment old (set_cluster c cluster s)
  set_cluster-Made old c cluster s m k = record {
    made = m.made;
    id_made = m.id_made;
    sorted = put-Sorted c cluster s.clusters m.sorted;
    each = λ i x e. elim (find-put-cases c cluster s.clusters i x e) [
      | inl (here, same) ↦ inl (at_id i x here same)
      | inr kept ↦ m.each i x kept
    ];
  }
    where
      at_id : (i : ℕ) (x : Cluster) → c ≡ i → cluster ≡ x → MadeCluster (cluster_in i old) x
      at_id i x here same =
          subst (λ j. MadeCluster (cluster_in j old) x) here
            (subst (MadeCluster (cluster_in c old)) same k)

  pub delete_cluster-Made :
      (old : Option Segment) (c : ℕ) (s : Segment)
      → MadeSegment old s
      → MadeSegment old (delete_cluster c s)
  unfolding delete_cluster
  delete_cluster-Made old c s m = record {
    made = m.made;
    id_made = m.id_made;
    sorted = erase-Sorted c s.clusters m.sorted;
    each = λ i x e. m.each i x (ground (arith, e, find-erase c s.clusters i m.sorted));
  }

  pub set_next_free_cluster_id-Made :
      (old : Option Segment) (id : ℕ) (s : Segment)
      → MadeSegment old s
      → MadeSegment old (set_next_free_cluster_id id s)
  set_next_free_cluster_id-Made old id s m = record {
    made = m.made;
    id_made = m.id_made;
    sorted = m.sorted;
    each = m.each;
  }
