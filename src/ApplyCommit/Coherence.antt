-- ===== src/ApplyCommit/Coherence.antt =====
-- Whole commits: the commit ids tell the caches of the clients what has changed.
use blobs_db.Base.{
  ℕ, suc, ◌+◌, ◌<◌, ◌^◌, ◌≡◌, refl, sym, subst, Option, some, List, [], ◌∷◌, inl, inr, arith,
  Option-cases,
}
use blobs_db.FlatMap.{find}
use blobs_db.Commit.{Update, CommitMessage}
use blobs_db.Versions.{Cluster, Segment, Snapshot, next_snapshot}
use blobs_db.ApplyCommit.{
  Deleted, apply_update, note_deleted, apply_updates, apply_commit_messages,
  calculate_commit_result,
}
use blobs_db.ApplyCommit.Follows.{
  IsValidCluster, IsValidSegment, cluster_in, FollowsCluster, FollowsSegment,
}
use blobs_db.ApplyCommit.Steps.{IsValid, Follows, apply_update-Follows}

module _ (old : Snapshot) where
  next_snapshot-Follows : old.commit_id + 1 < 2 ^ 64 → IsValid old → Follows old (next_snapshot old)
  unfolding next_snapshot
  next_snapshot-Follows below v = record {
    made = omega arith;
    id_kept = refl;
    sorted = v.sorted;
    each = λ s x e. inr (e, v.each s x e);
  }

  apply_updates-Follows :
      (us : List Update) (db db' : Snapshot) (d d' : Deleted)
      → Follows old db
      → apply_updates us (db, d) ≡ some (db', d')
      → Follows old db'
  unfolding apply_updates
  apply_updates-Follows [] db db' d d' f e = subst (Follows old) (ground arith) f
  apply_updates-Follows (u ∷ us) db db' d d' f e = elim (Option-cases (apply_update u db)) [
    | inl n ↦ absurd (ground arith)
    | inr (db₁, p) ↦
        apply_updates-Follows us db₁ db' (note_deleted u d) d'
          (apply_update-Follows old u db db₁ f p) (ground arith)
  ]

  apply_commit_messages-Follows :
      (ms : List CommitMessage) (db db' : Snapshot) (d d' : Deleted)
      → Follows old db
      → apply_commit_messages ms (db, d) ≡ some (db', d')
      → Follows old db'
  unfolding apply_commit_messages
  apply_commit_messages-Follows [] db db' d d' f e = subst (Follows old) (ground arith) f
  apply_commit_messages-Follows (m ∷ ms) db db' d d' f e =
      elim (Option-cases (apply_updates m.updates (db, d))) [
        | inl n ↦ absurd (ground arith)
        | inr ((db₁, d₁), p) ↦
            apply_commit_messages-Follows ms db₁ db' d₁ d'
              (apply_updates-Follows m.updates db db₁ d d₁ f p) (ground arith)
      ]

  pub calculate_commit_result-Follows :
      (ms : List CommitMessage) (db' : Snapshot) (d : Deleted)
      → old.commit_id + 1 < 2 ^ 64
      → IsValid old
      → calculate_commit_result ms old ≡ some (db', d)
      → Follows old db'
  unfolding calculate_commit_result
  calculate_commit_result-Follows ms db' d below v e =
      apply_commit_messages-Follows ms (next_snapshot old) db' _ d (next_snapshot-Follows below v) e

-- What follows a valid object is valid for the next commit.
valid_cluster :
    (n : ℕ) (o : Option Cluster) (c : Cluster) → FollowsCluster n o c → IsValidCluster (suc n) c
valid_cluster n o c (inl m) = record {
  known = omega (arith, m.made);
  id_known = omega (arith, m.id_made);
  sorted = m.sorted;
  each = λ b x e. elim (m.each b x e) [ inl y ↦ omega (arith, y) | inr (p, k) ↦ omega arith ];
}
valid_cluster n o c (inr (same, v)) = record {
  known = omega (arith, v.known);
  id_known = omega (arith, v.id_known);
  sorted = v.sorted;
  each = λ b x e. omega (arith, v.each b x e);
}

valid_segment :
    (n : ℕ) (o : Option Segment) (s : Segment) → FollowsSegment n o s → IsValidSegment (suc n) s
valid_segment n o s (inl m) = record {
  known = omega (arith, m.made);
  id_known = omega (arith, m.id_made);
  sorted = m.sorted;
  each = λ c x e. valid_cluster n (cluster_in c o) x (m.each c x e);
}
valid_segment n o s (inr (same, v)) = record {
  known = omega (arith, v.known);
  id_known = omega (arith, v.id_known);
  sorted = v.sorted;
  each = λ c x e. valid_cluster n (some x) x (inr (refl, v.each c x e));
}

-- As long as the commit ids do not use up their 64 bits, `CalculateCommitResult` makes a valid
-- snapshot of a valid one, with the next commit id: its maps are in order and no object has a commit
-- id above its own. The blob of the next free segment id keeps the commit id
-- that it had, whatever the commit writes to it.
pub calculate_commit_result-IsValid :
    (ms : List CommitMessage) (db db' : Snapshot) (d : Deleted)
    → db.commit_id + 1 < 2 ^ 64
    → IsValid db
    → calculate_commit_result ms db ≡ some (db', d)
    → IsValid db'
      × (db'.commit_id ≡ suc db.commit_id)
      × (db'.next_free_segment_id_blob.commit_id ≡ db.next_free_segment_id_blob.commit_id)
calculate_commit_result-IsValid ms db db' d below v e =
    let f = calculate_commit_result-Follows db ms db' d below v e in
    (
      record {
        id_known = omega (arith, f.made, f.id_kept, v.id_known);
        sorted = f.sorted;
        each = λ s x p.
            subst (λ k. IsValidSegment k x) (sym f.made)
              (valid_segment db.commit_id (find s db.segments) x (f.each s x p));
      },
      f.made,
      f.id_kept,
    )
