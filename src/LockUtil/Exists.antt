-- ===== src/LockUtil/Exists.antt =====
-- When `ForEachLockForLocation` meets no null pointer.
use blobs_db.Base.{
  ℕ, ◌≡◌, refl, true, false, Option, some, List, [], ◌∷◌, ◌==◌, inl, inr, contains, is_some, All,
  Bool-cases, Option-cases, arith,
}
use blobs_db.Config.{cluster_delete_id, segment_delete_id}
use blobs_db.BlobLocation.{BlobLocation}
use blobs_db.LockUtil.{
  Directory, gather, cluster_in_segment, segment_delete, cluster_delete, for_each_lock_for_location,
  for_each_lock_in_message,
}

pub gather_total {ℓ} :
    {B : Type ℓ} (f : ℕ → Option (List B)) (ids : List ℕ)
    → ((i : ℕ) → contains ids i ≡ true → is_some (f i) ≡ true)
    → is_some (gather f ids) ≡ true
gather_total f [] h = refl
gather_total f (i ∷ ids) h = elim (Option-cases (f i)) [
  | inl n ↦ absurd (ground (arith, h i (ground arith)))
  | inr (bs, p) ↦ elim (Option-cases (gather f ids)) [
    | inl n ↦ absurd (ground (arith, gather_total f ids (λ j k. h j (ground arith))))
    | inr (cs, q) ↦ rw (p, q, gather)
  ]
]

-- The segment or the cluster that a delete location names exists, with all clusters in it.
pub record Exists (db : Directory) (l : BlobLocation) : Type 0 where
  pub segment_exists :
      l.blob == cluster_delete_id ≡ true
      → l.cluster == segment_delete_id ≡ true
      → is_some (db.clusters_of l.segment) ≡ true
  pub cluster_exists :
      l.blob == cluster_delete_id ≡ true
      → l.cluster == segment_delete_id ≡ false
      → is_some (db.blobs_of l.segment l.cluster) ≡ true

-- Each cluster that a segment lists can be loaded.
abbrev pub IsClosed : Directory → Type 0
IsClosed db =
    (s : ℕ) (cs : List ℕ) (c : ℕ)
    → db.clusters_of s ≡ some cs
    → contains cs c ≡ true
    → is_some (db.blobs_of s c) ≡ true

module _ (db : Directory) (closed : IsClosed db) where
  segment_delete_total :
      (l : BlobLocation)
      → is_some (db.clusters_of l.segment) ≡ true
      → is_some (segment_delete db l) ≡ true
  unfolding segment_delete cluster_in_segment
  segment_delete_total l h = elim (Option-cases (db.clusters_of l.segment)) [
    | inl n ↦ absurd (ground arith)
    | inr (cs, p) ↦ elim (Option-cases (gather (cluster_in_segment db l.segment) cs)) [
      | inl n ↦ absurd (
          ground (
            arith,
            gather_total (cluster_in_segment db l.segment) cs
                (λ c k. ground (arith, closed l.segment cs c p k)),
          ))
      | inr (inner, q) ↦ rw (p, q, segment_delete)
    ]
  ]

  pub for_each_lock_for_location_total :
      (l : BlobLocation) → Exists db l → is_some (for_each_lock_for_location db l) ≡ true
  unfolding for_each_lock_for_location cluster_delete
  for_each_lock_for_location_total l e = elim (Bool-cases (l.blob == cluster_delete_id)) [
    | inl y ↦ elim (Bool-cases (l.cluster == segment_delete_id)) [
      | inl y' ↦
          rw (y, y', for_each_lock_for_location) (segment_delete_total l (e.segment_exists y y'))
      | inr n' ↦ ground (arith, e.cluster_exists y n')
    ]
    | inr n ↦ ground arith
  ]

  -- For a message whose delete locations exist, `ForEachLockInMessage` goes through to its end.
  pub for_each_lock_in_message_total :
      (ls : List BlobLocation)
      → All (Exists db) ls
      → is_some (for_each_lock_in_message db ls) ≡ true
  unfolding for_each_lock_in_message
  for_each_lock_in_message_total [] e = refl
  for_each_lock_in_message_total (l ∷ ls) e =
      elim (Option-cases (for_each_lock_for_location db l)) [
        | inl n ↦ absurd (ground (arith, for_each_lock_for_location_total l e.0))
        | inr (bs, p) ↦ elim (Option-cases (gather (for_each_lock_for_location db) ls)) [
          | inl n ↦ absurd (ground (arith, for_each_lock_in_message_total ls e.1))
          | inr (cs, q) ↦ rw (p, q, for_each_lock_in_message, gather)
        ]
      ]
