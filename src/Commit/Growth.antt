-- ===== src/Commit/Growth.antt =====
-- What the validation of an update does to the bookkeeping of the commit.
use blobs_db.Base.{
  ℕ, zero, suc, ◌+◌, ◌-◌, ◌≤◌, ◌≡◌, refl, subst, false, not, ◌&&◌, ◌||◌, inl, inr, List, [], ◌∷◌,
  ◌++◌, ltb, ◌==◌, add32, All, Bool-cases, Option-cases, arith,
}
use blobs_db.Config.{
  max_blob_id, max_cluster_id, max_segment_id, next_free_blob_id, next_free_cluster_id,
  next_free_segment_id, cluster_delete_id, segment_delete_id, blob_list_id, cluster_list_id,
  segment_list_id,
}
use blobs_db.BlobLocationRanges.{
  BlobLocationRange, BlobCreationRanges, enter_new_cluster, enter_new_segment,
  next_free_blob_id_committed,
}
use blobs_db.BlobLocationRanges.Coverage.{IsForward}
use blobs_db.BlobLocationRanges.Creation.{IsValid, Keeps}
use blobs_db.BlobLocationRanges.Entering.{
  enter_new_cluster-IsForward, enter_new_cluster-Keeps, enter_new_segment-IsForward,
  enter_new_segment-Keeps,
}
use blobs_db.Snapshot.{Snapshot}
use blobs_db.Commit.{
  Validated, assertion_failed, refused, accepted, Update, content_id, enter_new_segments,
  enter_new_clusters, validate_new_segments, validate_new_clusters, validate_new_blobs,
  current_cluster_id, current_blob_id, validate_content,
}

-- The bookkeeping of the commit went on from `created` to `created'`.
unfoldable pub Grows : BlobCreationRanges → BlobCreationRanges → Type 0
Grows created created' = IsValid created' × Keeps created.ranges created'.ranges

pub accepted_eq {ℓ} : {A : Type ℓ} {a b : A} → accepted a ≡ accepted b → a ≡ b
accepted_eq e = cc

append-All {ℓ κ} :
    {A : Type ℓ} (P : A → Type κ) (xs ys : List A) → All P xs → All P ys → All P (xs ++ ys)
append-All P [] ys h k = k
append-All P (x ∷ xs) ys h k = (h.0, append-All P xs ys h.1 k)

enter_new_segments-Grows :
    (n i : ℕ) (rs : List BlobLocationRange)
    → i + n ≤ max_segment_id + 1
    → IsForward rs
    → IsForward (enter_new_segments n i rs) × Keeps rs (enter_new_segments n i rs)
unfolding enter_new_segments
enter_new_segments-Grows zero i rs h f = (f, λ l k. k)
enter_new_segments-Grows (suc n) i rs h f =
    let (fw, keeps) =
      enter_new_segments-Grows n (add32 i 1) (enter_new_segment i rs) (omega arith)
        (enter_new_segment-IsForward i rs (omega arith) f) in
    (fw, λ l k. keeps l (enter_new_segment-Keeps i rs l k))

enter_new_clusters-Grows :
    (n s i : ℕ) (rs : List BlobLocationRange)
    → i + n ≤ max_cluster_id + 1
    → IsForward rs
    → IsForward (enter_new_clusters n s i rs) × Keeps rs (enter_new_clusters n s i rs)
unfolding enter_new_clusters
enter_new_clusters-Grows zero s i rs h f = (f, λ l k. k)
enter_new_clusters-Grows (suc n) s i rs h f =
    let (fw, keeps) =
      enter_new_clusters-Grows n s (add32 i 1) (enter_new_cluster s i rs) (omega arith)
        (enter_new_cluster-IsForward s i rs (omega arith) f) in
    (fw, λ l k. keeps l (enter_new_cluster-Keeps s i rs l k))

module _ (db : Snapshot) (u : Update) (created created' : BlobCreationRanges)
    (v : IsValid created) where
  validate_new_segments-Grows :
      validate_new_segments db u created ≡ accepted created' → Grows created created'
  unfolding validate_new_segments Grows
  validate_new_segments-Grows e =
      elim (Bool-cases (
        not (u.location.cluster == next_free_cluster_id)
        || not (u.location.blob == next_free_blob_id))) [
          | inl y ↦ absurd (ground arith)
          | inr n ↦ elim (Option-cases (content_id u.content)) [
            | inl p ↦ absurd (ground arith)
            | inr (id, p) ↦
                elim (Bool-cases (ltb id db.next_free_segment || ltb (max_segment_id + 1) id)) [
                  | inl y ↦ absurd (ground arith)
                  | inr n' ↦
                      let (fw, keeps) =
                        enter_new_segments-Grows (id - db.next_free_segment) db.next_free_segment
                          created.ranges (ground arith) v.forward in
                      subst (Grows created)
                        (accepted_eq (rw (n, p, n', validate_new_segments) at e))
                        (record { forward = fw; bounded = v.bounded }, keeps)
                ]
          ]
        ]

  validate_new_clusters-Grows :
      validate_new_clusters db u created ≡ accepted created' → Grows created created'
  unfolding validate_new_clusters Grows
  validate_new_clusters-Grows e = elim (Bool-cases (not (u.location.blob == next_free_blob_id))) [
    | inl y ↦ absurd (ground arith)
    | inr n ↦ from_current n (current_cluster_id db u.location created) refl
  ]
    where
      from_current :
          not (u.location.blob == next_free_blob_id) ≡ false
          → (current : Validated ℕ) → current_cluster_id db u.location created ≡ current
          → Grows created created'
      from_current n assertion_failed q = absurd (ground arith)
      from_current n (refused r) q = absurd (ground arith)
      from_current n (accepted next_free) q = elim (Option-cases (content_id u.content)) [
        | inl p ↦ absurd (ground arith)
        | inr (id, p) ↦ elim (Bool-cases (ltb id next_free || ltb (max_cluster_id + 1) id)) [
          | inl y ↦ absurd (ground arith)
          | inr n' ↦
              let (fw, keeps) =
                enter_new_clusters-Grows (id - next_free) u.location.segment next_free
                  created.ranges (ground arith) v.forward in
              subst (Grows created) (accepted_eq (rw (n, q, p, n', validate_new_clusters) at e))
                (record { forward = fw; bounded = v.bounded }, keeps)
        ]
      ]

  validate_new_blobs-Grows :
      validate_new_blobs db u created ≡ accepted created' → Grows created created'
  unfolding validate_new_blobs Grows next_free_blob_id_committed
  validate_new_blobs-Grows e = from_current (current_blob_id db u.location created) refl
    where
      from_current :
          (current : Validated ℕ)
          → current_blob_id db u.location created ≡ current
          → Grows created created'
      from_current assertion_failed q = absurd (ground arith)
      from_current (refused r) q = absurd (ground arith)
      from_current (accepted next_free) q = elim (Option-cases (content_id u.content)) [
        | inl p ↦ absurd (ground arith)
        | inr (id, p) ↦ elim (Bool-cases (ltb id next_free || ltb (max_blob_id + 1) id)) [
          | inl y ↦ absurd (ground arith)
          | inr n' ↦ subst (Grows created) (accepted_eq (rw (q, p, n', validate_new_blobs) at e)) (
            record {
              forward = v.forward;
              bounded =
                  append-All (λ i. i.blob ≤ max_blob_id + 1) created.committed_next_free_blob_ids _
                    v.bounded (ground arith, tt);
            },
            λ l k. k,
          )
        ]
      ]

  pub validate_content-Grows :
      validate_content db u created ≡ accepted created' → Grows created created'
  unfolding validate_content Grows
  validate_content-Grows e =
      elim (Bool-cases (
        u.location.segment == segment_list_id
        || (u.location.cluster == cluster_list_id || u.location.blob == blob_list_id))) [
          | inl y ↦ absurd (ground arith)
          | inr n ↦
              elim (Bool-cases (
                u.location.cluster == segment_delete_id
                && not (u.location.blob == cluster_delete_id))) [
                  | inl y ↦ absurd (ground arith)
                  | inr n1 ↦ elim (Bool-cases (u.location.segment == next_free_segment_id)) [
                    | inl y ↦ validate_new_segments-Grows (rw (n, n1, y, validate_content) at e)
                    | inr n2 ↦ elim (Bool-cases (u.location.cluster == next_free_cluster_id)) [
                      | inl y ↦
                          validate_new_clusters-Grows (rw (n, n1, n2, y, validate_content) at e)
                      | inr n3 ↦ elim (Bool-cases (u.location.blob == next_free_blob_id)) [
                        | inl y ↦
                            validate_new_blobs-Grows (rw (n, n1, n2, n3, y, validate_content) at e)
                        | inr n4 ↦
                            subst (Grows created)
                              (accepted_eq (rw (n, n1, n2, n3, n4, validate_content) at e))
                              (v, λ l k. k)
                      ]
                    ]
                  ]
                ]
        ]
