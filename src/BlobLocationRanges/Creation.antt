-- ===== src/BlobLocationRanges/Creation.antt =====
-- The bookkeeping of a commit stays well formed, and forgets no location.
use blobs_db.Base.{
  ℕ, ◌+◌, ◌≤◌, ◌≡◌, subst, Bool, true, false, ◌&&◌, inl, inr, Option, none, some, List, [], ◌∷◌,
  ◌++◌, any-append, find, leb, ◌==◌, All, Bool-cases, Option-cases, arith,
}
use blobs_db.Config.{max_blob_id}
use blobs_db.BlobLocation.{BlobLocation, eq, lt, le}
use blobs_db.BlobLocation.Order.{eq_iff, le_trans}
use blobs_db.BlobLocationRanges.{
  BlobLocationRange, BlobCreationRanges, blob_range, in_range, encompasses, enter, committed_id,
  try_create_blob, encompasses_created_cluster, Blobs, encompasses_with_blob_creation,
}
use blobs_db.BlobLocationRanges.Coverage.{IsForward, encompasses-enter}

-- Every range ends where it begins or after it, and no committed `NextFreeBlobId` is larger than
-- `MaxBlobId + 1`.
pub record IsValid (created : BlobCreationRanges) : Type 0 where
  pub forward : IsForward created.ranges
  pub bounded : All (λ e. e.blob ≤ max_blob_id + 1) created.committed_next_free_blob_ids

-- All that is encompassed before is encompassed afterwards.
abbrev pub Keeps : List BlobLocationRange → List BlobLocationRange → Type 0
Keeps rs rs' = (l : BlobLocation) → encompasses l rs ≡ true → encompasses l rs' ≡ true

some_eq {ℓ} : {A : Type ℓ} {a b : A} → some a ≡ some b → a ≡ b
some_eq e = cc

pub append-IsForward :
    (rs rs' : List BlobLocationRange) → IsForward rs → IsForward rs' → IsForward (rs ++ rs')
append-IsForward [] rs' f f' = f'
append-IsForward (r ∷ rs) rs' f f' = (f.0, append-IsForward rs rs' f.1 f')

pub append-Keeps : (rs rs' : List BlobLocationRange) → Keeps rs (rs ++ rs')
unfolding encompasses
append-Keeps rs rs' l h = ground (arith, any-append (in_range l) rs rs')

joined-forward :
    (q r : BlobLocationRange)
    → le q.begin q.end ≡ true
    → le r.begin r.end ≡ true
    → eq q.end r.begin ≡ true
    → le q.begin r.end ≡ true
joined-forward q r f g e = ground (arith, eq_iff q.end r.begin, le_trans q.begin q.end r.end)

enter-IsForward :
    (r : BlobLocationRange) (rs : List BlobLocationRange)
    → le r.begin r.end ≡ true
    → IsForward rs
    → IsForward (enter r rs)
unfolding enter
enter-IsForward r [] g f = (g, tt)
enter-IsForward r (q ∷ []) g f = elim (Bool-cases (eq q.end r.begin)) [
  | inl y ↦ rw (y, enter) (joined-forward q r f.0 g y, tt)
  | inr n ↦ rw (n, enter) (f.0, (g, tt))
]
enter-IsForward r (q ∷ q' ∷ rs) g f = (f.0, enter-IsForward r (q' ∷ rs) g f.1)

pub blob_range-forward :
    (s c b : ℕ) → b ≤ max_blob_id → le (blob_range s c b).begin (blob_range s c b).end ≡ true
unfolding blob_range le eq lt
blob_range-forward s c b h = ground arith

blob_range_self :
    (l : BlobLocation)
    → l.blob ≤ max_blob_id
    → in_range l (blob_range l.segment l.cluster l.blob) ≡ true
unfolding blob_range le lt eq
blob_range_self l h = ground arith

enter-Keeps :
    (r : BlobLocationRange) (rs : List BlobLocationRange)
    → le r.begin r.end ≡ true
    → IsForward rs
    → Keeps rs (enter r rs)
enter-Keeps r rs g f l h = ground (arith, encompasses-enter l r rs f g)

find-All {ℓ κ} :
    {A : Type ℓ} (P : A → Type κ) (p : A → Bool) (xs : List A) {a : A}
    → All P xs
    → find p xs ≡ some a
    → P a
find-All P p [] h e = absurd (ground arith)
find-All P p (x ∷ xs) {a} h e = elim (Bool-cases (p x)) [
  | inl y ↦ subst P (some_eq (rw y at e)) h.0
  | inr n ↦ find-All P p xs h.1 (rw n at e)
]

-- What an operation promises that may create the blob at `l`.
abbrev pub Creates : BlobLocation → BlobCreationRanges → Bool × BlobCreationRanges → Type 0
Creates l created (b, created') =
    IsValid created'
    × Keeps created.ranges created'.ranges
    × (b ≡ true → encompasses l created'.ranges ≡ true)

try_create_blob-Creates :
    (l : BlobLocation) (created : BlobCreationRanges)
    → IsValid created
    → Creates l created (try_create_blob l created)
unfolding try_create_blob committed_id
try_create_blob-Creates l created v =
    elim (Option-cases (
      find (λ e. e.segment == l.segment && e.cluster == l.cluster)
        created.committed_next_free_blob_ids)) [
          | inl n ↦
              rw (n, try_create_blob, committed_id) (v, (λ l' h. h), λ h. absurd (ground arith))
          | inr (e, p) ↦ elim (Bool-cases (leb e.blob l.blob)) [
            | inl y ↦
                rw (p, y, try_create_blob, committed_id)
                  (v, (λ l' h. h), λ h. absurd (ground arith))
            | inr n ↦
                rw (p, n, try_create_blob, committed_id)
                  (entered e
                    (find-All (λ i. i.blob ≤ max_blob_id + 1) _ created.committed_next_free_blob_ids
                      v.bounded p)
                    n)
          ]
        ]
  where
    r : BlobLocationRange
    r = blob_range l.segment l.cluster l.blob

    entered :
        (e : BlobLocation)
        → e.blob ≤ max_blob_id + 1
        → leb e.blob l.blob ≡ false
        → Creates l created (true, record created { ranges = enter r created.ranges })
    entered e b n =
        let small : l.blob ≤ max_blob_id = ground arith in
        let fw : le r.begin r.end ≡ true = blob_range-forward l.segment l.cluster l.blob small in
        (
          record { forward = enter-IsForward r created.ranges fw v.forward; bounded = v.bounded },
          enter-Keeps r created.ranges fw v.forward,
          λ _.
              ground
                (arith, encompasses-enter l r created.ranges v.forward fw, blob_range_self l small),
        )

-- `EncompassesWithBlobCreation` keeps the bookkeeping well formed and forgets no location; where it
-- answers true, the location is encompassed from then on.
pub encompasses_with_blob_creation-Creates :
    (db : Blobs) (l : BlobLocation) (created : BlobCreationRanges)
    → IsValid created
    → Creates l created (encompasses_with_blob_creation db l created)
unfolding encompasses_with_blob_creation
encompasses_with_blob_creation-Creates db l created v =
    elim (Bool-cases (encompasses l created.ranges)) [
      | inl y ↦ rw (y, encompasses_with_blob_creation) (v, (λ l' h. h), λ _. y)
      | inr n ↦ elim (Bool-cases (encompasses_created_cluster l.segment l.cluster created.ranges)) [
        | inl y ↦ rw (n, y, encompasses_with_blob_creation) (try_create_blob-Creates l created v)
        | inr n' ↦
            rw (n, n', encompasses_with_blob_creation)
              (in_database (db.has_blob l.segment l.cluster l.blob))
      ]
    ]
  where
    in_database :
        (o : Option Bool)
        → Creates l created (elim o [
          | none ↦ (false, created)
          | some true ↦ (false, created)
          | some false ↦ try_create_blob l created
        ])
    in_database none = (v, (λ l' h. h), λ h. absurd (ground arith))
    in_database (some true) = (v, (λ l' h. h), λ h. absurd (ground arith))
    in_database (some false) = try_create_blob-Creates l created v
