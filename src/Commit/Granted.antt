-- ===== src/Commit/Granted.antt =====
-- An update is accepted only where the client may write.
use blobs_db.Base.{
  ℕ, ◌≡◌, refl, ◌∙◌, ap, sym, subst, Bool, true, false, ◌||◌, inl, inr, Option, none, some, List,
  [], ◌∷◌, All, Bool-cases, Option-cases, arith,
}
use blobs_db.BlobLocation.{BlobLocation}
use blobs_db.Lock.{Lock}
use blobs_db.LockTable.{client_owns_write_lock}
use blobs_db.LockUtil.{for_each_lock_for_location, all_locks_for_location}
use blobs_db.LockUtil.Visits.{continue, visit, all_locks-eq-visit}
use blobs_db.LockUtil.Preserves.{Holds, all_locks_for_location-Holds}
use blobs_db.BlobLocationRanges.{
  BlobLocationRange, BlobCreationRanges, encompasses, encompasses_created_segment,
  encompasses_created_cluster,
}
use blobs_db.BlobLocationRanges.Creation.{IsValid, Keeps, encompasses_with_blob_creation-Creates}
use blobs_db.Snapshot.{Snapshot, directory, blob_lookup}
use blobs_db.Commit.{accepted, Update, may_write, validate_update}
use blobs_db.Commit.Growth.{Grows, validate_content-Grows}

-- The client owns the write lock at the location, or has created what stands there.
unfoldable pub is_granted : ℕ → List Lock → List BlobLocationRange → BlobLocation → Bool
is_granted client locks ranges l = client_owns_write_lock client l locks || encompasses l ranges

-- The locations that an update has to lock, if the segment or cluster that it deletes exists.
unfoldable pub needed_locks : Snapshot → Update → List BlobLocation
needed_locks db u = elim (for_each_lock_for_location (directory db) u.location) [
  | none ↦ []
  | some ls ↦ ls
]

-- The bookkeeping has gone on well, and if the answer is true, the locations are granted.
abbrev Grants :
    ℕ → List Lock → BlobCreationRanges → List BlobLocation → Bool × BlobCreationRanges → Type 0
Grants client locks created ls r =
    Grows created r.1 × (r.0 ≡ true → All (λ l. is_granted client locks r.1.ranges l ≡ true) ls)

pub granted_later :
    (client : ℕ) (locks : List Lock) (rs rs' : List BlobLocationRange) (ls : List BlobLocation)
    → Keeps rs rs'
    → All (λ l. is_granted client locks rs l ≡ true) ls
    → All (λ l. is_granted client locks rs' l ≡ true) ls
unfolding is_granted
granted_later client locks rs rs' [] k h = tt
granted_later client locks rs rs' (l ∷ ls) k h = (
  elim (Bool-cases (encompasses l rs)) [ inl y ↦ ground (arith, k l y) | inr n ↦ ground arith ],
  granted_later client locks rs rs' ls k h.1,
)

pub Grows-trans : (a b c : BlobCreationRanges) → Grows a b → Grows b c → Grows a c
unfolding Grows
Grows-trans a b c g h = (h.0, λ l k. h.1 l (g.1 l k))

may_write-Grants :
    (client : ℕ) (db : Snapshot) (locks : List Lock) (l : BlobLocation)
    (created : BlobCreationRanges)
    → IsValid created
    → Grants client locks created (l ∷ []) (may_write client db locks l created)
unfolding may_write Grows is_granted
may_write-Grants client db locks l created v =
    elim (Bool-cases (client_owns_write_lock client l locks)) [
      | inl y ↦ rw (y, may_write, is_granted) ((v, λ l' h. h), λ _. (refl, tt))
      | inr n ↦
          let (v', keeps, positive) =
            encompasses_with_blob_creation-Creates (blob_lookup db) l created v in
          rw (n, may_write, is_granted) ((v', keeps), λ h. (positive h, tt))
    ]

-- `AllLocksForLocation` goes on as long as the locations are granted.
visit-Grants :
    (client : ℕ) (db : Snapshot) (locks : List Lock) (ls : List BlobLocation)
    (created : BlobCreationRanges)
    → IsValid created
    → Grants client locks created ls (visit (may_write client db locks) ls created)
unfolding Grows
visit-Grants client db locks [] created v = ((v, λ l h. h), λ _. tt)
visit-Grants client db locks (l ∷ ls) created v =
    after_first (may_write client db locks l created) (may_write-Grants client db locks l created v)
      λ s w. visit-Grants client db locks ls s w
  where
    after_first :
        (r : Bool × BlobCreationRanges)
        → Grants client locks created (l ∷ []) r
        → ((s : BlobCreationRanges)
            → IsValid s
            → Grants client locks s ls (visit (may_write client db locks) ls s))
        → Grants client locks created
            (l ∷ ls)
            (continue r (λ s. visit (may_write client db locks) ls s))
    after_first (false, s) g more = (g.0, λ h. absurd (ground arith))
    after_first (true, s) g more =
        let rest = more s g.0.0 in
        (
          Grows-trans created s _ g.0 rest.0,
          λ h. ((granted_later client locks s.ranges _ (l ∷ []) rest.0.1 (g.1 refl)).0, rest.1 h),
        )

some_eq {ℓ} : {A : Type ℓ} {a b : A} → some a ≡ some b → a ≡ b
some_eq e = cc

-- An update is accepted only if the locations that it has to lock are granted.
pub validate_update-Granted :
    (client : ℕ) (db : Snapshot) (locks : List Lock) (u : Update)
    (created created' : BlobCreationRanges)
    → IsValid created
    → validate_update client db locks u created ≡ accepted created'
    → Grows created created'
      × All (λ l. is_granted client locks created'.ranges l ≡ true) (needed_locks db u)
unfolding validate_update needed_locks Grows
validate_update-Granted client db locks u created created' v e = checked _ refl (
    all_locks_for_location-Holds (Grows created) (may_write client db locks)
      (λ l s g. Grows-trans created s _ g (may_write-Grants client db locks l s g.0).0)
      (directory db) created_segment created_cluster u.location created (v, λ l h. h))
  where
    created_segment : ℕ → BlobCreationRanges → Bool
    created_segment s c = encompasses_created_segment s c.ranges

    created_cluster : ℕ → ℕ → BlobCreationRanges → Bool
    created_cluster s cl c = encompasses_created_cluster s cl c.ranges

    checked :
        (o : Option (Bool × BlobCreationRanges))
        → all_locks_for_location
            (may_write client db locks)
            (directory db)
            created_segment
            created_cluster
            u.location
            created
          ≡ o
        → Holds (Grows created) o
        → Grows created created'
          × All (λ l. is_granted client locks created'.ranges l ≡ true) (needed_locks db u)
    checked none q g = absurd (ground arith)
    checked (some (false, s)) q g = absurd (ground arith)
    checked (some (true, s)) q g =
        let later = validate_content-Grows db u s created' g.0 (rw (q, validate_update) at e) in
        (
          Grows-trans created s created' g later,
          elim (Option-cases (for_each_lock_for_location (directory db) u.location)) [
            | inl n ↦ rw (n, needed_locks) tt
            | inr (ls, p) ↦
                let seen : visit (may_write client db locks) ls created ≡ (true, s) = some_eq (
                  sym (
                    all_locks-eq-visit (may_write client db locks) (directory db) created_segment
                      created_cluster u.location ls created p)
                  ∙ q) in
                rw (p, needed_locks)
                  (granted_later client locks s.ranges created'.ranges ls later.1 (
                    subst (λ t. All (λ l. is_granted client locks t.ranges l ≡ true) ls)
                      (ap (λ t. t.1) seen)
                      ((visit-Grants client db locks ls created v).1 (ap (λ t. t.0) seen))))
          ],
        )
