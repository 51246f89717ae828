-- ===== src/Commit/Accepted.antt =====
-- The messages of an accepted commit write only where the client may write.
use blobs_db.Base.{
  ℕ, ◌≡◌, refl, subst, true, false, not, ◌&&◌, inl, inr, List, [], ◌∷◌, All, is_empty, Bool-cases,
  arith,
}
use blobs_db.Lock.{Lock}
use blobs_db.BlobLocationRanges.{BlobLocationRange, BlobCreationRanges, no_creations}
use blobs_db.BlobLocationRanges.Creation.{IsValid, Keeps}
use blobs_db.Snapshot.{Snapshot}
use blobs_db.Commit.{
  Validated, assertion_failed, refused, accepted, Update, validate_update, validate_updates,
  CommitMessage,
}
use blobs_db.Commit.Databases.{Opened, validate_messages}
use blobs_db.Commit.Growth.{Grows, accepted_eq}
use blobs_db.Commit.Granted.{
  is_granted, needed_locks, granted_later, Grows-trans, validate_update-Granted,
}

-- The updates of which all locks are granted.
abbrev pub AllGranted : ℕ → Snapshot → List Lock → List BlobLocationRange → List Update → Type 0
AllGranted client db locks ranges us =
    All (λ u. All (λ l. is_granted client locks ranges l ≡ true) (needed_locks db u)) us

AllGranted-later :
    (client : ℕ) (db : Snapshot) (locks : List Lock) (rs rs' : List BlobLocationRange)
    (us : List Update)
    → Keeps rs rs'
    → AllGranted client db locks rs us
    → AllGranted client db locks rs' us
AllGranted-later client db locks rs rs' [] k h = tt
AllGranted-later client db locks rs rs' (u ∷ us) k h = (
  granted_later client locks rs rs' (needed_locks db u) k h.0,
  AllGranted-later client db locks rs rs' us k h.1,
)

validate_updates-Granted :
    (client : ℕ) (db : Snapshot) (locks : List Lock) (us : List Update)
    (created created' : BlobCreationRanges)
    → IsValid created
    → validate_updates client db locks us created ≡ accepted created'
    → Grows created created' × AllGranted client db locks created'.ranges us
unfolding validate_updates Grows
validate_updates-Granted client db locks [] created created' v e =
    (subst (Grows created) (accepted_eq e) (v, λ l h. h), tt)
validate_updates-Granted client db locks (u ∷ us) created created' v e =
    after_first (validate_update client db locks u created) refl
      (λ s w f. validate_updates-Granted client db locks us s created' w f)
  where
    after_first :
        (o : Validated BlobCreationRanges)
        → validate_update client db locks u created ≡ o
        → ((s : BlobCreationRanges)
            → IsValid s
            → validate_updates client db locks us s ≡ accepted created'
            → Grows s created' × AllGranted client db locks created'.ranges us)
        → Grows created created' × AllGranted client db locks created'.ranges (u ∷ us)
    after_first assertion_failed q more = absurd (ground arith)
    after_first (refused r) q more = absurd (ground arith)
    after_first (accepted s) q more =
        let (g, now) = validate_update-Granted client db locks u created s v q in
        let (g', later) = more s g.0 (rw (q, validate_updates) at e) in
        (
          Grows-trans created s created' g g',
          (granted_later client locks s.ranges created'.ranges (needed_locks db u) g'.1 now, later),
        )

validate_messages-Granted :
    (client : ℕ) (db : Opened) (ms : List CommitMessage) (created created' : BlobCreationRanges)
    → IsValid created
    → validate_messages client db ms created ≡ accepted created'
    → Grows created created'
      × All (λ m. AllGranted client db.snapshot db.locks created'.ranges m.updates) ms
unfolding validate_messages Grows
validate_messages-Granted client db [] created created' v e =
    (subst (Grows created) (accepted_eq e) (v, λ l h. h), tt)
validate_messages-Granted client db (m ∷ ms) created created' v e =
    elim (Bool-cases (db.is_mvcc && not (is_empty m.updates))) [
      | inl y ↦ absurd (ground arith)
      | inr n ↦
          after_first n (validate_updates client db.snapshot db.locks m.updates created) refl
            (λ s w f. validate_messages-Granted client db ms s created' w f)
    ]
  where
    after_first :
        (db.is_mvcc && not (is_empty m.updates)) ≡ false
        → (o : Validated BlobCreationRanges)
        → validate_updates client db.snapshot db.locks m.updates created ≡ o
        → ((s : BlobCreationRanges)
            → IsValid s
            → validate_messages client db ms s ≡ accepted created'
            → Grows s created'
              × All (λ m'. AllGranted client db.snapshot db.locks created'.ranges m'.updates) ms)
        → Grows created created'
          × All (λ m'. AllGranted client db.snapshot db.locks created'.ranges m'.updates) (m ∷ ms)
    after_first n assertion_failed q more = absurd (ground arith)
    after_first n (refused r) q more = absurd (ground arith)
    after_first n (accepted s) q more =
        let (g, now) =
          validate_updates-Granted client db.snapshot db.locks m.updates created s v q in
        let (g', later) = more s g.0 (rw (n, q, validate_messages) at e) in
        (
          Grows-trans created s created' g g',
          (
            AllGranted-later client db.snapshot db.locks s.ranges created'.ranges m.updates g'.1
                now,
            later,
          ),
        )

-- The messages of a commit for a database are accepted only if, for each of their updates, the
-- client owns the write lock at every location that the update has to lock (none of them, where the
-- segment or cluster to delete is not in the snapshot), or the location is in a range that the
-- commit creates.
pub accepted_writes_are_granted :
    (client : ℕ) (db : Opened) (messages : List CommitMessage) (created : BlobCreationRanges)
    → validate_messages client db messages no_creations ≡ accepted created
    → All
        (λ m.
          All
            (λ u.
              All
                (λ l. is_granted client db.locks created.ranges l ≡ true)
                (needed_locks db.snapshot u))
            m.updates)
        messages
unfolding no_creations
accepted_writes_are_granted client db messages created e =
    (validate_messages-Granted client db messages no_creations created
      (record { forward = tt; bounded = tt }) e).1
