-- ===== src/ReadQueue/Blocking.antt =====
-- Whose locks a message waits for, and how `CollectLockConflicts` and `FindLockConflictWith` find it.
use blobs_db.Base.{
  ℕ, ◌≡◌, refl, ◌∙◌, Bool, true, ◌&&◌, Option, none, some, List, [], ◌∷◌, ◌==◌, inl, inr, map, any,
  any-append, find, contains, is_some, Bool-cases, Option-cases, arith,
}
use blobs_db.BlobLocation.{BlobLocation}
use blobs_db.Lock.{Lock}
use blobs_db.LockUtil.{Directory, for_each_lock_in_message}
use blobs_db.LockUtil.Visits.{visit, all_locks_in_message-eq-visit}
use blobs_db.ReadQueue.{
  Read, LockConflict, conflicts_at, conflicts_on, continue_search, find_lock_conflict_with,
}

-- The locations that a message has to lock, if its segments and clusters to delete exist.
unfoldable pub locked_by : Directory → Read → List BlobLocation
locked_by db m = elim (for_each_lock_in_message db m.locations) [ none ↦ [] | some ls ↦ ls ]

-- The client holds a lock, at a location that the message has to lock, that conflicts with it and
-- cannot be revoked.
unfoldable pub is_blocked_by : (ℕ → Bool) → Directory → List Lock → Read → ℕ → Bool
unfolding locked_by
is_blocked_by can_revoke db locks m c =
    any (λ l. contains (conflicts_at can_revoke m locks l) c) (locked_by db m)

-- Each of the two messages is blocked by the client of the other.
unfoldable pub blocks_mutually : (ℕ → Bool) → Directory → List Lock → Read → Read → Bool
unfolding is_blocked_by
blocks_mutually can_revoke db locks m q =
    is_blocked_by can_revoke db locks m q.client && is_blocked_by can_revoke db locks q m.client

any-map-conflicts :
    (l : BlobLocation) (c : ℕ) (cs : List ℕ)
    → any {A = LockConflict}
        (λ k. k.blocked_by == c)
        (map (λ d. record { location = l; blocked_by = d }) cs)
      ≡ contains cs c
any-map-conflicts l c [] = refl
any-map-conflicts l c (d ∷ cs) = ground (arith, any-map-conflicts l c cs)

pub any-conflicts_on :
    (can_revoke : ℕ → Bool) (m : Read) (locks : List Lock) (c : ℕ) (ls : List BlobLocation)
    → any (λ k. k.blocked_by == c) (conflicts_on can_revoke m locks ls)
      ≡ any (λ l. contains (conflicts_at can_revoke m locks l) c) ls
unfolding conflicts_on
any-conflicts_on can_revoke m locks c [] = refl
any-conflicts_on can_revoke m locks c (l ∷ ls) =
    any-append (λ k. k.blocked_by == c)
      (map (λ d. record { location = l; blocked_by = d }) (conflicts_at can_revoke m locks l))
      (conflicts_on can_revoke m locks ls)
    ∙ rw (
      any-map-conflicts l c (conflicts_at can_revoke m locks l),
      any-conflicts_on can_revoke m locks c ls,
    )

pub is_some-find {ℓ} : {A : Type ℓ} (p : A → Bool) (xs : List A) → is_some (find p xs) ≡ any p xs
is_some-find p [] = refl
is_some-find p (x ∷ xs) = ground (arith, is_some-find p xs)

visit-search :
    (can_revoke : ℕ → Bool) (m : Read) (c : ℕ) (locks : List Lock) (ls : List BlobLocation)
    → is_some (visit (continue_search can_revoke m c locks) ls none).1
      ≡ any (λ l. contains (conflicts_at can_revoke m locks l) c) ls
unfolding continue_search
visit-search can_revoke m c locks [] = refl
visit-search can_revoke m c locks (l ∷ ls) =
    elim (Bool-cases (contains (conflicts_at can_revoke m locks l) c)) [
      | inl y ↦ rw (y, continue_search)
      | inr n ↦ rw (n, continue_search) (visit-search can_revoke m c locks ls)
    ]

-- `FindLockConflictWith` finds a location exactly if there is one.
pub find_lock_conflict_with_lem :
    (can_revoke : ℕ → Bool) (db : Directory) (locks : List Lock) (m : Read) (c : ℕ)
    → is_some (for_each_lock_in_message db m.locations) ≡ true
    → (found : Option BlobLocation) × (find_lock_conflict_with can_revoke db m c locks ≡ some found)
      × (is_some found ≡ is_blocked_by can_revoke db locks m c)
unfolding find_lock_conflict_with is_blocked_by locked_by
find_lock_conflict_with_lem can_revoke db locks m c h =
    elim (Option-cases (for_each_lock_in_message db m.locations)) [
      | inl n ↦ absurd (ground arith)
      | inr (ls, e) ↦ (
        (visit (continue_search can_revoke m c locks) ls none).1,
        rw (
          all_locks_in_message-eq-visit (continue_search can_revoke m c locks) db m.locations ls
              none e,
          find_lock_conflict_with,
        ),
        rw (e, is_blocked_by, locked_by) (visit-search can_revoke m c locks ls),
      )
    ]
