-- ===== src/ClientLocks/Acquiring.antt =====
-- The entries of all clients agree with the lock table after one client acquires locks and the
-- others are told of the sticky locks that they lose.
use blobs_db.Base.{
  ℕ, ◌≡◌, ◌∙◌, Bool, true, false, some, List, [], ◌∷◌, ◌==◌, if◌then◌else◌, contains, inl, inr,
  arith, Bool-cases, ==_iff, all,
}
use blobs_db.BlobLocation.{BlobLocation}
use blobs_db.Lock.{Lock}
use blobs_db.LockUtil.{Directory, for_each_lock_in_message}
use blobs_db.LockTable.{
  Revocation, lookup, can_client_acquire_lock, acquire_client_lock, acquire_each,
}
use blobs_db.LockTable.Lookup.{IsValid}
use blobs_db.LockTable.Acquisition.{acquire_client_lock-IsValid, acquire_locks_lem}
use blobs_db.ClientLocks.{
  DatabaseLocks, add_lock, add_locks, revoke_sticky_locks, acquire_client_locks,
}
use blobs_db.ClientLocks.Agreement.{Agrees}
use blobs_db.ClientLocks.Revoking.{
  revoked_by, revoked-acquire_client_lock, revoked_by_lem, revoked_by-Distinct,
  holds_at-acquire_client_lock, revoke_sticky_locks-revocations, revoke_sticky_locks-append,
  revoke_sticky_lock-Agrees, add_lock-Agrees, unchanged-Agrees,
}

module _ (c : ℕ) (w : Bool) where
  module _ (l : BlobLocation) (table : List Lock) (v : IsValid table) where
    acquire_client_lock-own :
        (d : DatabaseLocks)
        → Agrees c table d
        → d.revoked_locks ≡ []
        → Agrees c (acquire_client_lock c w l table).1 (add_lock l d)
    acquire_client_lock-own d a e = add_lock-Agrees c l table _ d a e (λ l'.
        ground
          (arith, holds_at-acquire_client_lock c w l table v c l', revoked_by_lem c w l table v c))

    acquire_client_lock-other :
        (c' : ℕ) (d : DatabaseLocks)
        → (c' == c) ≡ false
        → Agrees c' table d
        → Agrees c'
            (acquire_client_lock c w l table).1
            (revoke_sticky_locks c' (acquire_client_lock c w l table).0 d)
    acquire_client_lock-other c' d n a =
        rw
          (
            revoked-acquire_client_lock c w l table,
            revoke_sticky_locks-revocations c' l (revoked_by c w (lookup l table)) d
                (revoked_by-Distinct c w l table v),
          )
          (elim (Bool-cases (contains (revoked_by c w (lookup l table)) c')) [
            | inl y ↦ rw y (
                revoke_sticky_lock-Agrees c' l table _ d a (revoked_by_lem c w l table v c' y).1
                  (λ l'. ground (arith, holds_at-acquire_client_lock c w l table v c' l')))
            | inr k ↦ rw k (
                unchanged-Agrees c' table _ d a
                  (λ l'. ground (arith, holds_at-acquire_client_lock c w l table v c' l')))
          ])

  revoked-add_lock :
      (l : BlobLocation) (d : DatabaseLocks) → (add_lock l d).revoked_locks ≡ d.revoked_locks
  unfolding add_lock
  revoked-add_lock l d = ground arith

  acquire_each-own :
      (ls : List BlobLocation) (table : List Lock) (d : DatabaseLocks)
      → IsValid table
      → Agrees c table d
      → d.revoked_locks ≡ []
      → Agrees c (acquire_each c w ls table).1 (add_locks ls d)
  unfolding acquire_each add_locks
  acquire_each-own [] table d v a e = a
  acquire_each-own (l ∷ ls) table d v a e =
      acquire_each-own ls _ (add_lock l d) (acquire_client_lock-IsValid c w l table v)
        (acquire_client_lock-own l table v d a e) (revoked-add_lock l d ∙ e)

  acquire_each-other :
      (c' : ℕ) (ls : List BlobLocation) (table : List Lock) (d : DatabaseLocks)
      → (c' == c) ≡ false
      → IsValid table
      → Agrees c' table d
      → Agrees c'
          (acquire_each c w ls table).1
          (revoke_sticky_locks c' (acquire_each c w ls table).0 d)
  unfolding acquire_each revoke_sticky_locks
  acquire_each-other c' [] table d n v a = a
  acquire_each-other c' (l ∷ ls) table d n v a =
      rw
        (revoke_sticky_locks-append c' (acquire_client_lock c w l table).0
          (acquire_each c w ls (acquire_client_lock c w l table).1).0 d)
        (acquire_each-other c' ls _ _ n (acquire_client_lock-IsValid c w l table v)
          (acquire_client_lock-other l table v c' d n a))

acquire_client_locks_lem :
    (can_revoke : ℕ → Bool) (db : Directory) (c : ℕ) (w : Bool) (ls visited : List BlobLocation)
    (table : List Lock) (d : DatabaseLocks)
    → for_each_lock_in_message db ls ≡ some visited
    → acquire_client_locks can_revoke db c w ls (table, d)
      ≡ some (
          if all (λ l. can_client_acquire_lock can_revoke c w l table) visited
          then (
            true,
            (acquire_each c w visited table).0,
            (acquire_each c w visited table).1,
            add_locks visited d,
          )
          else (false, [], table, d))
unfolding acquire_client_locks
acquire_client_locks_lem can_revoke db c w ls visited table d e =
    let answer = acquire_locks_lem can_revoke db c w ls visited table e in
    elim (Bool-cases (all (λ l. can_client_acquire_lock can_revoke c w l table) visited)) [
      | inl y ↦ rw (y, rw y at answer, e, acquire_client_locks)
      | inr n ↦ rw (n, rw n at answer, acquire_client_locks)
    ]

-- When a client in a transaction asks for the locks of a message, the entries of all clients agree
-- with the lock table again as soon as the revocations have been passed on, whatever the answer.
pub acquire_client_locks_agree :
    (can_revoke : ℕ → Bool) (db : Directory) (c : ℕ) (w : Bool) (ls visited : List BlobLocation)
    (table : List Lock) (entries : ℕ → DatabaseLocks)
    → for_each_lock_in_message db ls ≡ some visited
    → IsValid table
    → ((c' : ℕ) → Agrees c' table (entries c'))
    → (entries c).revoked_locks ≡ []
    → (answer : Bool) × (revoked : List Revocation) × (table' : List Lock) × (d' : DatabaseLocks)
      × (acquire_client_locks can_revoke db c w ls (table, entries c)
          ≡ some (answer, revoked, table', d'))
      × ((c' : ℕ)
          → Agrees c' table' (if c' == c then d' else revoke_sticky_locks c' revoked (entries c')))
unfolding revoke_sticky_locks
acquire_client_locks_agree can_revoke db c w ls visited table entries e v a active =
    let lem = acquire_client_locks_lem can_revoke db c w ls visited table (entries c) e in
    elim (Bool-cases (all (λ l. can_client_acquire_lock can_revoke c w l table) visited)) [
      | inl y ↦ (
        true,
        (acquire_each c w visited table).0,
        (acquire_each c w visited table).1,
        add_locks visited (entries c),
        lem ∙ rw y,
        λ c'. elim (Bool-cases (c' == c)) [
          | inl same ↦
              rw (same, (==_iff c' c).0 same)
                (acquire_each-own c w visited table (entries c) v (a c) active)
          | inr other ↦
              rw other (acquire_each-other c w c' visited table (entries c') other v (a c'))
        ],
      )
      | inr n ↦ (
        false,
        [],
        table,
        entries c,
        lem ∙ rw n,
        λ c'. elim (Bool-cases (c' == c)) [
          | inl same ↦ rw (same, (==_iff c' c).0 same) (a c)
          | inr other ↦ rw (other, revoke_sticky_locks) (a c')
        ],
      )
    ]
