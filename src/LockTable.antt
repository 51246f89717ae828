-- ===== src/LockTable.antt =====
-- The lock table of ServerLib/Database.cpp: the member `locks`, a `std::set<Lock>` that is searched
-- by location, as the list of its locks. `StickyLockHandler::RevokeStickyLock` tells another
-- object, the client; here each call is an entry of a list of revocations, in order.
pub mod Lookup
pub mod Acquisition
pub mod Safety
pub mod Release
use blobs_db.Base.{
  ℕ, Bool, true, false, not, ◌&&◌, ◌||◌, Option, none, some, List, [], ◌∷◌, ◌++◌, ◌==◌,
  if◌then◌else◌, map, find,
}
use blobs_db.BlobLocation.{BlobLocation, eq}
use blobs_db.Lock.{Lock, new_held, can_acquire, acquire, release, owns_write_lock}
use blobs_db.LockUtil.{Directory, for_each_lock_in_message, all_locks_in_message}

-- `RevokeStickyLock(client, location)`
pub record Revocation : Type 0 where
  pub client : ℕ
  pub location : BlobLocation

-- `locks.find(location)`
unfoldable pub lookup : BlobLocation → List Lock → Option Lock
lookup l locks = find (λ k. eq k.location l) locks

unfoldable pub client_owns_write_lock : ℕ → BlobLocation → List Lock → Bool
client_owns_write_lock client l locks = elim (lookup l locks) [
  | none ↦ false
  | some k ↦ owns_write_lock client k
]

unfoldable pub can_client_acquire_lock : (ℕ → Bool) → ℕ → Bool → BlobLocation → List Lock → Bool
can_client_acquire_lock can_revoke client write l locks = elim (lookup l locks) [
  | none ↦ true
  | some k ↦ can_acquire can_revoke client write k
]

abbrev pub revocations : BlobLocation → List ℕ → List Revocation
revocations l = map (λ c. record { client = c; location = l })

-- `AcquireClientLock`: the lock at the location is acquired in place, or inserted if there is none.
unfoldable pub acquire_client_lock :
    ℕ → Bool → BlobLocation → List Lock → List Revocation × List Lock
acquire_client_lock client write l [] = ([], new_held l client write ∷ [])
acquire_client_lock client write l (k ∷ ks) =
    let (revoked, ks') = acquire_client_lock client write l ks in
    if eq k.location l
    then (revocations l (acquire client write k).0, (acquire client write k).1 ∷ ks)
    else (revoked, k ∷ ks')

-- `AcquireClientLock` at each location in turn; `AcquireImplicitWriteLocks` is this with `true`.
unfoldable pub acquire_each : ℕ → Bool → List BlobLocation → List Lock → List Revocation × List Lock
unfolding acquire_client_lock
acquire_each client write [] locks = ([], locks)
acquire_each client write (l ∷ ls) locks =
    let (revoked, locks') = acquire_client_lock client write l locks in
    let (revoked', locks'') = acquire_each client write ls locks' in (revoked ++ revoked', locks'')

unfoldable pub acquire_implicit_write_locks :
    ℕ → List BlobLocation → List Lock → List Revocation × List Lock
unfolding acquire_each
acquire_implicit_write_locks client ls locks = acquire_each client true ls locks

-- `AcquireLocks` for the locations of a message: the answer, the revocations and the locks. `none`
-- stands for a failed assertion of LockUtil.hpp.
unfoldable pub acquire_locks :
    (ℕ → Bool)
    → Directory
    → ℕ
    → Bool
    → List BlobLocation
    → List Lock
    → Option (Bool × List Revocation × List Lock)
unfolding acquire_each can_client_acquire_lock
acquire_locks can_revoke db client write ls locks =
    elim (all_locks_in_message {0}
      (λ l s. (can_client_acquire_lock can_revoke client write l locks, s)) db ls tt) [
        | none ↦ none
        | some (can, _) ↦
            if can
            then (elim (for_each_lock_in_message db ls) [
              | none ↦ none
              | some visited ↦
                  let (revoked, locks') = acquire_each client write visited locks in
                  some (true, revoked, locks')
            ])
            else some (false, [], locks)
      ]

-- `ReleaseLock`: the lock is erased once no one holds it. `none` stands for the assertion that
-- there is a lock at the location.
unfoldable pub release_lock : ℕ → BlobLocation → List Lock → Option (List Lock)
release_lock client l [] = none
release_lock client l (k ∷ ks) =
    let rest = release_lock client l ks in
    if eq k.location l
    then some (if (release client k).0 then ks else (release client k).1 ∷ ks)
    else elim rest [ none ↦ none | some ks' ↦ some (k ∷ ks') ]

-- `ReleaseLocks`
unfoldable pub release_locks : ℕ → List BlobLocation → List Lock → Option (List Lock)
unfolding release_lock
release_locks client [] locks = some locks
release_locks client (l ∷ ls) locks = elim (release_lock client l locks) [
  | none ↦ none
  | some locks' ↦ release_locks client ls locks'
]
