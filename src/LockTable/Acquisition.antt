-- ===== src/LockTable/Acquisition.antt =====
-- `AcquireLocks`: all locks of a message or none, and what a client can acquire.
use blobs_db.Base.{
  ℕ, ◌≡◌, refl, subst, Bool, true, false, Option, none, some, List, [], ◌∷◌, all, if◌then◌else◌,
  inl, inr, &&_iff, arith, Bool-cases,
}
use blobs_db.BlobLocation.{BlobLocation, eq}
use blobs_db.BlobLocation.Order.{eq_iff}
use blobs_db.Lock.{Lock, new_held, can_acquire, acquire}
use blobs_db.Lock.Holders.{holds, active_client_keeps_lock, new_held-IsValid, acquire-IsValid}
use blobs_db.Lock.Holders
use blobs_db.LockUtil.{Directory, for_each_lock_in_message}
use blobs_db.LockUtil.Visits.{visit-all, all_locks_in_message-eq-visit}
use blobs_db.LockTable.{
  lookup, can_client_acquire_lock, acquire_client_lock, acquire_each, acquire_locks,
}
use blobs_db.LockTable.Lookup.{IsValid, acquired, lookup-acquire_client_lock, location-acquire}

-- What `AcquireLocks` does, by the locations that the locks of the message stand at: if every one
-- of them can be acquired, all are, one after the other; else nothing changes.
pub acquire_locks_lem :
    (can_revoke : ℕ → Bool) (db : Directory) (client : ℕ) (write : Bool)
    (locations visited : List BlobLocation) (locks : List Lock)
    → for_each_lock_in_message db locations ≡ some visited
    → acquire_locks can_revoke db client write locations locks
      ≡ some (
          if all (λ l. can_client_acquire_lock can_revoke client write l locks) visited
          then (
            true,
            (acquire_each client write visited locks).0,
            (acquire_each client write visited locks).1,
          )
          else (false, [], locks))
unfolding acquire_locks
acquire_locks_lem can_revoke db client write locations visited locks e =
    let can = λ (l : BlobLocation). can_client_acquire_lock can_revoke client write l locks in
    let asked = all_locks_in_message-eq-visit {0} (λ l s. (can l, s)) db locations visited tt e in
    let answer = visit-all {0} can visited tt in
    elim (Bool-cases (all can visited)) [
      | inl y ↦ rw (asked, answer, y, e, acquire_locks)
      | inr n ↦ rw (asked, answer, n, acquire_locks)
    ]

pub lookup-IsValid :
    (l : BlobLocation) (locks : List Lock)
    → IsValid locks
    → (k : Lock) → lookup l locks ≡ some k
    → Holders.IsValid k
unfolding lookup
lookup-IsValid l [] v k e = cc
lookup-IsValid l (k' ∷ ks) v k e = elim (Bool-cases (eq k'.location l)) [
  | inl y ↦ subst Holders.IsValid (ground arith) v.1
  | inr n ↦ lookup-IsValid l ks v.2 k (ground arith)
]

pub acquire_client_lock-IsValid :
    (c : ℕ) (w : Bool) (l : BlobLocation) (locks : List Lock)
    → IsValid locks
    → IsValid (acquire_client_lock c w l locks).1
unfolding acquire_client_lock lookup
acquire_client_lock-IsValid c w l [] v = (refl, new_held-IsValid l c w, tt)
acquire_client_lock-IsValid c w l (k ∷ ks) v = elim (Bool-cases (eq k.location l)) [
  | inl y ↦
      rw (y, acquire_client_lock) (rw (location-acquire c w k) v.0, acquire-IsValid c w k v.1, v.2)
  | inr n ↦
      rw (n, acquire_client_lock)
        (
          ground (
            arith,
            lookup-acquire_client_lock c w l k.location ks,
            eq_iff k.location l,
            eq_iff l k.location,
          ),
          v.1,
          acquire_client_lock-IsValid c w l ks v.2,
        )
]

can_acquire-acquire :
    (can_revoke : ℕ → Bool) (c : ℕ) (w : Bool) (k : Lock)
    → can_acquire can_revoke c w (acquire c w k).1 ≡ true
unfolding can_acquire acquire
can_acquire-acquire can_revoke c true k = ground arith
can_acquire-acquire can_revoke c false k = ground arith

can_acquire-new_held :
    (can_revoke : ℕ → Bool) (c : ℕ) (w : Bool) (l : BlobLocation)
    → can_acquire can_revoke c w (new_held l c w) ≡ true
unfolding can_acquire new_held
can_acquire-new_held can_revoke c true l = ground arith
can_acquire-new_held can_revoke c false l = ground arith

can_acquire-acquired :
    (can_revoke : ℕ → Bool) (c : ℕ) (w : Bool) (l : BlobLocation) (o : Option Lock)
    → can_acquire can_revoke c w (acquired c w l o) ≡ true
can_acquire-acquired can_revoke c w l none = can_acquire-new_held can_revoke c w l
can_acquire-acquired can_revoke c w l (some k) = can_acquire-acquire can_revoke c w k

-- What the client could acquire, it still can when it has acquired another of its locks.
can_still_acquire :
    (can_revoke : ℕ → Bool) (c : ℕ) (w : Bool) (l l' : BlobLocation) (locks : List Lock)
    → can_client_acquire_lock can_revoke c w l' locks ≡ true
    → can_client_acquire_lock can_revoke c w l' (acquire_client_lock c w l locks).1 ≡ true
unfolding can_client_acquire_lock
can_still_acquire can_revoke c w l l' locks h =
    rw (lookup-acquire_client_lock c w l l' locks, can_client_acquire_lock)
      (elim (Bool-cases (eq l l')) [
        | inl y ↦ rw y (can_acquire-acquired can_revoke c w l (lookup l locks))
        | inr n ↦ rw n h
      ])

pub all_still_acquire :
    (can_revoke : ℕ → Bool) (c : ℕ) (w : Bool) (l : BlobLocation) (ls : List BlobLocation)
    (locks : List Lock)
    → all (λ m. can_client_acquire_lock can_revoke c w m locks) ls ≡ true
    → all (λ m. can_client_acquire_lock can_revoke c w m (acquire_client_lock c w l locks).1) ls
      ≡ true
all_still_acquire can_revoke c w l [] locks h = refl
all_still_acquire can_revoke c w l (m ∷ ls) locks h =
    let (here, there) = (&&_iff _ _).0 h in
    (&&_iff _ _).1 (
      can_still_acquire can_revoke c w l m locks here,
      all_still_acquire can_revoke c w l ls locks there,
    )
