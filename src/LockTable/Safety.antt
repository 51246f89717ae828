-- ===== src/LockTable/Safety.antt =====
-- What `AcquireLocks` guarantees to the client and to the other clients.
use blobs_db.Base.{
  ℕ, ◌≡◌, ◌⊎◌, refl, ◌∙◌, subst, sym, Bool, true, false, Option, none, some, List, [], ◌∷◌, all,
  any, contains-append, if◌then◌else◌, inl, inr, &&_iff, arith, Bool-cases,
}
use blobs_db.BlobLocation.{BlobLocation, eq}
use blobs_db.BlobLocation.Order.{eq_iff}
use blobs_db.Lock.{Lock, new_held, acquire, owns_write_lock}
use blobs_db.Lock.Holders.{active_client_keeps_lock}
use blobs_db.LockUtil.{Directory, for_each_lock_in_message}
use blobs_db.LockTable.{
  Revocation, lookup, client_owns_write_lock, can_client_acquire_lock, acquire_client_lock,
  acquire_each, acquire_locks,
}
use blobs_db.LockTable.Acquisition.{
  acquire_locks_lem, lookup-IsValid, acquire_client_lock-IsValid, all_still_acquire,
}
use blobs_db.LockTable.Lookup.{IsValid, holds_at, holds_in, acquired, lookup-acquire_client_lock}

-- The client owns the write lock, if there is one.
abbrev owns_in : ℕ → Option Lock → Bool
owns_in c none = false
owns_in c (some k) = owns_write_lock c k

-- What the client has in the first lock it has in the second.
abbrev KeptIn : ℕ → Option Lock → Option Lock → Type 0
KeptIn c o o' =
    holds_in c o ≡ true → (holds_in c o' ≡ true) × (owns_in c o ≡ true → owns_in c o' ≡ true)

module _ (can_revoke : ℕ → Bool) (client : ℕ) (w : Bool) (c : ℕ)
    (active : can_revoke c ≡ false) where
  acquired-KeptIn :
      (l : BlobLocation) (locks : List Lock) (o : Option Lock)
      → IsValid locks
      → lookup l locks ≡ o
      → can_client_acquire_lock can_revoke client w l locks ≡ true
      → KeptIn c o (some (acquired client w l o))
  unfolding can_client_acquire_lock
  acquired-KeptIn l locks none v e can held = absurd (ground arith)
  acquired-KeptIn l locks (some k) v e can held =
      active_client_keeps_lock can_revoke client w k c (lookup-IsValid l locks v k e)
        (rw (e, can_client_acquire_lock) at can) active held

  module _ (l' : BlobLocation) where
    acquire_client_lock-KeptIn :
        (l : BlobLocation) (locks : List Lock)
        → IsValid locks
        → can_client_acquire_lock can_revoke client w l locks ≡ true
        → KeptIn c (lookup l' locks) (lookup l' (acquire_client_lock client w l locks).1)
    acquire_client_lock-KeptIn l locks v can =
        subst (KeptIn c (lookup l' locks)) (sym (lookup-acquire_client_lock client w l l' locks))
          (changed (eq l l') refl)
      where
        changed :
            (b : Bool)
            → eq l l' ≡ b
            → KeptIn c
                (lookup l' locks)
                (if b then some (acquired client w l (lookup l locks)) else lookup l' locks)
        changed true y =
            subst (λ m. KeptIn c (lookup m locks) (some (acquired client w l (lookup l locks))))
              ((eq_iff l l').0 y) (acquired-KeptIn l locks (lookup l locks) v refl can)
        changed false n = λ held. (held, λ own. own)

    acquire_each-KeptIn :
        (ls : List BlobLocation) (locks : List Lock)
        → IsValid locks
        → all (λ l. can_client_acquire_lock can_revoke client w l locks) ls ≡ true
        → KeptIn c (lookup l' locks) (lookup l' (acquire_each client w ls locks).1)
    unfolding acquire_each
    acquire_each-KeptIn [] locks v can = λ held. (held, λ own. own)
    acquire_each-KeptIn (l ∷ ls) locks v can = λ held.
        let (can_l, can_ls) = (&&_iff _ _).0 can in
        let (held', own') = acquire_client_lock-KeptIn l locks v can_l held in
        let (held'', own'') =
          acquire_each-KeptIn ls (acquire_client_lock client w l locks).1
            (acquire_client_lock-IsValid client w l locks v)
            (all_still_acquire can_revoke client w l ls locks can_ls) held' in
        (held'', λ own. own'' (own' own))

acquire_each-IsValid :
    (c : ℕ) (w : Bool) (ls : List BlobLocation) (locks : List Lock)
    → IsValid locks
    → IsValid (acquire_each c w ls locks).1
unfolding acquire_each
acquire_each-IsValid c w [] locks v = v
acquire_each-IsValid c w (l ∷ ls) locks v =
    acquire_each-IsValid c w ls (acquire_client_lock c w l locks).1
      (acquire_client_lock-IsValid c w l locks v)

acquire_locks-true :
    (can_revoke : ℕ → Bool) (db : Directory) (client : ℕ) (write : Bool)
    (locations visited : List BlobLocation) (locks : List Lock) (revoked : List Revocation)
    (locks' : List Lock)
    → for_each_lock_in_message db locations ≡ some visited
    → acquire_locks can_revoke db client write locations locks ≡ some (true, revoked, locks')
    → (all (λ l. can_client_acquire_lock can_revoke client write l locks) visited ≡ true)
      × ((acquire_each client write visited locks).1 ≡ locks')
acquire_locks-true can_revoke db client write locations visited locks revoked locks' e a =
    let outcome =
      sym (acquire_locks_lem can_revoke db client write locations visited locks e) ∙ a in
    elim (Bool-cases (all (λ l. can_client_acquire_lock can_revoke client write l locks) visited)) [
      | inl y ↦ (y, ground arith)
      | inr n ↦ absurd (ground arith)
    ]

acquire_locks-false :
    (can_revoke : ℕ → Bool) (db : Directory) (client : ℕ) (write : Bool)
    (locations visited : List BlobLocation) (locks : List Lock) (revoked : List Revocation)
    (locks' : List Lock)
    → for_each_lock_in_message db locations ≡ some visited
    → acquire_locks can_revoke db client write locations locks ≡ some (false, revoked, locks')
    → locks ≡ locks'
acquire_locks-false can_revoke db client write locations visited locks revoked locks' e a =
    let outcome =
      sym (acquire_locks_lem can_revoke db client write locations visited locks e) ∙ a in
    elim (Bool-cases (all (λ l. can_client_acquire_lock can_revoke client write l locks) visited)) [
      | inl y ↦ absurd (ground arith)
      | inr n ↦ ground arith
    ]

-- The clients in a transaction keep each lock that they hold, at every location, and a write lock as
-- a write lock.
abbrev pub KeepsActive : (ℕ → Bool) → List Lock → List Lock → Type 0
KeepsActive can_revoke locks locks' =
    (c : ℕ) (l : BlobLocation)
    → can_revoke c ≡ false
    → holds_at c l locks ≡ true
    → (holds_at c l locks' ≡ true)
      × (client_owns_write_lock c l locks ≡ true → client_owns_write_lock c l locks' ≡ true)

-- Whatever `AcquireLocks` answers, it leaves a valid table valid, and every client that is in a
-- transaction keeps each lock that it holds, at every location, and a write lock as a write lock.
pub acquire_locks-KeepsActive :
    (can_revoke : ℕ → Bool) (db : Directory) (client : ℕ) (write : Bool)
    (locations visited : List BlobLocation) (locks : List Lock) (acquired : Bool)
    (revoked : List Revocation) (locks' : List Lock)
    → IsValid locks
    → for_each_lock_in_message db locations ≡ some visited
    → acquire_locks can_revoke db client write locations locks ≡ some (acquired, revoked, locks')
    → IsValid locks' × KeepsActive can_revoke locks locks'
unfolding client_owns_write_lock
acquire_locks-KeepsActive can_revoke db client write locations visited locks true revoked locks' v e
      a =
    let (can, shape) =
      acquire_locks-true can_revoke db client write locations visited locks revoked locks' e a in
    (
      subst IsValid shape (acquire_each-IsValid client write visited locks v),
      λ c l active held.
          let (held', own') =
            acquire_each-KeptIn can_revoke client write c active l visited locks v can held in
          (
            subst (λ t. holds_in c (lookup l t) ≡ true) shape held',
            λ own. subst (λ t. owns_in c (lookup l t) ≡ true) shape (own' own),
          ),
    )
acquire_locks-KeepsActive can_revoke db client write locations visited locks false revoked locks' v
      e a =
    let same =
      acquire_locks-false can_revoke db client write locations visited locks revoked locks' e a in
    (
      subst IsValid same v,
      subst (KeepsActive can_revoke locks) same (λ c l active held. (held, λ own. own)),
    )

-- The client holds the lock, and owns it if it asked for a write lock.
abbrev pub Has : ℕ → Bool → Option Lock → Type 0
Has c w o = (holds_in c o ≡ true) × (w ≡ true → owns_in c o ≡ true)

acquired-Has :
    (c : ℕ) (w : Bool) (l : BlobLocation) (o : Option Lock) → Has c w (some (acquired c w l o))
unfolding new_held acquire owns_write_lock
acquired-Has c true l none = ground arith
acquired-Has c false l none = ground arith
acquired-Has c true l (some k) = ground arith
acquired-Has c false l (some k) = ground (arith, contains-append k.read (c ∷ []) c)

module _ (c : ℕ) (w : Bool) where
  acquire_client_lock-Has :
      (l l' : BlobLocation) (locks : List Lock)
      → (eq l l' ≡ true) ⊎ Has c w (lookup l' locks)
      → Has c w (lookup l' (acquire_client_lock c w l locks).1)
  acquire_client_lock-Has l l' locks h =
      subst (Has c w) (sym (lookup-acquire_client_lock c w l l' locks)) (either (eq l l') refl)
    where
      either :
          (b : Bool)
          → eq l l' ≡ b
          → Has c w (if b then some (acquired c w l (lookup l locks)) else lookup l' locks)
      either true y = acquired-Has c w l (lookup l locks)
      either false n = elim h [ inl y ↦ absurd (ground arith) | inr had ↦ had ]

  pub acquire_each-Has :
      (ls : List BlobLocation) (l' : BlobLocation) (locks : List Lock)
      → (any (λ l. eq l l') ls ≡ true) ⊎ Has c w (lookup l' locks)
      → Has c w (lookup l' (acquire_each c w ls locks).1)
  unfolding acquire_each
  acquire_each-Has [] l' locks (inl h) = absurd (ground arith)
  acquire_each-Has [] l' locks (inr h) = h
  acquire_each-Has (l ∷ ls) l' locks (inr h) =
      acquire_each-Has ls l' _ (inr (acquire_client_lock-Has l l' locks (inr h)))
  acquire_each-Has (l ∷ ls) l' locks (inl h) = elim (Bool-cases (eq l l')) [
    | inl y ↦ acquire_each-Has ls l' _ (inr (acquire_client_lock-Has l l' locks (inl y)))
    | inr n ↦ acquire_each-Has ls l' _ (inl (rw n at h))
  ]

-- When `AcquireLocks` answers true, the client holds the lock at every location that the message
-- needs, as a write lock if it asked for one; when it answers false, no lock has changed and none
-- is revoked. It answers one or the other, if the segments and clusters to delete exist.
pub acquire_locks_all_or_nothing :
    (can_revoke : ℕ → Bool) (db : Directory) (client : ℕ) (write : Bool)
    (locations visited : List BlobLocation) (locks : List Lock)
    → for_each_lock_in_message db locations ≡ some visited
    → (acquire_locks can_revoke db client write locations locks ≡ some (false, [], locks))
      ⊎ ((revoked : List Revocation) × (locks' : List Lock) × (acquire_locks can_revoke db client
              write locations locks
            ≡ some (true, revoked, locks'))
          × ((l : BlobLocation)
              → any (λ m. eq m l) visited ≡ true
              → (holds_at client l locks' ≡ true)
                × (write ≡ true → client_owns_write_lock client l locks' ≡ true)))
unfolding client_owns_write_lock
acquire_locks_all_or_nothing can_revoke db client write locations visited locks e =
    elim (Bool-cases (all (λ l. can_client_acquire_lock can_revoke client write l locks) visited)) [
      | inr n ↦ inl (acquire_locks_lem can_revoke db client write locations visited locks e ∙ rw n)
      | inl y ↦ inr (
        (acquire_each client write visited locks).0,
        (acquire_each client write visited locks).1,
        acquire_locks_lem can_revoke db client write locations visited locks e ∙ rw y,
        λ l h. acquire_each-Has client write visited l locks (inl h),
      )
    ]
