-- ===== src/Commit/Implicit.antt =====
-- The locks that a client gets by a commit that creates.
use blobs_db.Base.{
  ℕ, ◌≡◌, refl, ◌∙◌, ap, Bool, true, false, not, ◌&&◌, ◌||◌, inl, inr, Option, none, some, List, [],
  ◌∷◌, any, any-append, filter, Bool-cases, arith,
}
use blobs_db.BlobLocation.{BlobLocation, eq}
use blobs_db.BlobLocation.Order.{eq_iff}
use blobs_db.Lock.{Lock, new_held, acquire, owns_write_lock}
use blobs_db.LockTable.{
  lookup, client_owns_write_lock, acquire_client_lock, acquire_each, acquire_implicit_write_locks,
}
use blobs_db.LockTable.Lookup.{acquired, lookup-acquire_client_lock}
use blobs_db.BlobLocationRanges.{BlobLocationRange}
use blobs_db.Commit.Databases.{locks_of_range, implicit_locks}

-- One of the locations is the location.
abbrev pub names : List BlobLocation → BlobLocation → Bool
names ls l = any (λ m. eq m l) ls

names-filter :
    (p : BlobLocation → Bool) (l : BlobLocation) (ls : List BlobLocation)
    → names (filter p ls) l ≡ (p l && names ls l)
names-filter p l [] = ground arith
names-filter p l (m ∷ ls) = elim (Bool-cases (eq m l)) [
  | inl y ↦
      let same : p m ≡ p l = ap p (ground (arith, eq_iff m l)) in
      elim (Bool-cases (p m)) [ inl q ↦ ground arith | inr q ↦ ground (arith, names-filter p l ls) ]
  | inr n ↦ ground (arith, names-filter p l ls)
]

-- The list has the locks that the creation of the ranges brings and that the client does not own.
implicit_locks-names :
    (client : ℕ) (locks : List Lock) (ranges : List BlobLocationRange) (l : BlobLocation)
    → names (implicit_locks client locks ranges) l ≡ (
        not (client_owns_write_lock client l locks) && any (λ r. names (locks_of_range r) l) ranges)
unfolding implicit_locks
implicit_locks-names client locks [] l = ground arith
implicit_locks-names client locks (r ∷ rs) l =
    let free = λ (m : BlobLocation). not (client_owns_write_lock client m locks) in
    any-append (λ m. eq m l) (filter free (locks_of_range r)) (implicit_locks client locks rs)
    ∙ ground (arith, names-filter free l (locks_of_range r), implicit_locks-names client locks rs l)

owns-acquired :
    (c : ℕ) (l : BlobLocation) (o : Option Lock) → owns_write_lock c (acquired c true l o) ≡ true
unfolding owns_write_lock acquire new_held
owns-acquired c l none = ground arith
owns-acquired c l (some k) = ground arith

owns-acquire_client_lock :
    (c : ℕ) (l l' : BlobLocation) (locks : List Lock)
    → client_owns_write_lock c l' (acquire_client_lock c true l locks).1
      ≡ (eq l l' || client_owns_write_lock c l' locks)
unfolding client_owns_write_lock
owns-acquire_client_lock c l l' locks =
    ap (λ (o : Option Lock). elim o [ none ↦ false | some k ↦ owns_write_lock c k ])
      (lookup-acquire_client_lock c true l l' locks)
    ∙ elim (Bool-cases (eq l l')) [
      | inl y ↦ rw y (owns-acquired c l (lookup l locks))
      | inr n ↦ rw n refl
    ]

owns-acquire_each :
    (c : ℕ) (ls : List BlobLocation) (l : BlobLocation) (locks : List Lock)
    → client_owns_write_lock c l (acquire_each c true ls locks).1
      ≡ (names ls l || client_owns_write_lock c l locks)
unfolding acquire_each
owns-acquire_each c [] l locks = refl
owns-acquire_each c (m ∷ ls) l locks = ground (
  arith,
  owns-acquire_each c ls l (acquire_client_lock c true m locks).1,
  owns-acquire_client_lock c m l locks,
)

-- Once the implicit locks are acquired, the client owns exactly the write locks that it owned before
-- and those that the creation of the ranges brings.
pub owns-implicit_locks :
    (client : ℕ) (locks : List Lock) (ranges : List BlobLocationRange) (l : BlobLocation)
    → client_owns_write_lock client l
        (acquire_implicit_write_locks client (implicit_locks client locks ranges) locks).1
      ≡ (client_owns_write_lock client l locks || any (λ r. names (locks_of_range r) l) ranges)
unfolding acquire_implicit_write_locks
owns-implicit_locks client locks ranges l = ground (
  arith,
  owns-acquire_each client (implicit_locks client locks ranges) l locks,
  implicit_locks-names client locks ranges l,
)
