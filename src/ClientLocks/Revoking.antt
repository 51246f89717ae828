-- ===== src/ClientLocks/Revoking.antt =====
-- One lock that a client acquires, and its revocations: the lock table and the entry of one client
-- after them (AcquireClientLock of ServerLib/Database.cpp, RevokeStickyLock and AddLock).
use blobs_db.Base.{
  ℕ, ◌≡◌, ◌⊎◌, refl, ap, sym, subst, ◌∙◌, Bool, true, false, not, ◌&&◌, ◌||◌, Option, none, some,
  List, [], ◌∷◌, ◌++◌, ◌==◌, if◌then◌else◌, contains, inl, inr, arith, Bool-cases, Option-cases,
  ==_iff, all, filter-Distinct, contains-filter,
}
use blobs_db.Base
use blobs_db.BlobLocation.{BlobLocation, eq}
use blobs_db.BlobLocation.Order.{eq_iff}
use blobs_db.Lock.{Lock, new_held, acquire, owns_write_lock}
use blobs_db.Lock.Holders.{holds, holds-acquire}
use blobs_db.Lock.Holders
use blobs_db.LockTable.{Revocation, revocations, lookup, acquire_client_lock}
use blobs_db.LockTable.Lookup.{IsValid, holds_at, holds_in, acquired, lookup-acquire_client_lock}
use blobs_db.LockTable.Acquisition.{lookup-IsValid}
use blobs_db.ClientLocks.{DatabaseLocks, has, add_lock, revoke_sticky_lock, revoke_sticky_locks}
use blobs_db.ClientLocks.Agreement.{Agrees, has-append, append-Distinct}

-- The clients that lose their lock at the location.
abbrev pub revoked_by : ℕ → Bool → Option Lock → List ℕ
revoked_by c w none = []
revoked_by c w (some k) = (acquire c w k).0

pub revoked-acquire_client_lock :
    (c : ℕ) (w : Bool) (l : BlobLocation) (ks : List Lock)
    → (acquire_client_lock c w l ks).0 ≡ revocations l (revoked_by c w (lookup l ks))
unfolding acquire_client_lock lookup
revoked-acquire_client_lock c w l [] = refl
revoked-acquire_client_lock c w l (k ∷ ks) = ground (arith, revoked-acquire_client_lock c w l ks)

acquire-revoked :
    (c : ℕ) (w : Bool) (k : Lock) (c' : ℕ)
    → Holders.IsValid k
    → contains (acquire c w k).0 c' ≡ true
    → ((c' == c) ≡ false) × (holds c' k ≡ true)
unfolding acquire owns_write_lock
acquire-revoked c true k c' v h = ground (arith, contains-filter (λ l. not (l == c)) k.read c')
acquire-revoked c false k c' v h = ground arith

acquire-revoked-Distinct :
    (c : ℕ) (w : Bool) (k : Lock) → Holders.IsValid k → Base.Distinct (acquire c w k).0
unfolding acquire
acquire-revoked-Distinct c true k v = ground (arith, filter-Distinct (λ l. not (l == c)) k.read)
acquire-revoked-Distinct c false k v = ground arith

module _ (c : ℕ) (w : Bool) (l : BlobLocation) (table : List Lock) (v : IsValid table) where
  pub revoked_by_lem :
      (c' : ℕ)
      → contains (revoked_by c w (lookup l table)) c' ≡ true
      → ((c' == c) ≡ false) × (holds_at c' l table ≡ true)
  revoked_by_lem c' h = elim (Option-cases (lookup l table)) [
    | inl n ↦ absurd (ground arith)
    | inr (k, e) ↦
        rw (e, holds_at) (acquire-revoked c w k c' (lookup-IsValid l table v k e) (rw e at h))
  ]

  pub revoked_by-Distinct : Base.Distinct (revoked_by c w (lookup l table))
  revoked_by-Distinct = elim (Option-cases (lookup l table)) [
    | inl n ↦ rw n tt
    | inr (k, e) ↦ rw e (acquire-revoked-Distinct c w k (lookup-IsValid l table v k e))
  ]

  holds-acquired :
      (c' : ℕ) (o : Option Lock)
      → lookup l table ≡ o
      → holds c' (acquired c w l o)
        ≡ ((c' == c) || (holds_in c' o && not (contains (revoked_by c w o) c')))
  unfolding new_held owns_write_lock
  holds-acquired c' none e = elim (Bool-cases w) [
    | inl y ↦ ground (arith, y)
    | inr n ↦ ground (arith, n)
  ]
  holds-acquired c' (some k) e = holds-acquire c w k c' (lookup-IsValid l table v k e)

  pub holds_at-acquire_client_lock :
      (c' : ℕ) (l' : BlobLocation)
      → holds_at c' l' (acquire_client_lock c w l table).1 ≡ (
          (eq l l' && c' == c)
          || (holds_at c' l' table
              && not (eq l l' && contains (revoked_by c w (lookup l table)) c')))
  holds_at-acquire_client_lock c' l' =
      ap (holds_in c') (lookup-acquire_client_lock c w l l' table) ∙ here (eq l l') refl
    where
      here :
          (b : Bool)
          → eq l l' ≡ b
          → holds_in c' (if b then some (acquired c w l (lookup l table)) else lookup l' table) ≡ (
              (b && c' == c)
              || (holds_at c' l' table && not (b && contains (revoked_by c w (lookup l table)) c')))
      here true y =
          holds-acquired c' (lookup l table) refl
          ∙ ap
              (λ m.
                (c' == c)
                || (holds_at c' m table && not (contains (revoked_by c w (lookup l table)) c')))
              ((eq_iff l l').0 y)
      here false n = ground arith

-- The calls of `RevokeStickyLock` for the locks at one location reach each client at most once.
revoke_sticky_locks-no :
    (c : ℕ) (l : BlobLocation) (cs : List ℕ) (d : DatabaseLocks)
    → contains cs c ≡ false
    → revoke_sticky_locks c (revocations l cs) d ≡ d
unfolding revoke_sticky_locks
revoke_sticky_locks-no c l [] d h = refl
revoke_sticky_locks-no c l (x ∷ xs) d h = ground (arith, revoke_sticky_locks-no c l xs d)

pub revoke_sticky_locks-revocations :
    (c : ℕ) (l : BlobLocation) (cs : List ℕ) (d : DatabaseLocks)
    → Base.Distinct cs
    → revoke_sticky_locks c (revocations l cs) d
      ≡ (if contains cs c then revoke_sticky_lock l d else d)
unfolding revoke_sticky_locks
revoke_sticky_locks-revocations c l [] d v = refl
revoke_sticky_locks-revocations c l (x ∷ xs) d v = elim (Bool-cases (x == c)) [
  | inl y ↦ ground (arith, revoke_sticky_locks-no c l xs (revoke_sticky_lock l d))
  | inr n ↦ ground (arith, revoke_sticky_locks-revocations c l xs d v.1)
]

pub revoke_sticky_locks-append :
    (c : ℕ) (rs qs : List Revocation) (d : DatabaseLocks)
    → revoke_sticky_locks c (rs ++ qs) d ≡ revoke_sticky_locks c qs (revoke_sticky_locks c rs d)
unfolding revoke_sticky_locks
revoke_sticky_locks-append c [] qs d = refl
revoke_sticky_locks-append c (r ∷ rs) qs d = revoke_sticky_locks-append c rs qs _

-- A sticky lock that its client is told of as revoked.
pub revoke_sticky_lock-Agrees :
    (c : ℕ) (l : BlobLocation) (table table' : List Lock) (d : DatabaseLocks)
    → Agrees c table d
    → holds_at c l table ≡ true
    → ((l' : BlobLocation) → holds_at c l' table' ≡ (holds_at c l' table && not (eq l l')))
    → Agrees c table' (revoke_sticky_lock l d)
unfolding revoke_sticky_lock
revoke_sticky_lock-Agrees c l table table' d a h f = record {
  held = λ l'. ground (arith, f l', a.held l', has-append d.revoked_locks (l ∷ []) l');
  known = λ l'.
      ground (arith, a.known l', a.held l, eq_iff l l', has-append d.revoked_locks (l ∷ []) l');
  distinct = a.distinct;
  revoked_distinct =
      append-Distinct d.revoked_locks l a.revoked_distinct (ground (arith, a.held l));
}

-- A lock that the client enters as its own.
pub add_lock-Agrees :
    (c : ℕ) (l : BlobLocation) (table table' : List Lock) (d : DatabaseLocks)
    → Agrees c table d
    → d.revoked_locks ≡ []
    → ((l' : BlobLocation) → holds_at c l' table' ≡ (eq l l' || holds_at c l' table))
    → Agrees c table' (add_lock l d)
unfolding add_lock
add_lock-Agrees c l table table' d a e f = elim (Bool-cases (has l d.locks)) [
  | inl y ↦
      rw (y, add_lock)
        record {
          held = λ l'. ground (arith, f l', a.held l', eq_iff l l', e);
          known = a.known;
          distinct = a.distinct;
          revoked_distinct = a.revoked_distinct;
        }
  | inr n ↦
      rw (n, add_lock)
        record {
          held = λ l'. ground (arith, f l', a.held l', has-append d.locks (l ∷ []) l', e);
          known = λ l'. ground (arith, a.known l', has-append d.locks (l ∷ []) l');
          distinct = append-Distinct d.locks l a.distinct n;
          revoked_distinct = a.revoked_distinct;
        }
]

pub unchanged-Agrees :
    (c : ℕ) (table table' : List Lock) (d : DatabaseLocks)
    → Agrees c table d
    → ((l' : BlobLocation) → holds_at c l' table' ≡ holds_at c l' table)
    → Agrees c table' d
unchanged-Agrees c table table' d a f = record {
  held = λ l'. f l' ∙ a.held l';
  known = a.known;
  distinct = a.distinct;
  revoked_distinct = a.revoked_distinct;
}
