-- ===== src/Lock/Holders.antt =====
-- Who holds a lock after it is acquired or released.
use blobs_db.Base.{
  ℕ, ◌≡◌, ◌⊎◌, Bool, true, false, not, ◌&&◌, ◌||◌, none, List, [], ◌∷◌, all, contains, is_empty,
  is_some, contains-filter, contains-append, Distinct, filter-Distinct, append-Distinct, ◌==◌,
  arith,
}
use blobs_db.BlobLocation.{BlobLocation}
use blobs_db.Lock.{Lock, new, new_held, can_acquire, acquire, release, owns_write_lock}

-- The client holds a read or a write lock.
abbrev pub holds : ℕ → Lock → Bool
holds c lock = owns_write_lock c lock || contains lock.read c

-- There are no readers beside a writer, and no client is entered twice.
pub record IsValid (lock : Lock) : Type 0 where
  pub exclusive : (lock.read ≡ []) ⊎ (lock.write ≡ none)
  pub distinct : Distinct lock.read

pub new-IsValid : (l : BlobLocation) → IsValid (new l)
unfolding new
new-IsValid l = ground arith

pub new_held-IsValid : (l : BlobLocation) (c : ℕ) (w : Bool) → IsValid (new_held l c w)
unfolding new_held
new_held-IsValid l c true = ground arith
new_held-IsValid l c false = ground arith

acquire-exclusive :
    (c : ℕ) (w : Bool) (lock : Lock)
    → IsValid lock
    → ((acquire c w lock).1.read ≡ []) ⊎ ((acquire c w lock).1.write ≡ none)
unfolding acquire
acquire-exclusive c true lock v = ground arith
acquire-exclusive c false lock v = ground arith

acquire-Distinct :
    (c : ℕ) (w : Bool) (lock : Lock) → IsValid lock → Distinct (acquire c w lock).1.read
unfolding acquire
acquire-Distinct c true lock v = ground arith
acquire-Distinct c false lock v = ground (arith, append-Distinct lock.read c)

-- `Acquire` keeps the lock valid, in either mode and whoever held it.
pub acquire-IsValid : (c : ℕ) (w : Bool) (lock : Lock) → IsValid lock → IsValid (acquire c w lock).1
acquire-IsValid c w lock v = record {
  exclusive = acquire-exclusive c w lock v;
  distinct = acquire-Distinct c w lock v;
}

-- `Release` keeps the lock valid.
pub release-IsValid : (c : ℕ) (lock : Lock) → IsValid lock → IsValid (release c lock).1
unfolding release
release-IsValid c lock v = ground (arith, filter-Distinct (λ l. not (l == c)) lock.read)

-- After `Acquire` the holders are the client and those of the old holders that were not revoked.
pub holds-acquire :
    (client : ℕ) (w : Bool) (lock : Lock) (c : ℕ)
    → IsValid lock
    → holds c (acquire client w lock).1
      ≡ ((c == client) || (holds c lock && not (contains (acquire client w lock).0 c)))
unfolding acquire owns_write_lock
holds-acquire client true lock c v =
    ground (arith, contains-filter (λ l. not (l == client)) lock.read c)
holds-acquire client false lock c v = ground (arith, contains-append lock.read (client ∷ []) c)

revoked_others :
    (can_revoke : ℕ → Bool) (client : ℕ) (read : List ℕ) (c : ℕ)
    → all (λ l. l == client || can_revoke l) read ≡ true
    → contains read c ≡ true
    → (c == client) ≡ false
    → can_revoke c ≡ true
revoked_others can_revoke client [] c a h n = cc
revoked_others can_revoke client (x ∷ xs) c a h n =
    ground (arith, revoked_others can_revoke client xs c)

-- Where `CanAcquire` allows it, `Acquire` revokes locks of other clients only, which hold the lock
-- and are in no transaction.
pub acquire_revokes_sticky_only :
    (can_revoke : ℕ → Bool) (client : ℕ) (w : Bool) (lock : Lock) (c : ℕ)
    → IsValid lock
    → can_acquire can_revoke client w lock ≡ true
    → contains (acquire client w lock).0 c ≡ true
    → ((c == client) ≡ false) × (holds c lock ≡ true) × (can_revoke c ≡ true)
unfolding acquire can_acquire owns_write_lock
acquire_revokes_sticky_only can_revoke client true lock c v a h = ground (
  arith,
  contains-filter (λ l. not (l == client)) lock.read c,
  revoked_others can_revoke client lock.read c,
)
acquire_revokes_sticky_only can_revoke client false lock c v a h = ground arith

-- Who owns the write lock after `Acquire`: the client if it asked for it; else only the client,
-- and only if it owned it before (a write lock is not downgraded).
pub owns_write_lock-acquire :
    (client : ℕ) (w : Bool) (lock : Lock) (c : ℕ)
    → owns_write_lock c (acquire client w lock).1
      ≡ ((c == client) && (w || owns_write_lock client lock))
unfolding acquire owns_write_lock
owns_write_lock-acquire client true lock c = ground arith
owns_write_lock-acquire client false lock c = ground arith

active_writer :
    (can_revoke : ℕ → Bool) (client : ℕ) (w : Bool) (lock : Lock) (c : ℕ)
    → can_acquire can_revoke client w lock ≡ true
    → can_revoke c ≡ false
    → owns_write_lock c lock ≡ true
    → owns_write_lock c (acquire client w lock).1 ≡ true
unfolding can_acquire acquire owns_write_lock
active_writer can_revoke client true lock c a active own = ground arith
active_writer can_revoke client false lock c a active own = ground arith

-- A client in a transaction keeps its lock, and a write lock as such, when another client
-- acquires the lock as `CanAcquire` allows.
pub active_client_keeps_lock :
    (can_revoke : ℕ → Bool) (client : ℕ) (w : Bool) (lock : Lock) (c : ℕ)
    → IsValid lock
    → can_acquire can_revoke client w lock ≡ true
    → can_revoke c ≡ false
    → holds c lock ≡ true
    → (holds c (acquire client w lock).1 ≡ true)
      × (owns_write_lock c lock ≡ true → owns_write_lock c (acquire client w lock).1 ≡ true)
active_client_keeps_lock can_revoke client w lock c v a active held = (
  ground (
    arith,
    holds-acquire client w lock c v,
    acquire_revokes_sticky_only can_revoke client w lock c v,
  ),
  active_writer can_revoke client w lock c a active,
)

-- `Release` by a client that holds the lock takes exactly that client off, and answers whether
-- no holder is left.
pub release_lem :
    (client : ℕ) (lock : Lock)
    → IsValid lock
    → holds client lock ≡ true
    → ((c : ℕ) → holds c (release client lock).1 ≡ (holds c lock && not (c == client)))
      × ((release client lock).0
          ≡ (is_empty (release client lock).1.read && not (is_some (release client lock).1.write)))
unfolding release owns_write_lock
release_lem client lock v h =
    (λ c. ground (arith, contains-filter (λ l. not (l == client)) lock.read c), ground arith)
