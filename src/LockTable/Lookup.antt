-- ===== src/LockTable/Lookup.antt =====
-- The lock table seen through `find`.
use blobs_db.Base.{
  ℕ, ◌≡◌, refl, Bool, true, false, Option, none, some, List, [], ◌∷◌, if◌then◌else◌, arith,
}
use blobs_db.BlobLocation.{BlobLocation, eq}
use blobs_db.BlobLocation.Order.{eq_iff}
use blobs_db.Lock.{Lock, new_held, acquire}
use blobs_db.Lock.Holders.{holds}
use blobs_db.Lock.Holders
use blobs_db.LockTable.{lookup, acquire_client_lock}

-- At most one lock for each location, and each lock valid.
abbrev pub IsValid : List Lock → Type 0
IsValid [] = Unit {0}
IsValid (k ∷ ks) = (lookup k.location ks ≡ none) × Holders.IsValid k × IsValid ks

-- The client holds a lock at the location.
abbrev pub holds_at : ℕ → BlobLocation → List Lock → Bool
holds_at c l locks = elim (lookup l locks) [ none ↦ false | some k ↦ holds c k ]

-- The client holds the lock, if there is one.
abbrev pub holds_in : ℕ → Option Lock → Bool
holds_in c none = false
holds_in c (some k) = holds c k

-- The lock that `AcquireClientLock` leaves at its location, given the one before.
abbrev pub acquired : ℕ → Bool → BlobLocation → Option Lock → Lock
acquired c w l none = new_held l c w
acquired c w l (some k) = (acquire c w k).1

pub location-acquire : (c : ℕ) (w : Bool) (k : Lock) → (acquire c w k).1.location ≡ k.location
unfolding acquire
location-acquire c true k = ground arith
location-acquire c false k = ground arith

location-new_held : (l : BlobLocation) (c : ℕ) (w : Bool) → (new_held l c w).location ≡ l
unfolding new_held
location-new_held l c true = refl
location-new_held l c false = refl

-- `AcquireClientLock` changes the lock at its location only.
pub lookup-acquire_client_lock :
    (c : ℕ) (w : Bool) (l l' : BlobLocation) (ks : List Lock)
    → lookup l' (acquire_client_lock c w l ks).1
      ≡ (if eq l l' then some (acquired c w l (lookup l ks)) else lookup l' ks)
unfolding lookup acquire_client_lock
lookup-acquire_client_lock c w l l' [] = ground (arith, location-new_held l c w)
lookup-acquire_client_lock c w l l' (k ∷ ks) = ground (
  arith,
  location-acquire c w k,
  eq_iff k.location l,
  eq_iff k.location l',
  eq_iff l l',
  lookup-acquire_client_lock c w l l' ks,
)
