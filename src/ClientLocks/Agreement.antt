-- ===== src/ClientLocks/Agreement.antt =====
-- The entry of a client against the lock table: the locks of the entry that are not noted as
-- revoked are those that the table gives the client.
use blobs_db.Base.{
  ℕ, ◌≡◌, refl, Bool, true, false, not, ◌&&◌, ◌||◌, List, [], ◌∷◌, ◌++◌, filter, any-append, arith,
}
use blobs_db.BlobLocation.{BlobLocation, eq}
use blobs_db.BlobLocation.Order.{eq_iff}
use blobs_db.Lock.{Lock}
use blobs_db.LockTable.Lookup.{holds_at}
use blobs_db.ClientLocks.{DatabaseLocks, has}

-- No location stands twice in the list.
abbrev pub Distinct : List BlobLocation → Type 0
Distinct [] = Unit {0}
Distinct (l ∷ ls) = (has l ls ≡ false) × Distinct ls

pub record Agrees (c : ℕ) (table : List Lock) (d : DatabaseLocks) : Type 0 where
  pub held :
      (l : BlobLocation) → holds_at c l table ≡ (has l d.locks && not (has l d.revoked_locks))
  pub known : (l : BlobLocation) → has l d.revoked_locks ≡ true → has l d.locks ≡ true
  pub distinct : Distinct d.locks
  pub revoked_distinct : Distinct d.revoked_locks

pub has-append :
    (ls ms : List BlobLocation) (l : BlobLocation) → has l (ls ++ ms) ≡ (has l ls || has l ms)
has-append ls ms l = any-append (λ m. eq m l) ls ms

pub append-Distinct :
    (ls : List BlobLocation) (l : BlobLocation)
    → Distinct ls
    → has l ls ≡ false
    → Distinct (ls ++ (l ∷ []))
append-Distinct [] l d h = (refl, tt)
append-Distinct (m ∷ ls) l d h =
    ground (arith, append-Distinct ls l d.1, has-append ls (l ∷ []) m, eq_iff m l, eq_iff l m)

pub has-filter :
    (p : BlobLocation → Bool) (ls : List BlobLocation) (l : BlobLocation)
    → has l (filter p ls) ≡ (has l ls && p l)
has-filter p [] l = refl
has-filter p (m ∷ ls) l = ground (arith, has-filter p ls l, eq_iff m l)

pub filter-Distinct :
    (p : BlobLocation → Bool) (ls : List BlobLocation) → Distinct ls → Distinct (filter p ls)
filter-Distinct p [] d = tt
filter-Distinct p (l ∷ ls) d = ground (arith, filter-Distinct p ls d.1, has-filter p ls l)
