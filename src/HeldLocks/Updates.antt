-- ===== src/HeldLocks/Updates.antt =====
-- What the client library holds after it is told what to keep or revoke, and after it gives up the
-- locks of a range.
use blobs_db.Base.{
  ◌≡◌, ◌∙◌, Bool, true, false, not, ◌&&◌, ◌||◌, List, [], ◌∷◌, arith, if◌then◌else◌,
}
use blobs_db.BlobLocation.{BlobLocation, le}
use blobs_db.BlobLocation.Order.{eq_iff, lt-eq-not-le}
use blobs_db.ClientLocks.{has}
use blobs_db.HeldLocks.{HeldLocks, erase, keep_locks, erase_locks, update_locks, release_lock_range}
use blobs_db.HeldLocks.Sets.{Sorted, has-insert, has-erase, has-erased_range}

module _ (l : BlobLocation) where
  read-keep_locks :
      (old : HeldLocks) (ls : List BlobLocation) (new : HeldLocks)
      → has l (keep_locks old ls new).read ≡ (has l new.read || (has l ls && has l old.read))
  unfolding keep_locks
  read-keep_locks old [] new = ground arith
  read-keep_locks old (m ∷ ls) new =
      read-keep_locks old ls _ ∙ ground (arith, has-insert m new.read l, eq_iff m l)

  write-keep_locks :
      (old : HeldLocks) (ls : List BlobLocation) (new : HeldLocks)
      → has l (keep_locks old ls new).write
        ≡ (has l new.write || (has l ls && (has l old.write && not (has l old.read))))
  unfolding keep_locks
  write-keep_locks old [] new = ground arith
  write-keep_locks old (m ∷ ls) new =
      write-keep_locks old ls _ ∙ ground (arith, has-insert m new.write l, eq_iff m l)

  erase_locks_lem :
      (ls : List BlobLocation) (held : HeldLocks)
      → (has l (erase_locks ls held).read ≡ (has l held.read && not (has l ls)))
        × (has l (erase_locks ls held).write ≡ (has l held.write && not (has l ls)))
  unfolding erase_locks
  erase_locks_lem [] held = ground arith
  erase_locks_lem (m ∷ ls) held = ground (
    arith,
    erase_locks_lem ls record { read = erase m held.read; write = erase m held.write },
    has-erase m held.read l,
    has-erase m held.write l,
  )

-- `UpdateLocks` leaves the locks of the list or those not in it, as `keep` says. A lock that is in
-- both sets is kept as a read lock.
pub update_locks_lem :
    (keep : Bool) (ls : List BlobLocation) (held : HeldLocks) (l : BlobLocation)
    → (has l (update_locks keep ls held).read
        ≡ (has l held.read && (if keep then has l ls else not (has l ls))))
      × (has l (update_locks keep ls held).write ≡ (
          has l held.write && (if keep then has l ls && not (has l held.read) else not (has l ls))))
unfolding update_locks
update_locks_lem true ls held l = ground (
  arith,
  read-keep_locks l held ls record { read = []; write = [] },
  write-keep_locks l held ls record { read = []; write = [] },
)
update_locks_lem false ls held l = erase_locks_lem l ls held

-- `ReleaseLockRange` takes exactly the locks from the begin to the end of the range off, the lock
-- at the end included.
pub release_lock_range_lem :
    (begin end : BlobLocation) (held : HeldLocks) (l : BlobLocation)
    → Sorted held.read
    → Sorted held.write
    → (has l (release_lock_range begin end held).read
        ≡ (has l held.read && not (le begin l && le l end)))
      × (has l (release_lock_range begin end held).write
          ≡ (has l held.write && not (le begin l && le l end)))
unfolding release_lock_range
release_lock_range_lem begin end held l s s' = ground (
  arith,
  has-erased_range begin end held.read l s,
  has-erased_range begin end held.write l s',
  lt-eq-not-le l begin,
  lt-eq-not-le end l,
)
