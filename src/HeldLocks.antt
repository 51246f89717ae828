-- ===== src/HeldLocks.antt =====
-- ClientLib/HeldLocks.cpp: the locks that a client holds, as the client library keeps them. A
-- `std::set` of locations is the list of its members in their order.
pub mod Sets
pub mod Updates
use blobs_db.Base.{Bool, true, false, not, List, [], ◌∷◌, ◌++◌, filter, if◌then◌else◌}
use blobs_db.BlobLocation.{BlobLocation, eq, lt}
use blobs_db.ClientLocks.{has}

pub record HeldLocks : Type 0 where
  pub read : List BlobLocation
  pub write : List BlobLocation

-- `std::set::insert`
unfoldable pub insert : BlobLocation → List BlobLocation → List BlobLocation
insert l [] = l ∷ []
insert l (m ∷ ms) =
    let rest = insert l ms in if lt l m then l ∷ m ∷ ms else if lt m l then m ∷ rest else m ∷ ms

-- `std::set::erase` of a key
unfoldable pub erase : BlobLocation → List BlobLocation → List BlobLocation
erase l ms = filter (λ m. not (eq m l)) ms

-- The members before and from `lower_bound(l)`, and those from `upper_bound(l)`.
unfoldable pub before_lower_bound : BlobLocation → List BlobLocation → List BlobLocation
before_lower_bound l [] = []
before_lower_bound l (m ∷ ms) = if lt m l then m ∷ before_lower_bound l ms else []

unfoldable pub from_upper_bound : BlobLocation → List BlobLocation → List BlobLocation
from_upper_bound l [] = []
from_upper_bound l (m ∷ ms) = if lt l m then m ∷ ms else from_upper_bound l ms

-- The loop over the locks to keep; the old sets are those moved to `allLocks`.
unfoldable pub keep_locks : HeldLocks → List BlobLocation → HeldLocks → HeldLocks
unfolding insert
keep_locks old [] new = new
keep_locks old (l ∷ ls) new = keep_locks old ls (
    if has l old.read
    then record new { read = insert l new.read }
    else if has l old.write
    then record new { write = insert l new.write }
    else new)

unfoldable pub erase_locks : List BlobLocation → HeldLocks → HeldLocks
unfolding erase
erase_locks [] held = held
erase_locks (l ∷ ls) held =
    erase_locks ls record { read = erase l held.read; write = erase l held.write }

-- The sets that `std::move` leaves behind are empty, as the library's are.
unfoldable pub update_locks : Bool → List BlobLocation → HeldLocks → HeldLocks
unfolding keep_locks erase_locks
update_locks keep ls held =
    if keep then keep_locks held ls record { read = []; write = [] } else erase_locks ls held

-- `erase(lower_bound(begin), upper_bound(end))` in each set
unfoldable pub release_lock_range : BlobLocation → BlobLocation → HeldLocks → HeldLocks
unfolding before_lower_bound from_upper_bound
release_lock_range begin end held = record {
  read = before_lower_bound begin held.read ++ from_upper_bound end held.read;
  write = before_lower_bound begin held.write ++ from_upper_bound end held.write;
}
