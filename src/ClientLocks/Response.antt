-- ===== src/ClientLocks/Response.antt =====
-- What the begin of a transaction tells a client: the locks that it still has.
use blobs_db.Base.{
  ℕ, ◌≡◌, ◌%◌, take-all, ◌+◌, ◌≤◌, ◌<◌, ◌^◌, refl, Bool, true, not, ◌&&◌, ◌||◌, some, List, [],
  if◌then◌else◌, filter, length, leb, is_some, arith,
}
use blobs_db.BlobLocation.{BlobLocation}
use blobs_db.Lock.{Lock}
use blobs_db.LockTable.Lookup.{holds_at}
use blobs_db.ClientLocks.{DatabaseLocks, BeginEntry, locks_in, has, begin_entry, locks_to_send}
use blobs_db.ClientLocks.Agreement.{Agrees, filter-Distinct}
use blobs_db.ClientLocks.Releasing.{apply_revoked_locks_lem, kept_locks_lem, length-filter-has}
use blobs_db.HeldLocks.{HeldLocks, update_locks}
use blobs_db.HeldLocks.Updates.{update_locks_lem}

-- The entry that is sent for a database, and the state of the entry afterwards.
abbrev kept_locks : DatabaseLocks → List BlobLocation
kept_locks d = filter (λ l. not (has l d.revoked_locks)) d.locks

abbrev keeps : DatabaseLocks → Bool
keeps d = leb (length (kept_locks d)) (length d.revoked_locks)

abbrev pub sent : DatabaseLocks → BeginEntry
sent d =
    let locks = if keeps d then kept_locks d else d.revoked_locks in
    record { keep = keeps d; n_locks = length locks % 2 ^ 16; locks = locks }

abbrev pub told : DatabaseLocks → DatabaseLocks
told d = record d { locks = kept_locks d; revoked_locks = [] }

module _ (c : ℕ) (table : List Lock) (d : DatabaseLocks) (a : Agrees c table d)
    (short : length d.locks < 2 ^ 64) where
  pub begin_entry_lem : begin_entry d ≡ some (sent d, told d)
  unfolding begin_entry
  begin_entry_lem = rw (apply_revoked_locks_lem c table d a short, begin_entry)

  pub told-Agrees : Agrees c table (told d)
  told-Agrees = record {
    held = λ l. ground (arith, kept_locks_lem c table d a l);
    known = λ l h. cc;
    distinct = filter-Distinct (λ l. not (has l d.revoked_locks)) d.locks a.distinct;
    revoked_distinct = tt;
  }

pub length-sent :
    (c : ℕ) (table : List Lock) (d : DatabaseLocks)
    → Agrees c table d
    → length d.locks < 2 ^ 64
    → is_some d.database ≡ true
    → length (sent d).locks ≡ locks_to_send d
length-sent c table d a short o =
    let count = length-filter-has d.revoked_locks d.locks a.revoked_distinct a.distinct a.known in
    ground (arith, count)

-- The number of locks in the entry of a database is right if it fits into its 16 bits.
pub n_locks_lem :
    (c : ℕ) (table : List Lock) (d : DatabaseLocks)
    → Agrees c table d
    → length d.locks < 2 ^ 64
    → is_some d.database ≡ true
    → locks_to_send d ≤ 65535
    → (sent d).n_locks ≡ length (sent d).locks
n_locks_lem c table d a short o few = omega (arith, length-sent c table d a short o)

-- For an open database, whose entry agrees with the lock table, has a number of locks of 64 bits and
-- no more than 65535 locks to send: at the begin of a transaction the client library, which holds
-- just the locks of the entry, those that are revoked included, recovers from the locks that it
-- reads from the message exactly those that the lock table gives the client: each read lock, and
-- each write lock, but for one that the client holds for reading as well where the message has the
-- locks to keep. The entry then agrees with the table with nothing left to tell, and the message
-- names no more than half of the locks.
pub begin_entry-update_locks :
    (c : ℕ) (table : List Lock) (d : DatabaseLocks) (held : HeldLocks)
    → Agrees c table d
    → length d.locks < 2 ^ 64
    → is_some d.database ≡ true
    → locks_to_send d ≤ 65535
    → ((l : BlobLocation) → (has l held.read || has l held.write) ≡ has l d.locks)
    → (e : BeginEntry) × (d' : DatabaseLocks) × (begin_entry d ≡ some (e, d'))
      × ((l : BlobLocation)
          → (has l (update_locks e.keep (locks_in e) held).read
              ≡ (has l held.read && holds_at c l table))
            × (has l (update_locks e.keep (locks_in e) held).write
                ≡ (has l held.write && holds_at c l table && not (e.keep && has l held.read))))
      × Agrees c table d'
      × (d'.revoked_locks ≡ [])
      × (length (locks_in e) + length (locks_in e) ≤ length d.locks)
begin_entry-update_locks c table d held a short o few all_held =
    let count = length-filter-has d.revoked_locks d.locks a.revoked_distinct a.distinct a.known in
    let read : locks_in (sent d) ≡ (sent d).locks =
      take-all (sent d).n_locks (sent d).locks
        (omega (arith, n_locks_lem c table d a short o few)) in
    (
      sent d,
      told d,
      begin_entry_lem c table d a short,
      λ l. rw read (
          ground (
            arith,
            update_locks_lem (keeps d) (sent d).locks held l,
            kept_locks_lem c table d a l,
            a.held l,
            all_held l,
          )),
      told-Agrees c table d a short,
      refl,
      rw read (ground (arith, count)),
    )
