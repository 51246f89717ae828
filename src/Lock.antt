-- ===== src/Lock.antt =====
-- ServerLib/Lock.cpp: one lock with its holders. The `StickyLockInterface` that the methods take
-- enters as the test `can_revoke` (`CanRevokeStickyLock`) and as the list of clients for which
-- `RevokeStickyLock(client, location)` is called, in order.
pub mod Conflicts
pub mod Holders
use blobs_db.Base.{
  ℕ, Bool, true, false, not, ◌&&◌, ◌||◌, Option, none, some, List, [], ◌∷◌, ◌++◌, all, filter,
  contains, is_empty, ◌==◌, if◌then◌else◌,
}
use blobs_db.BlobLocation.{BlobLocation}

pub record Lock : Type 0 where
  pub location : BlobLocation
  pub read : List ℕ
  pub write : Option ℕ

-- `Lock(location)` and `Lock(location, client, writeLock)`
unfoldable pub new : BlobLocation → Lock
new l = record { location = l; read = []; write = none }

unfoldable pub new_held : BlobLocation → ℕ → Bool → Lock
new_held l client true = record { location = l; read = []; write = some client }
new_held l client false = record { location = l; read = client ∷ []; write = none }

-- `!write || *write == client || stickyLocks.CanRevokeStickyLock(*write)`
can_pass_write : (ℕ → Bool) → ℕ → Option ℕ → Bool
can_pass_write can_revoke client none = true
can_pass_write can_revoke client (some w) = w == client || can_revoke w

can_acquire_write : (ℕ → Bool) → ℕ → List ℕ → Option ℕ → Bool
can_acquire_write can_revoke client read (some w) = w == client || can_revoke w
can_acquire_write can_revoke client read none = all (λ l. l == client || can_revoke l) read

unfoldable pub can_acquire : (ℕ → Bool) → ℕ → Bool → Lock → Bool
unfolding can_pass_write can_acquire_write
can_acquire can_revoke client false lock = can_pass_write can_revoke client lock.write
can_acquire can_revoke client true lock = can_acquire_write can_revoke client lock.read lock.write

-- `*write != client && !stickyLocks.CanRevokeStickyLock(*write)` for the holder of a write lock
write_conflict : (ℕ → Bool) → ℕ → Option ℕ → List ℕ
write_conflict can_revoke client none = []
write_conflict can_revoke client (some w) =
    if not (w == client) && not (can_revoke w) then w ∷ [] else []

conflicts_for_write : (ℕ → Bool) → ℕ → List ℕ → Option ℕ → List ℕ
unfolding write_conflict
conflicts_for_write can_revoke client read (some w) = write_conflict can_revoke client (some w)
conflicts_for_write can_revoke client read none =
    filter (λ l. not (l == client) && not (can_revoke l)) read

unfoldable pub collect_conflicting_clients : (ℕ → Bool) → ℕ → Bool → Lock → List ℕ
unfolding write_conflict conflicts_for_write
collect_conflicting_clients can_revoke client false lock =
    write_conflict can_revoke client lock.write
collect_conflicting_clients can_revoke client true lock =
    conflicts_for_write can_revoke client lock.read lock.write

-- The read locks of other clients.
abbrev others : ℕ → List ℕ → List ℕ
others client read = filter (λ l. not (l == client)) read

acquire_write : ℕ → Lock → Option ℕ → List ℕ × Lock
acquire_write client lock none =
    (others client lock.read, record lock { read = []; write = some client })
acquire_write client lock (some w) = (
  if w == client then others client lock.read else w ∷ [],
  record lock { read = []; write = some client },
)

-- `push_back` unless the client is found
enter_read : ℕ → List ℕ → List ℕ
enter_read client read = if contains read client then read else read ++ (client ∷ [])

acquire_read : ℕ → Lock → Option ℕ → List ℕ × Lock
unfolding enter_read
acquire_read client lock none = ([], record lock { read = enter_read client lock.read })
acquire_read client lock (some w) =
    if w == client
    then ([], lock)
    else (w ∷ [], record lock { read = enter_read client lock.read; write = none })

-- The clients whose sticky lock is revoked, and the lock afterwards.
unfoldable pub acquire : ℕ → Bool → Lock → List ℕ × Lock
unfolding acquire_write acquire_read
acquire client true lock = acquire_write client lock lock.write
acquire client false lock = acquire_read client lock lock.write

release_from : ℕ → Lock → Option ℕ → Bool × Lock
release_from client lock (some w) =
    if w == client then (true, record lock { write = none }) else (false, lock)
release_from client lock none =
    (is_empty (others client lock.read), record lock { read = others client lock.read })

-- `none` of the source's assertion (another client holds the write lock) is the result `false`, as
-- in a build without assertions.
unfoldable pub release : ℕ → Lock → Bool × Lock
unfolding release_from
release client lock = release_from client lock lock.write

is_client : Option ℕ → ℕ → Bool
is_client none client = false
is_client (some w) client = w == client

unfoldable pub owns_write_lock : ℕ → Lock → Bool
unfolding is_client
owns_write_lock client lock = is_client lock.write client
