-- ===== src/ClientDatabase.antt =====
-- ClientLib/Database.cpp: the sticky locks of a database in the client library, and the reads and
-- writes of blobs in a transaction; with Abort of ClientLib/Transaction.cpp. The session has one
-- database here. What the server answers is a parameter. An operation comes to an outcome and the
-- state after it.
pub mod Requests
pub mod Lists
pub mod Creations
pub mod Deletions
pub mod Committing
pub mod CommittedCache
pub mod OwnWrites
pub mod ListRoundTrip
pub mod Created
pub mod CreatedLocks
pub mod Removed
pub mod Outdated
use blobs_db.Base.{
  add64, ℕ, ◌+◌, ◌-◌, ◌^◌, Bool, true, false, not, ◌&&◌, ◌||◌, Option, none, some, List, [], ◌∷◌,
  ◌++◌, ◌==◌, ltb, ◌≡◌, refl, leb, if◌then◌else◌, filter,
}
use blobs_db.BlobLocation.{BlobLocation, at}
use blobs_db.HeldLocks.{HeldLocks, update_locks}
use blobs_db.StdSet.{find, assign, erase}
use blobs_db.BlobCache.{CachedBlob, Cache, get, set, update_txn_id_for_held_locks}
use blobs_db.Outcome.{
  Exception, deadlock, cannot_write_lock_in_mvcc, Outcome, returned, thrown, assertion_failed,
}
use blobs_db.Transaction.Orders.{location_less}
use blobs_db.Transaction.{
  DatabaseState, new_state, ensure_blob_not_deleted, get_lock_type, acquired_lock, write_blob,
  read_blob,
}

-- A running transaction; `none` for a database that it has not accessed.
pub record RunningTransaction : Type 0 where
  pub id : ℕ
  pub state : Option DatabaseState

pub record Database : Type 0 where
  pub cache : Cache
  pub sticky_locks : Option HeldLocks
  pub mvcc_setting : Bool
  pub mvcc_active : Bool
  pub transaction : Option RunningTransaction
  pub next_transaction_id : ℕ

abbrev pub state_of : RunningTransaction → DatabaseState
state_of t = elim t.state [ none ↦ new_state record { read = []; write = [] } | some s ↦ s ]

abbrev pub with_state : RunningTransaction → DatabaseState → Database → Database
with_state t s db = record db { transaction = some (record t { state = some s }) }

-- What the server answers to a request for one blob: the commit id and the content, which is not
-- sent if the client has named this commit id.
pub data Answer : Type 0 where
  sent : ℕ → List ℕ → Answer
  refused : Exception → Answer

pub record Server : Type 0 where
  pub keep : Bool
  pub locks : List BlobLocation
  pub read : BlobLocation → ℕ → Bool → Answer
  pub lock : BlobLocation → Answer

-- An outcome and the database after it.
abbrev pub M : Type 0 → Type 0
M A = Database → Outcome A × Database

-- What follows on an operation that has returned.
abbrev pub continue_with : {A B : Type 0} → (A → M B) → Outcome A × Database → Outcome B × Database
continue_with f (returned a, db) = f a db
continue_with f (thrown e, db) = (thrown e, db)
continue_with f (assertion_failed, db) = (assertion_failed, db)

infixl 5 ◌>>=◌
abbrev pub ◌>>=◌ : {A B : Type 0} → M A → (A → M B) → M B
◌>>=◌ m f db = continue_with f (m db)

-- Inversion of a bind that returns.
continue_with-returned :
    {A B : Type 0} (f : A → M B) (r : Outcome A × Database) {b : B}
    → (continue_with f r).0 ≡ returned b
    → (a : A) × (r.0 ≡ returned a) × (continue_with f r ≡ f a r.1)
continue_with-returned f (returned a, db) h = (a, refl, refl)
continue_with-returned f (thrown e, db) h = cc
continue_with-returned f (assertion_failed, db) h = cc

pub >>=-returned :
    {A B : Type 0} (m : M A) (f : A → M B) (db : Database) {b : B}
    → ((m >>= f) db).0 ≡ returned b
    → (a : A) × ((m db).0 ≡ returned a) × ((m >>= f) db ≡ f a (m db).1)
>>=-returned m f db h = continue_with-returned f (m db) h

-- `ApplyStickyLocksToTansaction`
unfoldable pub apply_sticky_locks :
    RunningTransaction → Database → Outcome RunningTransaction × Database
unfolding update_txn_id_for_held_locks
apply_sticky_locks t db = elim db.sticky_locks [
  | none ↦ (returned t, db)
  | some locks ↦ elim t.state [
    | some s ↦ (assertion_failed, db)
    | none ↦ (
      returned (record t { state = some (new_state locks) }),
      record db {
        cache = update_txn_id_for_held_locks locks t.id db.cache;
        sticky_locks = none;
        transaction = some (record t { state = some (new_state locks) });
      },
    )
  ]
]

-- The part of `GetTransaction` that begins a transaction, which the server allows, with its answer on
-- the sticky locks. Until its end the mode stays the one that is set now (`FixMVCC`).
abbrev pub first_of : Database → RunningTransaction
first_of db = record { id = db.next_transaction_id; state = none }

unfoldable pub begin_transaction : Server → Database → Database
begin_transaction server db = record db {
  sticky_locks = elim db.sticky_locks [
    | none ↦ none
    | some locks ↦ some (update_locks server.keep server.locks locks)
  ];
  transaction = some (first_of db);
  mvcc_active = db.mvcc_setting;
  next_transaction_id = add64 db.next_transaction_id 1;
}

-- `GetTransaction`
unfoldable pub get_transaction : Server → M RunningTransaction
unfolding apply_sticky_locks begin_transaction
get_transaction server db = elim db.transaction [
  | some t ↦ apply_sticky_locks t db
  | none ↦ apply_sticky_locks (first_of db) (begin_transaction server db)
]

-- `TransferAndClearState`
unfoldable pub transfer_and_clear_state : Database → Database
transfer_and_clear_state db = record db {
  sticky_locks = elim db.transaction [
    | none ↦ db.sticky_locks
    | some t ↦ elim t.state [ none ↦ db.sticky_locks | some s ↦ some s.held_locks ]
  ];
  transaction = none;
}

-- `Abort`
unfoldable pub abort : Database → Bool × Database
unfolding transfer_and_clear_state
abort db = elim db.transaction [ none ↦ (false, db) | some _ ↦ (true, transfer_and_clear_state db) ]

-- `HandleReadBlobErrorResponse`
unfoldable pub handle_error {ℓ} : {A : Type ℓ} → Exception → Database → Outcome A × Database
unfolding transfer_and_clear_state
handle_error deadlock db = (thrown deadlock, transfer_and_clear_state db)
handle_error e db = (thrown e, db)

unfoldable pub write_lock_no_content :
    Server → BlobLocation → RunningTransaction → M RunningTransaction
unfolding handle_error
write_lock_no_content server l t db =
    if db.mvcc_active then (thrown cannot_write_lock_in_mvcc, db) else elim (server.lock l) [
      | refused e ↦ handle_error e db
      | sent _ _ ↦
          let t' : RunningTransaction = record t {
            state = some (acquired_lock l true (state_of t));
          } in
          (returned t', record db { transaction = some t' })
    ]

-- The request to the server and what becomes of its answer.
unfoldable pub request_blob : Server → BlobLocation → Bool → RunningTransaction → M (List ℕ)
unfolding handle_error get
request_blob server l write t db =
    let cached = get l db.cache in
    let known : ℕ = elim cached [ none ↦ 0 | some blob ↦ blob.last_updated ] in
    elim (server.read l known write) [
      | refused e ↦ handle_error e db
      | sent commit content ↦
          let locked = with_state t (acquired_lock l write (state_of t)) db in
          if commit == known
          then (elim cached [
            | none ↦ (assertion_failed, locked)
            | some blob ↦ (returned blob.content, locked)
          ])
          else (
            returned content,
            record locked {
              cache =
                  set l (record { content = content; last_updated = commit; transaction_id = t.id })
                    db.cache;
            },
          )
    ]

-- The part of `ReadBlobInternal` behind the look at the transaction's own writes.
unfoldable pub read_cached : Server → BlobLocation → Bool → RunningTransaction → M (List ℕ)
unfolding request_blob write_lock_no_content get
read_cached server l write t db =
    let request = request_blob server l write t db in
    let needed : ℕ = if write then 2 else 1 in
    elim (get l db.cache) [
      | none ↦ request
      | some blob ↦
          if not (blob.transaction_id == t.id)
          then request
          else if leb needed (get_lock_type l (state_of t))
          then (returned blob.content, db)
          else if get_lock_type l (state_of t) == 1
          then (write_lock_no_content server l t >>= λ _ db'. (returned blob.content, db')) db
          else request
    ]

-- `ReadBlobInternal` with a lock to be held, a write lock or a read lock; first its part behind
-- `GetTransaction`.
unfoldable pub read_in_transaction : Server → BlobLocation → Bool → RunningTransaction → M (List ℕ)
unfolding read_cached
read_in_transaction server l write t db =
    if write && db.mvcc_active
    then (thrown cannot_write_lock_in_mvcc, db)
    else elim (read_blob l (state_of t)) [
      | thrown e ↦ (thrown e, db)
      | assertion_failed ↦ (assertion_failed, db)
      | returned (some content) ↦ (returned content, db)
      | returned none ↦ read_cached server l write t db
    ]

unfoldable pub read_blob_internal : Server → BlobLocation → Bool → M (List ℕ)
unfolding get_transaction read_in_transaction
read_blob_internal server l write = get_transaction server >>= read_in_transaction server l write

unfoldable pub ensure_write_lock : Server → BlobLocation → RunningTransaction → M RunningTransaction
unfolding write_lock_no_content
ensure_write_lock server l t db =
    if get_lock_type l (state_of t) == 2
    then (returned t, db)
    else write_lock_no_content server l t db

-- `WriteBlobInternal`; first its part behind `EnsureBlobNotDeleted`.
abbrev pub keep_write : BlobLocation → List ℕ → RunningTransaction → M (Unit {0})
keep_write l content t db = (returned tt, with_state t (write_blob l content (state_of t)) db)

unfoldable pub write_in_transaction :
    Server → BlobLocation → List ℕ → RunningTransaction → M (Unit {0})
unfolding ensure_write_lock
write_in_transaction server l content t db = elim (ensure_blob_not_deleted l (state_of t)) [
  | thrown e ↦ (thrown e, db)
  | assertion_failed ↦ (assertion_failed, db)
  | returned _ ↦ (ensure_write_lock server l t >>= keep_write l content) db
]

unfoldable pub write_blob_internal : Server → BlobLocation → List ℕ → M (Unit {0})
unfolding get_transaction write_in_transaction
write_blob_internal server l content =
    get_transaction server >>= write_in_transaction server l content
