-- ===== src/Client.antt =====
-- ServerLib/Client.cpp: one client of the server with the databases that it has opened. A
-- `Database*` is the number of its database, and `Store` what the databases hold that a client's
-- operations read or change. `none` as a result stands for a failed assertion, but for
-- `open_database`, where it stands for the exception.
pub mod Slots
pub mod Counts
use blobs_db.Base.{
  ℕ, zero, ◌+◌, ◌-◌, ◌%◌, ◌^◌, Bool, true, false, not, ◌&&◌, Option, none, some, List, [], ◌∷◌,
  ◌++◌, length, any, suc, ◌==◌, ltb, is_some, is_empty, if◌then◌else◌,
}
use blobs_db.BlobLocation.{BlobLocation}
use blobs_db.Lock.{Lock}
use blobs_db.ReadQueue.{QueuedMessage, abort_client_transaction}
use blobs_db.ClientLocks.{DatabaseLocks, apply_revoked_locks}
use blobs_db.Mvcc.{Mvcc, begin_mvcc, end_mvcc}

pub record Client : Type 0 where
  pub id : ℕ
  pub open_databases : List DatabaseLocks
  pub transaction_priority : ℕ
  pub has_transaction : Bool

-- `Client(id)`
unfoldable pub new : ℕ → Client
new id = record { id = id; open_databases = []; transaction_priority = 0; has_transaction = false }

pub record SharedDatabase (A : Type 0) : Type 0 where
  pub locks : List Lock
  pub queued_reads : List QueuedMessage
  pub mvcc : Mvcc A
  pub use_count : ℕ

abbrev pub Store : Type 0 → Type 0
Store A = ℕ → SharedDatabase A

abbrev pub is_at : ℕ → DatabaseLocks → Bool
is_at db d = elim d.database [ none ↦ false | some k ↦ k == db ]

unfoldable pub has_database_opened : ℕ → Client → Bool
has_database_opened db c = any (is_at db) c.open_databases

-- `get_database` and `lookup_database` on the list, the latter from an index on.
unfoldable pub database_at : ℕ → List DatabaseLocks → Option ℕ
database_at id [] = none
database_at zero (d ∷ ds) = d.database
database_at (suc id) (d ∷ ds) = database_at id ds

unfoldable pub get_database : ℕ → Client → Option ℕ
get_database id c = database_at id c.open_databases

unfoldable pub index_of : ℕ → ℕ → List DatabaseLocks → Option ℕ
index_of db id [] = none
index_of db id (d ∷ ds) = let rest = index_of db (suc id) ds in if is_at db d then some id else rest

unfoldable pub lookup_database : ℕ → Client → Option ℕ
lookup_database db c = index_of db 0 c.open_databases

unfoldable pub count_open : List DatabaseLocks → ℕ
count_open [] = 0
count_open (d ∷ ds) = if is_some d.database then suc (count_open ds) else count_open ds

unfoldable pub get_open_database_count : Client → ℕ
get_open_database_count c = count_open c.open_databases

-- The result is a `uint8_t`.
unfoldable pub get_max_database_id : Client → ℕ
get_max_database_id c =
    if is_empty c.open_databases then 0 else (length c.open_databases - 1) % 2 ^ 8

-- The entry of a database that has just been opened, in a slot that held `d`.
abbrev pub opened_slot : ℕ → Bool → DatabaseLocks → DatabaseLocks
opened_slot db mvcc d = record d { database = some db; is_mvcc = mvcc }

abbrev pub new_slot : DatabaseLocks
new_slot = record { database = none; locks = []; revoked_locks = []; is_mvcc = false }

-- The search for a slot without a database, from an index on: the entries with the database in it,
-- and its index; or none.
unfoldable pub reuse_slot : ℕ → Bool → ℕ → List DatabaseLocks → Option (ℕ × List DatabaseLocks)
reuse_slot db mvcc id [] = none
reuse_slot db mvcc id (d ∷ ds) =
    let rest = reuse_slot db mvcc (suc id) ds in
    if is_some d.database
    then (elim rest [ none ↦ none | some (at, ds') ↦ some (at, d ∷ ds') ])
    else some (id, opened_slot db mvcc d ∷ ds)

-- The slot that the database gets; none is the exception, at `numeric_limits<database_id>::max() - 1`
-- entries.
unfoldable pub place : ℕ → Bool → List DatabaseLocks → Option (ℕ × List DatabaseLocks)
place db mvcc ds = elim (reuse_slot db mvcc 0 ds) [
  | some found ↦ some found
  | none ↦
      if length ds == 254 then none else some (length ds, ds ++ (opened_slot db mvcc new_slot ∷ []))
]

module _ {A : Type 0} where
  abbrev pub set : ℕ → SharedDatabase A → Store A → Store A
  set db s store = λ k. if k == db then s else store k

  abbrev pub begin_mvcc_at : ℕ → Store A → Store A
  begin_mvcc_at db store = set db (record (store db) { mvcc = begin_mvcc (store db).mvcc }) store

  unfoldable pub open_database : ℕ → Bool → Client × Store A → Option (ℕ × Client × Store A)
  open_database db mvcc (c, store) = elim (place db mvcc c.open_databases) [
    | none ↦ none
    | some (id, ds) ↦ some (
      id,
      record c { open_databases = ds },
      if c.has_transaction && mvcc then begin_mvcc_at db store else store,
    )
  ]

  unfoldable pub begin_mvcc_each : List DatabaseLocks → Store A → Store A
  begin_mvcc_each [] store = store
  begin_mvcc_each (d ∷ ds) store = begin_mvcc_each ds (elim d.database [
    | none ↦ store
    | some db ↦ if d.is_mvcc then begin_mvcc_at db store else store
  ])

  unfoldable pub begin_transaction : ℕ → Client × Store A → Client × Store A
  begin_transaction priority (c, store) = (
    record c { has_transaction = true; transaction_priority = priority },
    begin_mvcc_each c.open_databases store,
  )

  -- The loop of `AbortTransaction` for one entry, by its database.
  unfoldable pub abort_entry :
      Bool → ℕ → Option ℕ → DatabaseLocks → Store A → Option (DatabaseLocks × Store A)
  abort_entry release_all client none d store = some (d, store)
  abort_entry release_all client (some db) d store =
      let s = store db in
      if is_empty d.revoked_locks
      then (elim (abort_client_transaction client (if release_all then d.locks else []) s.locks
          s.queued_reads) [
            | none ↦ none
            | some (locks', queue') ↦ some (
              if release_all then record d { locks = [] } else d,
              set db
                  (record s {
                    locks = locks';
                    queued_reads = queue';
                    mvcc = if d.is_mvcc then end_mvcc s.mvcc else s.mvcc;
                  })
                  store,
            )
          ])
      else none

  unfoldable pub abort_entries :
      Bool → ℕ → List DatabaseLocks → Store A → Option (List DatabaseLocks × Store A)
  abort_entries release_all client [] store = some ([], store)
  abort_entries release_all client (d ∷ ds) store =
      elim (abort_entry release_all client d.database d store) [
        | none ↦ none
        | some (d', store') ↦ elim (abort_entries release_all client ds store') [
          | none ↦ none
          | some (ds', store'') ↦ some (d' ∷ ds', store'')
        ]
      ]

  -- The answer says whether there was a transaction to abort.
  unfoldable pub abort_transaction : Bool → Client × Store A → Option (Bool × Client × Store A)
  abort_transaction release_all (c, store) =
      if c.has_transaction
      then (elim (abort_entries release_all c.id c.open_databases store) [
        | none ↦ none
        | some (ds, store') ↦
            some (true, record c { open_databases = ds; has_transaction = false }, store')
      ])
      else some (false, c, store)

  -- `Database::Release`, up to what becomes of a database that no client uses.
  unfoldable pub release_use : SharedDatabase A → SharedDatabase A
  release_use s = record s { use_count = (s.use_count + 2 ^ 32 - 1) % 2 ^ 32 }

  unfoldable pub close_entry :
      ℕ → Option ℕ → DatabaseLocks → Store A → Option (Bool × DatabaseLocks × Store A)
  close_entry client none d store = some (false, d, store)
  close_entry client (some db) d store =
      let s = store db in
      elim (apply_revoked_locks d) [
        | none ↦ none
        | some d' ↦ elim (abort_client_transaction client d'.locks s.locks s.queued_reads) [
          | none ↦ none
          | some (locks', queue') ↦ some (
            true,
            record d' { database = none; locks = []; revoked_locks = [] },
            set db (release_use (record s { locks = locks'; queued_reads = queue' })) store,
          )
        ]
      ]

  unfoldable pub close_at :
      ℕ → ℕ → List DatabaseLocks → Store A → Option (Bool × List DatabaseLocks × Store A)
  close_at client id [] store = some (false, [], store)
  close_at client zero (d ∷ ds) store = elim (close_entry client d.database d store) [
    | none ↦ none
    | some (closed, d', store') ↦ some (closed, d' ∷ ds, store')
  ]
  close_at client (suc id) (d ∷ ds) store = elim (close_at client id ds store) [
    | none ↦ none
    | some (closed, ds', store') ↦ some (closed, d ∷ ds', store')
  ]

  -- The answer says whether the database was open.
  unfoldable pub close_database : ℕ → Client × Store A → Option (Bool × Client × Store A)
  close_database id (c, store) =
      if c.has_transaction then none else elim (close_at c.id id c.open_databases store) [
        | none ↦ none
        | some (closed, ds, store') ↦ some (closed, record c { open_databases = ds }, store')
      ]
