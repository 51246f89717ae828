-- ===== src/Tests/Sessions.antt =====
-- One client with a closed and an open slot, and a database with two snapshots.
use blobs_db.Base.{
  ◌&&◌, ℕ, suc, ◌<◌, ◌≤◌, ◌^◌, ◌≡◌, refl, Bool, true, false, ◌⊎◌, Option, none, some, [], ◌∷◌, ◌==◌,
  length, arith,
}
use blobs_db.Mvcc.{Mvcc, begin_mvcc, end_mvcc, replace_snapshot}
use blobs_db.Mvcc.Sharing.{IsCounted, Others, mvcc_snapshot_stays}
use blobs_db.ClientLocks.{DatabaseLocks}
use blobs_db.Client.{
  Client, Store, has_database_opened, get_database, lookup_database, get_open_database_count,
  open_database, begin_transaction, abort_transaction,
}
use blobs_db.Client.Slots.{slot_at, slot_or_new, opened, open_database_lem}
use blobs_db.Client.Counts.{Counted, mvcc_use_count_lem}

abbrev slot : Option ℕ → DatabaseLocks
slot o = record { database = o; locks = []; revoked_locks = []; is_mvcc = true }

abbrev client : Client
client = record {
  id = 1;
  open_databases = slot (some 4) ∷ slot none ∷ [];
  transaction_priority = 0;
  has_transaction = false;
}

abbrev store : Store ℕ
store _ = record {
  locks = [];
  queued_reads = [];
  mvcc = record { snapshot = 7; mvcc_snapshot = none; mvcc_use_count = 0 };
  use_count = 1;
}

open_database_lem_example :
    ((open_database 5 true (client, store) ≡ none) × (get_open_database_count client ≡ 254))
    ⊎ ((id : ℕ) × (c' : Client) × (store' : Store ℕ) × (open_database 5 true (client, store)
          ≡ some (id, c', store'))
        × (id < 254)
        × (get_database id client ≡ none)
        × (get_database id c' ≡ some 5)
        × (has_database_opened 5 client ≡ false → lookup_database 5 c' ≡ some id)
        × ((j : ℕ) → (j == id) ≡ false → get_database j c' ≡ get_database j client)
        × ((j : ℕ)
            → (j == id) ≡ false
            → slot_at j c'.open_databases ≡ slot_at j client.open_databases)
        × (slot_at id c'.open_databases
            ≡ some (record (slot_or_new (slot_at id client.open_databases)) {
              database = some 5;
              is_mvcc = true;
            }))
        × (c' ≡ record client { open_databases = c'.open_databases })
        × ((k : ℕ) → store' k ≡ opened (false && true) 5 store k)
        × (get_open_database_count c' ≡ suc (get_open_database_count client))
        × (length c'.open_databases ≤ 254))
open_database_lem_example = open_database_lem 5 true client store (omega arith)

mvcc_use_count_lem_example :
    ((k : ℕ) (mvcc : Bool) (id : ℕ) (c' : Client) (store' : Store ℕ)
      → open_database k mvcc (client, store) ≡ some (id, c', store')
      → Counted 4 0 (c', store'))
    × ((priority : ℕ)
        → client.has_transaction ≡ false
        → Counted 4 0 (begin_transaction priority (client, store)))
    × ((release_all answer : Bool) (c' : Client) (store' : Store ℕ)
        → abort_transaction release_all (client, store) ≡ some (answer, c', store')
        → Counted 4 0 (c', store'))
mvcc_use_count_lem_example = mvcc_use_count_lem 4 0 client store refl

-- The client has begun; then another begins, commits a snapshot and ends.
abbrev begun : Mvcc ℕ
begun = record { snapshot = 7; mvcc_snapshot = some 7; mvcc_use_count = 1 }

begun-IsCounted : IsCounted 1 begun
begun-IsCounted = record { counted = refl; held = ((λ e. absurd (omega arith)), λ h. refl) }

some_steps : Others 0 begun 0 (end_mvcc (replace_snapshot 8 (begin_mvcc begun)))
some_steps = Others.later (Others.begins 0 begun (omega arith)) (
    Others.later (Others.commits 1 (begin_mvcc begun) 8)
      (Others.ends 0 (replace_snapshot 8 (begin_mvcc begun))))

mvcc_snapshot_stays_example :
    ((end_mvcc (replace_snapshot 8 (begin_mvcc begun))).mvcc_snapshot ≡ begun.mvcc_snapshot)
    × (1 < 2 ^ 32)
    × IsCounted 1 (end_mvcc (replace_snapshot 8 (begin_mvcc begun)))
mvcc_snapshot_stays_example =
    mvcc_snapshot_stays 0 0 begun (end_mvcc (replace_snapshot 8 (begin_mvcc begun))) some_steps
      (omega arith) begun-IsCounted
