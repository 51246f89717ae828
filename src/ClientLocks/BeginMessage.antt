-- ===== src/ClientLocks/BeginMessage.antt =====
-- The message of the begin of a transaction, with an entry for each database that is open.
use blobs_db.Base.{
  ℕ, ◌≡◌, ◌∙◌, ◌%◌, map, ◌+◌, ◌≤◌, ◌<◌, ◌^◌, refl, ap, true, false, some, List, [], ◌∷◌,
  if◌then◌else◌, length, all, All, is_some, inl, inr, arith, Option, Option-cases,
}
use blobs_db.Base.Sums.{sum}
use blobs_db.Lock.{Lock}
use blobs_db.ClientLocks.{
  DatabaseLocks, BeginEntry, BeginResponse, one_if_open, n_databases, begin_entry, begin_entries,
  locks_to_send, not_over_revoked, total_locks, construct_transaction_begin_response,
}
use blobs_db.ClientLocks.Agreement.{Agrees}
use blobs_db.ClientLocks.Releasing.{length-filter-has}
use blobs_db.ClientLocks.Response.{
  sent, told, begin_entry_lem, told-Agrees, length-sent, n_locks_lem,
}

-- An entry of an open database agrees with the lock table of that database.
abbrev pub AgreesIfOpen : ℕ → (ℕ → List Lock) → DatabaseLocks → Type 0
AgreesIfOpen c tables d = (db : ℕ) → d.database ≡ some db → Agrees c (tables db) d

abbrev pub TellsNothing : DatabaseLocks → Type 0
TellsNothing d = is_some d.database ≡ true → d.revoked_locks ≡ []

-- The ids of the slots that hold a database.
abbrev pub open_ids : ℕ → List DatabaseLocks → List ℕ
open_ids id [] = []
open_ids id (d ∷ ds) =
    if is_some d.database then id ∷ open_ids (id + 1) ds else open_ids (id + 1) ds

abbrev pub databases_of : List DatabaseLocks → List (Option ℕ)
databases_of ds = map (λ (d : DatabaseLocks). d.database) ds

-- The number of locks of the entry is right.
abbrev pub IsCounted : ℕ × BeginEntry → Type 0
IsCounted e = e.1.n_locks ≡ length e.1.locks

-- What the second loop makes of the entries.
record Response (c : ℕ) (tables : ℕ → List Lock) (id : ℕ) (ds : List DatabaseLocks) : Type 0 where
  entries : List (ℕ × BeginEntry)
  databases : List DatabaseLocks
  made : begin_entries id ds ≡ some (entries, databases)
  of_open : map (λ (e : ℕ × BeginEntry). e.0) entries ≡ open_ids id ds
  number : length entries ≡ sum one_if_open ds
  counted : All IsCounted entries
  filled : sum (λ (e : ℕ × BeginEntry). e.1.n_locks) entries ≡ sum locks_to_send ds
  same : databases_of databases ≡ databases_of ds
  agree : All (AgreesIfOpen c tables) databases
  told_all : All TellsNothing databases

begin_entries-open :
    (id : ℕ) (d d' : DatabaseLocks) (ds ds' : List DatabaseLocks) (e : BeginEntry)
    (es : List (ℕ × BeginEntry))
    → begin_entries ((id + 1) % 2 ^ 8) ds ≡ some (es, ds')
    → is_some d.database ≡ true
    → begin_entry d ≡ some (e, d')
    → begin_entries id (d ∷ ds) ≡ some ((id, e) ∷ es, d' ∷ ds')
unfolding begin_entries
begin_entries-open id d d' ds ds' e es p o q = rw (p, o, q, begin_entries)

begin_entries-closed :
    (id : ℕ) (d : DatabaseLocks) (ds ds' : List DatabaseLocks) (es : List (ℕ × BeginEntry))
    → begin_entries ((id + 1) % 2 ^ 8) ds ≡ some (es, ds')
    → is_some d.database ≡ false
    → begin_entries id (d ∷ ds) ≡ some (es, d ∷ ds')
unfolding begin_entries
begin_entries-closed id d ds ds' es p o = rw (p, o, begin_entries)

begin_entries_lem :
    (c : ℕ) (tables : ℕ → List Lock) (id : ℕ) (ds : List DatabaseLocks)
    → All (AgreesIfOpen c tables) ds
    → sum (λ d. length d.locks) ds < 2 ^ 64
    → sum locks_to_send ds ≤ 65535
    → id + length ds ≤ 255
    → Response c tables id ds
unfolding begin_entries
begin_entries_lem c tables id [] a short few small = record {
  entries = [];
  databases = [];
  made = refl;
  of_open = refl;
  number = refl;
  counted = tt;
  filled = refl;
  same = refl;
  agree = tt;
  told_all = tt;
}
begin_entries_lem c tables id (d ∷ ds) (a, rest_a) short few small =
    let rest =
      begin_entries_lem c tables (id + 1) ds rest_a (omega arith) (omega arith) (omega arith) in
    let next : (id + 1) % 2 ^ 8 ≡ id + 1 = omega arith in
    let made_rest = ap (λ i. begin_entries i ds) next ∙ rest.made in
    elim (Option-cases d.database) [
      | inl n ↦ record {
        entries = rest.entries;
        databases = d ∷ rest.databases;
        made = begin_entries-closed id d ds rest.databases rest.entries made_rest (ap is_some n);
        of_open = ground (arith, rest.of_open);
        number = ground (arith, rest.number);
        counted = rest.counted;
        filled = ground (arith, rest.filled);
        same = ap (λ ks. d.database ∷ ks) rest.same;
        agree = (a, rest.agree);
        told_all = (λ o. ground arith, rest.told_all);
      }
      | inr (db, o) ↦
          let fits : length d.locks < 2 ^ 64 = omega arith in
          let right : (sent d).n_locks ≡ length (sent d).locks =
            n_locks_lem c (tables db) d (a db o) fits (ap is_some o) (omega arith) in
          record {
            entries = (id, sent d) ∷ rest.entries;
            databases = told d ∷ rest.databases;
            made =
                begin_entries-open id d (told d) ds rest.databases (sent d) rest.entries made_rest
                  (ap is_some o) (begin_entry_lem c (tables db) d (a db o) fits);
            of_open = ground (arith, rest.of_open);
            number = ground (arith, rest.number);
            counted = (right, rest.counted);
            filled = omega (
              arith,
              rest.filled,
              right,
              length-sent c (tables db) d (a db o) fits (ap is_some o),
            );
            same = ap (λ ks. d.database ∷ ks) rest.same;
            agree = (λ db' o'. told-Agrees c (tables db') d (a db' o') fits, rest.agree);
            told_all = (λ _. refl, rest.told_all);
          }
    ]

all-not_over_revoked :
    (c : ℕ) (tables : ℕ → List Lock) (ds : List DatabaseLocks)
    → All (AgreesIfOpen c tables) ds
    → all not_over_revoked ds ≡ true
all-not_over_revoked c tables [] a = refl
all-not_over_revoked c tables (d ∷ ds) (a, rest_a) = elim (Option-cases d.database) [
  | inl n ↦ ground (arith, all-not_over_revoked c tables ds rest_a)
  | inr (db, o) ↦
      let count =
        length-filter-has d.revoked_locks d.locks (a db o).revoked_distinct (a db o).distinct
          (a db o).known in
      ground (arith, count, all-not_over_revoked c tables ds rest_a)
]

sum-locks_to_send :
    (c : ℕ) (tables : ℕ → List Lock) (ds : List DatabaseLocks)
    → All (AgreesIfOpen c tables) ds
    → sum (λ d. length d.locks) ds < 2 ^ 64
    → sum locks_to_send ds ≤ sum (λ d. length d.locks) ds
sum-locks_to_send c tables [] a short = omega arith
sum-locks_to_send c tables (d ∷ ds) (a, rest_a) short =
    let rest = sum-locks_to_send c tables ds rest_a (omega arith) in
    elim (Option-cases d.database) [
      | inl n ↦ ground (arith, rest)
      | inr (db, o) ↦
          let count =
            length-filter-has d.revoked_locks d.locks (a db o).revoked_distinct (a db o).distinct
              (a db o).known in
          ground (arith, count, rest)
    ]

sum-one_if_open : (ds : List DatabaseLocks) → sum one_if_open ds ≤ length ds
sum-one_if_open [] = omega arith
sum-one_if_open (d ∷ ds) = ground (arith, sum-one_if_open ds)

-- `ConstructTransactionBeginResponse` meets no failed assertion when the client has at most 254 slots,
-- its entries agree with the lock tables and have a number of locks of 64 bits in all, and the locks
-- to send fit into 16 bits: the message has one entry for each slot that holds a database, in their
-- order, each with the right number of locks, and it is allocated for just so many entries and so many
-- locks; the slots hold the same databases as before, and their entries agree and have nothing left to
-- tell.
pub begin_response_fills_message :
    (c : ℕ) (tables : ℕ → List Lock) (ds : List DatabaseLocks)
    → length ds ≤ 254
    → All (AgreesIfOpen c tables) ds
    → sum (λ d. length d.locks) ds < 2 ^ 64
    → total_locks ds ≤ 65535
    → (m : BeginResponse) × (ds' : List DatabaseLocks) × (construct_transaction_begin_response ds
        ≡ some (m, ds'))
      × (map (λ (e : ℕ × BeginEntry). e.0) m.entries ≡ open_ids 0 ds)
      × (m.room_for_databases ≡ length m.entries)
      × All IsCounted m.entries
      × (sum (λ (e : ℕ × BeginEntry). e.1.n_locks) m.entries ≡ m.room_for_locks)
      × (databases_of ds' ≡ databases_of ds)
      × All (AgreesIfOpen c tables) ds'
      × All TellsNothing ds'
unfolding construct_transaction_begin_response total_locks n_databases
begin_response_fills_message c tables ds slots a short few =
    let sent_few : sum locks_to_send ds ≤ 65535 =
      omega (arith, sum-locks_to_send c tables ds a short) in
    let r = begin_entries_lem c tables 0 ds a short sent_few (omega arith) in
    (
      record {
        room_for_databases = n_databases ds;
        room_for_locks = total_locks ds % 2 ^ 16;
        entries = r.entries;
      },
      r.databases,
      ground (arith, r.made, all-not_over_revoked c tables ds a, sum-one_if_open ds),
      r.of_open,
      omega (arith, r.number, sum-one_if_open ds),
      r.counted,
      omega (arith, r.filled),
      r.same,
      r.agree,
      r.told_all,
    )
