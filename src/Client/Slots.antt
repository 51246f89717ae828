-- ===== src/Client/Slots.antt =====
-- The slots of `openDatabases`: database ids are found, reused and limited.
use blobs_db.Base.{
  ℕ, zero, suc, ◌+◌, ◌≤◌, ◌<◌, Option, true, ◌≡◌, ◌⊎◌, refl, ◌∙◌, ap, Bool, false, ◌&&◌, none, some,
  List, [], ◌∷◌, ◌++◌, length, length-append, any, ◌==◌, if◌then◌else◌, is_some, inl, inr, arith,
  Bool-cases,
}
use blobs_db.ClientLocks.{DatabaseLocks}
use blobs_db.Mvcc.{begin_mvcc}
use blobs_db.Client.{
  Client, Store, SharedDatabase, is_at, has_database_opened, database_at, get_database, index_of,
  lookup_database, count_open, get_open_database_count, opened_slot, new_slot, reuse_slot, place,
  open_database, begin_mvcc_at,
}

-- The entry of an index, and the one that a database gets there: a new one behind the last.
abbrev pub slot_at : ℕ → List DatabaseLocks → Option DatabaseLocks
slot_at id [] = none
slot_at zero (d ∷ ds) = some d
slot_at (suc id) (d ∷ ds) = slot_at id ds

abbrev pub slot_or_new : Option DatabaseLocks → DatabaseLocks
slot_or_new none = record { database = none; locks = []; revoked_locks = []; is_mvcc = false }
slot_or_new (some d) = d

-- The database stands at a free index of the entries, which are otherwise as they were.
pub record Placed (db : ℕ) (mvcc : Bool) (k : ℕ) (ds ds' : List DatabaseLocks) : Type 0 where
  pub free : database_at k ds ≡ none
  pub there : database_at k ds' ≡ some db
  pub others : (j : ℕ) → (j == k) ≡ false → database_at j ds' ≡ database_at j ds
  pub slots : (j : ℕ) → (j == k) ≡ false → slot_at j ds' ≡ slot_at j ds
  pub slot :
      slot_at k ds'
      ≡ some (record (slot_or_new (slot_at k ds)) { database = some db; is_mvcc = mvcc })
  pub more : count_open ds' ≡ suc (count_open ds)
  pub found : (start : ℕ) → any (is_at db) ds ≡ false → index_of db start ds' ≡ some (start + k)

others_first :
    (d d' : DatabaseLocks) (ds : List DatabaseLocks) (j : ℕ)
    → (j == 0) ≡ false
    → database_at j (d' ∷ ds) ≡ database_at j (d ∷ ds)
unfolding database_at
others_first d d' ds zero n = absurd (ground arith)
others_first d d' ds (suc j) n = refl

others_later :
    (d : DatabaseLocks) (ds ds' : List DatabaseLocks) (k : ℕ)
    → ((j : ℕ) → (j == k) ≡ false → database_at j ds' ≡ database_at j ds)
    → (j : ℕ) → (j == suc k) ≡ false
    → database_at j (d ∷ ds') ≡ database_at j (d ∷ ds)
unfolding database_at
others_later d ds ds' k same zero n = refl
others_later d ds ds' k same (suc j) n = same j (ground arith)

others_appended :
    (d : DatabaseLocks) (j : ℕ) → (j == 0) ≡ false → database_at j (d ∷ []) ≡ database_at j []
unfolding database_at
others_appended d zero n = absurd (ground arith)
others_appended d (suc j) n = refl

slots_first :
    (d d' : DatabaseLocks) (ds : List DatabaseLocks) (j : ℕ)
    → (j == 0) ≡ false
    → slot_at j (d' ∷ ds) ≡ slot_at j (d ∷ ds)
slots_first d d' ds zero n = absurd (ground arith)
slots_first d d' ds (suc j) n = refl

slots_later :
    (d : DatabaseLocks) (ds ds' : List DatabaseLocks) (k : ℕ)
    → ((j : ℕ) → (j == k) ≡ false → slot_at j ds' ≡ slot_at j ds)
    → (j : ℕ) → (j == suc k) ≡ false
    → slot_at j (d ∷ ds') ≡ slot_at j (d ∷ ds)
slots_later d ds ds' k same zero n = refl
slots_later d ds ds' k same (suc j) n = same j (ground arith)

slots_appended : (d : DatabaseLocks) (j : ℕ) → (j == 0) ≡ false → slot_at j (d ∷ []) ≡ slot_at j []
slots_appended d zero n = absurd (ground arith)
slots_appended d (suc j) n = refl

first-Placed :
    (db : ℕ) (mvcc : Bool) (d : DatabaseLocks) (ds : List DatabaseLocks)
    → is_some d.database ≡ false
    → Placed db mvcc 0 (d ∷ ds) (opened_slot db mvcc d ∷ ds)
unfolding database_at count_open index_of
first-Placed db mvcc d ds h = record {
  free = ground arith;
  there = refl;
  others = others_first d (opened_slot db mvcc d) ds;
  slots = slots_first d (opened_slot db mvcc d) ds;
  slot = refl;
  more = ground arith;
  found = λ start n. ground arith;
}

later-Placed :
    (db : ℕ) (mvcc : Bool) (k : ℕ) (d : DatabaseLocks) (ds ds' : List DatabaseLocks)
    → Placed db mvcc k ds ds'
    → Placed db mvcc (suc k) (d ∷ ds) (d ∷ ds')
unfolding database_at count_open index_of
later-Placed db mvcc k d ds ds' p = record {
  free = p.free;
  there = p.there;
  others = others_later d ds ds' k p.others;
  slots = slots_later d ds ds' k p.slots;
  slot = p.slot;
  more = ground (arith, p.more);
  found = λ start n. ground (arith, p.found (suc start));
}

-- Either every slot is taken, or the first free one is.
reuse_slot_lem :
    (db : ℕ) (mvcc : Bool) (start : ℕ) (ds : List DatabaseLocks)
    → ((reuse_slot db mvcc start ds ≡ none) × (count_open ds ≡ length ds))
      ⊎ ((k : ℕ) × (ds' : List DatabaseLocks) × (reuse_slot db mvcc start ds
            ≡ some (start + k, ds'))
          × (k < length ds)
          × (length ds' ≡ length ds)
          × Placed db mvcc k ds ds')
unfolding reuse_slot count_open
reuse_slot_lem db mvcc start [] = inl (refl, refl)
reuse_slot_lem db mvcc start (d ∷ ds) = elim (Bool-cases (is_some d.database)) [
  | inr n ↦
      inr (
        0,
        opened_slot db mvcc d ∷ ds,
        ground arith,
        omega arith,
        refl,
        first-Placed db mvcc d ds n,
      )
  | inl y ↦ elim (reuse_slot_lem db mvcc (suc start) ds) [
    | inl (e, full) ↦ inl (ground arith, ground arith)
    | inr (k, ds', e, small, same, p) ↦ inr (
      suc k,
      d ∷ ds',
      ground arith,
      omega arith,
      omega (arith, same),
      later-Placed db mvcc k d ds ds' p,
    )
  ]
]

append-Placed :
    (db : ℕ) (mvcc : Bool) (ds : List DatabaseLocks)
    → Placed db mvcc (length ds) ds (ds ++ (opened_slot db mvcc new_slot ∷ []))
unfolding database_at count_open index_of
append-Placed db mvcc [] = record {
  free = refl;
  there = refl;
  others = others_appended (opened_slot db mvcc new_slot);
  slots = slots_appended (opened_slot db mvcc new_slot);
  slot = refl;
  more = refl;
  found = λ start n. ground arith;
}
append-Placed db mvcc (d ∷ ds) = later-Placed db mvcc (length ds) d ds _ (append-Placed db mvcc ds)

place_lem :
    (db : ℕ) (mvcc : Bool) (ds : List DatabaseLocks)
    → length ds ≤ 254
    → ((place db mvcc ds ≡ none) × (count_open ds ≡ 254))
      ⊎ ((k : ℕ) × (ds' : List DatabaseLocks) × (place db mvcc ds ≡ some (k, ds'))
          × (k < 254)
          × (length ds' ≤ 254)
          × Placed db mvcc k ds ds')
unfolding place
place_lem db mvcc ds limit = elim (reuse_slot_lem db mvcc 0 ds) [
  | inr (k, ds', e, small, same, p) ↦
      inr (k, ds', ground (arith, e), omega arith, omega (arith, same), p)
  | inl (e, full) ↦ elim (Bool-cases (length ds == 254)) [
    | inl y ↦ inl (ground (arith, e), ground arith)
    | inr n ↦ inr (
      length ds,
      ds ++ (opened_slot db mvcc new_slot ∷ []),
      ground (arith, e),
      ground arith,
      ground (arith, length-append ds (opened_slot db mvcc new_slot ∷ [])),
      append-Placed db mvcc ds,
    )
  ]
]

-- What a database of the store is when the client has opened database `db`.
abbrev pub opened : {A : Type 0} → Bool → ℕ → Store A → ℕ → SharedDatabase A
opened begins db store k =
    if begins && k == db then record (store k) { mvcc = begin_mvcc (store k).mvcc } else store k

begin_mvcc_at-opened :
    {A : Type 0} (begins : Bool) (db : ℕ) (store : Store A) (k : ℕ)
    → (if begins then begin_mvcc_at db store else store) k ≡ opened begins db store k
begin_mvcc_at-opened true db store k = elim (Bool-cases (k == db)) [
  | inl y ↦
      let same : db ≡ k = ground arith in
      rw y (ap (λ j. record (store j) { mvcc = begin_mvcc (store j).mvcc }) same)
  | inr n ↦ rw n refl
]
begin_mvcc_at-opened false db store k = refl

-- In a client with at most 254 slots, `OpenDatabase` throws exactly when 254 databases are open. Else
-- the database gets an id below 254 that was free, by which `GetDatabase` and, if the client did not
-- have it open, `LookupDatabase` find it; its slot keeps the locks of the free one, or has none if it
-- is new; every other slot and the rest of the client are as they were, one more database is open, and
-- there are at most 254 slots. Only the MVCC snapshot of the opened database changes, and only in a
-- transaction with the mode MVCC.
pub open_database_lem :
    {A : Type 0} (db : ℕ) (mvcc : Bool) (c : Client) (store : Store A)
    → length c.open_databases ≤ 254
    → ((open_database db mvcc (c, store) ≡ none) × (get_open_database_count c ≡ 254))
      ⊎ ((id : ℕ) × (c' : Client) × (store' : Store A) × (open_database db mvcc (c, store)
            ≡ some (id, c', store'))
          × (id < 254)
          × (get_database id c ≡ none)
          × (get_database id c' ≡ some db)
          × (has_database_opened db c ≡ false → lookup_database db c' ≡ some id)
          × ((j : ℕ) → (j == id) ≡ false → get_database j c' ≡ get_database j c)
          × ((j : ℕ) → (j == id) ≡ false → slot_at j c'.open_databases ≡ slot_at j c.open_databases)
          × (slot_at id c'.open_databases
              ≡ some (record (slot_or_new (slot_at id c.open_databases)) {
                database = some db;
                is_mvcc = mvcc;
              }))
          × (c' ≡ record c { open_databases = c'.open_databases })
          × ((k : ℕ) → store' k ≡ opened (c.has_transaction && mvcc) db store k)
          × (get_open_database_count c' ≡ suc (get_open_database_count c))
          × (length c'.open_databases ≤ 254))
unfolding open_database get_open_database_count get_database lookup_database has_database_opened
open_database_lem db mvcc c store limit = elim (place_lem db mvcc c.open_databases limit) [
  | inl (e, full) ↦ inl (rw (e, open_database), full)
  | inr (k, ds', e, small, fits, p) ↦ inr (
    k,
    record c { open_databases = ds' },
    if c.has_transaction && mvcc then begin_mvcc_at db store else store,
    rw (e, open_database),
    small,
    p.free,
    p.there,
    λ h. p.found 0 h ∙ ap some (omega arith),
    p.others,
    p.slots,
    p.slot,
    refl,
    begin_mvcc_at-opened (c.has_transaction && mvcc) db store,
    p.more,
    fits,
  )
]
