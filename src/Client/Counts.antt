-- ===== src/Client/Counts.antt =====
-- `mvccUseCount` counts the transactions that use the MVCC snapshot.
use blobs_db.Base.{
  ℕ, suc, ◌+◌, ◌%◌, ◌^◌, ◌≡◌, refl, ◌∙◌, ap, sym, subst, Bool, false, ◌&&◌, Option, none, some,
  List, [], ◌∷◌, ◌++◌, ◌==◌, if◌then◌else◌, is_empty, inl, inr, arith, Bool-cases, Option-cases,
  ==_iff,
}
use blobs_db.Lock.{Lock}
use blobs_db.ReadQueue.{QueuedMessage, abort_client_transaction}
use blobs_db.Mvcc.{begin_mvcc, end_mvcc}
use blobs_db.ClientLocks.{DatabaseLocks}
use blobs_db.Client.{
  Client, Store, is_at, opened_slot, new_slot, reuse_slot, place, set, begin_mvcc_at, open_database,
  begin_mvcc_each, begin_transaction, abort_entry, abort_entries, abort_transaction,
}

-- How often the transaction of a client uses the MVCC snapshot of a database.
abbrev pub share : ℕ → List DatabaseLocks → ℕ
share db [] = 0
share db (d ∷ ds) = if is_at db d && d.is_mvcc then suc (share db ds) else share db ds

abbrev pub mvcc_share : ℕ → Client → ℕ
mvcc_share db c = if c.has_transaction then share db c.open_databases else 0

module _ (db : ℕ) where
  share-reuse_slot :
      (k : ℕ) (mvcc : Bool) (start : ℕ) (ds : List DatabaseLocks) (at : ℕ)
      (ds' : List DatabaseLocks)
      → reuse_slot k mvcc start ds ≡ some (at, ds')
      → share db ds' ≡ (if k == db && mvcc then suc (share db ds) else share db ds)
  unfolding reuse_slot
  share-reuse_slot k mvcc start [] at ds' e = absurd (ground arith)
  share-reuse_slot k mvcc start (d ∷ ds) at ds' e = elim (Option-cases d.database) [
    | inl o ↦ ground (arith, o)
    | inr (j, o) ↦ elim (Option-cases (reuse_slot k mvcc (suc start) ds)) [
      | inl n ↦ absurd (ground arith)
      | inr ((at', ds''), p) ↦ ground (arith, share-reuse_slot k mvcc (suc start) ds at' ds'' p)
    ]
  ]

  share-append :
      (ds : List DatabaseLocks) (d : DatabaseLocks)
      → share db (ds ++ (d ∷ []))
        ≡ (if is_at db d && d.is_mvcc then suc (share db ds) else share db ds)
  share-append [] d = refl
  share-append (x ∷ ds) d = ground (arith, share-append ds d)

  share-place :
      (k : ℕ) (mvcc : Bool) (ds : List DatabaseLocks) (at : ℕ) (ds' : List DatabaseLocks)
      → place k mvcc ds ≡ some (at, ds')
      → share db ds' ≡ (if k == db && mvcc then suc (share db ds) else share db ds)
  unfolding place
  share-place k mvcc ds at ds' e = elim (Option-cases (reuse_slot k mvcc 0 ds)) [
    | inl n ↦ ground (arith, share-append ds (opened_slot k mvcc new_slot))
    | inr ((at', ds''), p) ↦ ground (arith, share-reuse_slot k mvcc 0 ds at ds')
  ]

module _ {A : Type 0} (db : ℕ) where
  -- The count of the database, of which `n` modulo 2^32 is left by other clients.
  abbrev pub Counted : ℕ → Client × Store A → Type 0
  Counted n (c, store) = (store db).mvcc.mvcc_use_count ≡ (n + mvcc_share db c) % 2 ^ 32

  count-begin_mvcc_at :
      (k : ℕ) (store : Store A) (n : ℕ)
      → (store db).mvcc.mvcc_use_count ≡ n % 2 ^ 32
      → (begin_mvcc_at k store db).mvcc.mvcc_use_count ≡ (if k == db then suc n else n) % 2 ^ 32
  unfolding begin_mvcc
  count-begin_mvcc_at k store n e = elim (Bool-cases (k == db)) [
    | inl y ↦ rw (y, (==_iff k db).0 y) (ground (arith, e))
    | inr m ↦ ground (arith, e)
  ]

  count-begin_mvcc_each :
      (ds : List DatabaseLocks) (store : Store A) (n : ℕ)
      → (store db).mvcc.mvcc_use_count ≡ n % 2 ^ 32
      → (begin_mvcc_each ds store db).mvcc.mvcc_use_count ≡ (n + share db ds) % 2 ^ 32
  unfolding begin_mvcc_each
  count-begin_mvcc_each [] store n e = ground (arith, e)
  count-begin_mvcc_each (d ∷ ds) store n e = elim (Option-cases d.database) [
    | inl o ↦ rw o (count-begin_mvcc_each ds store n e)
    | inr (k, o) ↦ elim (Bool-cases d.is_mvcc) [
      | inr y ↦ rw (o, y) (ground (arith, count-begin_mvcc_each ds store n e))
      | inl y ↦
          rw (o, y)
            (ground (
              arith,
              count-begin_mvcc_each ds (begin_mvcc_at k store) (if k == db then suc n else n)
                  (count-begin_mvcc_at k store n e),
            ))
    ]
  ]

  -- The count of the database after an entry, or after all.
  abbrev count_after : {B : Type 0} → Option (B × Store A) → ℕ
  count_after none = 0
  count_after (some (_, store)) = (store db).mvcc.mvcc_use_count

  entry_count :
      (k : ℕ) (d : DatabaseLocks) (store : Store A) (n : ℕ) (locks' : List Lock)
      (queue' : List QueuedMessage)
      → d.database ≡ some k
      → (store db).mvcc.mvcc_use_count ≡ (n + (if is_at db d && d.is_mvcc then 1 else 0)) % 2 ^ 32
      → (set k
          (record (store k) {
            locks = locks';
            queued_reads = queue';
            mvcc = if d.is_mvcc then end_mvcc (store k).mvcc else (store k).mvcc;
          })
          store
          db).mvcc.mvcc_use_count
        ≡ n % 2 ^ 32
  unfolding end_mvcc
  entry_count k d store n locks' queue' o e = elim (Bool-cases (db == k)) [
    | inl y ↦
        let here = ap (λ j. (store j).mvcc.mvcc_use_count) ((==_iff db k).0 y) in
        rw y (ground (arith, here, e, o))
    | inr m ↦ rw m (ground (arith, e, o))
  ]

  count-abort_entry :
      (release_all : Bool) (client : ℕ) (o : Option ℕ) (d d' : DatabaseLocks)
      (store store' : Store A) (n : ℕ)
      → d.database ≡ o
      → abort_entry release_all client o d store ≡ some (d', store')
      → (store db).mvcc.mvcc_use_count ≡ (n + (if is_at db d && d.is_mvcc then 1 else 0)) % 2 ^ 32
      → (store' db).mvcc.mvcc_use_count ≡ n % 2 ^ 32
  unfolding abort_entry
  count-abort_entry release_all client none d d' store store' n o a e =
      sym (ap count_after a) ∙ ground (arith, e, o)
  count-abort_entry release_all client (some k) d d' store store' n o a e =
      let s = store k in
      elim (Bool-cases (is_empty d.revoked_locks)) [
        | inr m ↦ absurd (ground arith)
        | inl y ↦
            elim (Option-cases (
              abort_client_transaction client (if release_all then d.locks else []) s.locks
                s.queued_reads)) [
                  | inl m ↦ absurd (ground arith)
                  | inr ((locks', queue'), p) ↦
                      sym (ap count_after (rw (y, p) at a))
                      ∙ entry_count k d store n locks' queue' o e
                ]
      ]

  abort_entries-cons :
      (release_all : Bool) (client : ℕ) (d d' : DatabaseLocks) (ds ds' : List DatabaseLocks)
      (store store' store'' : Store A)
      → abort_entry release_all client d.database d store ≡ some (d', store')
      → abort_entries release_all client ds store' ≡ some (ds', store'')
      → abort_entries release_all client (d ∷ ds) store ≡ some (d' ∷ ds', store'')
  unfolding abort_entries
  abort_entries-cons release_all client d d' ds ds' store store' store'' p q =
      rw (p, q, abort_entries)

  count-abort_entries :
      (release_all : Bool) (client : ℕ) (ds ds' : List DatabaseLocks) (store store' : Store A)
      (n : ℕ)
      → abort_entries release_all client ds store ≡ some (ds', store')
      → (store db).mvcc.mvcc_use_count ≡ (n + share db ds) % 2 ^ 32
      → (store' db).mvcc.mvcc_use_count ≡ n % 2 ^ 32
  unfolding abort_entries
  count-abort_entries release_all client [] ds' store store' n a e =
      sym (ap count_after a) ∙ ground (arith, e)
  count-abort_entries release_all client (d ∷ ds) ds' store store' n a e =
      elim (Option-cases (abort_entry release_all client d.database d store)) [
        | inl m ↦ absurd (ground arith)
        | inr ((d', store₁), p) ↦
            let e₁ =
              count-abort_entry release_all client d.database d d' store store₁ (n + share db ds)
                refl p (ground (arith, e)) in
            elim (Option-cases (abort_entries release_all client ds store₁)) [
              | inl m ↦ absurd (ground arith)
              | inr ((ds'', store₂), q) ↦
                  sym (
                    ap count_after (
                      sym
                        (abort_entries-cons release_all client d d' ds ds'' store store₁ store₂ p q)
                      ∙ a))
                  ∙ count-abort_entries release_all client ds ds'' store₁ store₂ n q e₁
            ]
      ]

  abbrev CountedIn : {B : Type 0} → ℕ → Option (B × Client × Store A) → Type 0
  CountedIn n none = Unit {0}
  CountedIn n (some (_, c, store)) = Counted n (c, store)

  count-open_database :
      (n : ℕ) (c : Client) (store : Store A) (k : ℕ) (mvcc : Bool)
      → Counted n (c, store)
      → CountedIn n (open_database k mvcc (c, store))
  unfolding open_database
  count-open_database n c store k mvcc e = elim (Option-cases (place k mvcc c.open_databases)) [
    | inl m ↦ rw (m, open_database) tt
    | inr ((id, ds), p) ↦
        let more = share-place db k mvcc c.open_databases id ds p in
        rw (p, open_database)
          (elim (Bool-cases (c.has_transaction && mvcc)) [
            | inl y ↦
                rw y (ground (arith, more, count-begin_mvcc_at k store (n + mvcc_share db c) e))
            | inr m ↦ rw m (ground (arith, more, e))
          ])
  ]

  count-abort_transaction :
      (n : ℕ) (c : Client) (store : Store A) (release_all : Bool)
      → Counted n (c, store)
      → CountedIn n (abort_transaction release_all (c, store))
  unfolding abort_transaction
  count-abort_transaction n c store release_all e = elim (Bool-cases c.has_transaction) [
    | inr m ↦ rw (m, abort_transaction) (ground (arith, e))
    | inl y ↦ elim (Option-cases (abort_entries release_all c.id c.open_databases store)) [
      | inl m ↦ rw (y, m, abort_transaction) tt
      | inr ((ds, store'), p) ↦
          rw (y, p, abort_transaction)
            (ground
              (arith, count-abort_entries release_all c.id c.open_databases ds store store' n p, e))
    ]
  ]

  -- A database's `mvccUseCount` stays the number of the uses of its MVCC snapshot by transactions:
  -- whatever the other clients have of it, `OpenDatabase` (inside a transaction or not),
  -- `BeginTransaction` outside one and `AbortTransaction` change the count as they change this
  -- client's share of it.
  pub mvcc_use_count_lem :
      (n : ℕ) (c : Client) (store : Store A)
      → Counted n (c, store)
      → ((k : ℕ) (mvcc : Bool) (id : ℕ) (c' : Client) (store' : Store A)
          → open_database k mvcc (c, store) ≡ some (id, c', store')
          → Counted n (c', store'))
        × ((priority : ℕ)
            → c.has_transaction ≡ false
            → Counted n (begin_transaction priority (c, store)))
        × ((release_all answer : Bool) (c' : Client) (store' : Store A)
            → abort_transaction release_all (c, store) ≡ some (answer, c', store')
            → Counted n (c', store'))
  unfolding begin_transaction
  mvcc_use_count_lem n c store e = (
    λ k mvcc id c' store' p. subst (CountedIn n) p (count-open_database n c store k mvcc e),
    λ priority out. ground (arith, count-begin_mvcc_each c.open_databases store n, e),
    λ release_all answer c' store' p.
        subst (CountedIn n) p (count-abort_transaction n c store release_all e),
  )
