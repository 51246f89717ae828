-- ===== src/ClientLocks/Releasing.antt =====
-- A client gives up locks: those of deleted blobs, or all in a database.
use blobs_db.Base.{
  ℕ, ◌≡◌, ◌+◌, ◌<◌, ◌^◌, refl, ap, sym, ◌∙◌, Bool, true, not, ◌&&◌, some, List, [], ◌∷◌, ◌==◌,
  if◌then◌else◌, filter, length, inl, inr, arith, Bool-cases, Option-cases, ==_iff,
}
use blobs_db.BlobLocation.{BlobLocation, eq}
use blobs_db.BlobLocation.Order.{eq_iff, eq_refl}
use blobs_db.Lock.{Lock}
use blobs_db.LockTable.{release_lock, release_locks}
use blobs_db.LockTable.Lookup.{IsValid, holds_at}
use blobs_db.LockTable.Release.{release_lock_lem, release_lock-IsValid}
use blobs_db.ClientLocks.{
  DatabaseLocks, has, apply_revoked_locks, release_deleted, release_deleted_locks,
  release_all_locks_for_database,
}
use blobs_db.ClientLocks.Agreement.{Agrees, Distinct, has-filter, filter-Distinct}

length-filter-without :
    (l : BlobLocation) (ls : List BlobLocation)
    → Distinct ls
    → length (filter (λ m. not (eq l m)) ls) + (if has l ls then 1 else 0) ≡ length ls
length-filter-without l [] d = omega arith
length-filter-without l (m ∷ ls) d =
    ground (arith, length-filter-without l ls d.1, eq_iff m l, eq_iff l m)

filter-has-cons :
    (r : BlobLocation) (rs ls : List BlobLocation)
    → filter (λ l. not (has l (r ∷ rs))) ls
      ≡ filter (λ l. not (has l rs)) (filter (λ l. not (eq r l)) ls)
filter-has-cons r rs [] = refl
filter-has-cons r rs (l ∷ ls) = ground (arith, filter-has-cons r rs ls)

filter-true : (ls : List BlobLocation) → filter (λ l. true) ls ≡ ls
filter-true [] = refl
filter-true (l ∷ ls) = ap (λ ms. l ∷ ms) (filter-true ls)

-- Taking distinct members off a distinct list makes it shorter by their number.
pub length-filter-has :
    (rs ls : List BlobLocation)
    → Distinct rs
    → Distinct ls
    → ((l : BlobLocation) → has l rs ≡ true → has l ls ≡ true)
    → length (filter (λ l. not (has l rs)) ls) + length rs ≡ length ls
length-filter-has [] ls d d' h = omega (arith, ap length (filter-true ls))
length-filter-has (r ∷ rs) ls d d' h =
    let rest =
      length-filter-has rs (filter (λ m. not (eq r m)) ls) d.1
        (filter-Distinct (λ m. not (eq r m)) ls d')
        (λ l k. ground (arith, h l, has-filter (λ m. not (eq r m)) ls l, eq_iff r l)) in
    let one = length-filter-without r ls d' in
    ground (arith, filter-has-cons r rs ls, rest, one, h r, eq_refl r)

-- The assertion of `ApplyRevokedLocks` holds for an entry that agrees with the table.
pub apply_revoked_locks_lem :
    (c : ℕ) (table : List Lock) (d : DatabaseLocks)
    → Agrees c table d
    → length d.locks < 2 ^ 64
    → apply_revoked_locks d
      ≡ some (record d { locks = filter (λ l. not (has l d.revoked_locks)) d.locks })
unfolding apply_revoked_locks
apply_revoked_locks_lem c table d a short =
    ground (arith, length-filter-has d.revoked_locks d.locks a.revoked_distinct a.distinct a.known)

-- The client holds exactly the locks that are left.
pub kept_locks_lem :
    (c : ℕ) (table : List Lock) (d : DatabaseLocks)
    → Agrees c table d
    → (l : BlobLocation)
    → has l (filter (λ m. not (has m d.revoked_locks)) d.locks) ≡ holds_at c l table
kept_locks_lem c table d a l =
    has-filter (λ m. not (has m d.revoked_locks)) d.locks l ∙ sym (a.held l)

-- The client gave up the locks at these locations, and nothing else changed.
pub record Released (c : ℕ) (gone : BlobLocation → Bool) (table table' : List Lock) : Type 0 where
  pub valid : IsValid table'
  pub held :
      (c' : ℕ) (l : BlobLocation)
      → holds_at c' l table' ≡ (holds_at c' l table && not (c' == c && gone l))

release_one :
    (c : ℕ) (l : BlobLocation) (table : List Lock)
    → IsValid table
    → holds_at c l table ≡ true
    → (table' : List Lock) × (release_lock c l table ≡ some table')
      × Released c (λ l'. eq l l') table table'
release_one c l table v h = elim (Option-cases (release_lock c l table)) [
  | inl n ↦ let (table', p, q) = release_lock_lem c l table c l v h in absurd (ground arith)
  | inr (table', e) ↦ (
    table',
    e,
    record {
      valid = release_lock-IsValid c l table table' v e;
      held = λ c' l'. let (table'', p, q) = release_lock_lem c l table c' l' v h in ground arith;
    },
  )
]

release_locks-cons :
    (c : ℕ) (l : BlobLocation) (ls : List BlobLocation) (table table' : List Lock)
    → release_lock c l table ≡ some table'
    → release_locks c (l ∷ ls) table ≡ release_locks c ls table'
unfolding release_locks
release_locks-cons c l ls table table' e = rw (e, release_locks)

-- `ReleaseLocks` of distinct locks that the client holds never meets the assertion of
-- `ReleaseLock`, and takes exactly these.
release_locks_lem :
    (c : ℕ) (ls : List BlobLocation) (table : List Lock)
    → IsValid table
    → Distinct ls
    → ((l : BlobLocation) → has l ls ≡ true → holds_at c l table ≡ true)
    → (table' : List Lock) × (release_locks c ls table ≡ some table')
      × Released c (λ l. has l ls) table table'
unfolding release_locks
release_locks_lem c [] table v d h =
    (table, refl, record { valid = v; held = λ c' l. ground arith })
release_locks_lem c (l ∷ ls) table v d h =
    let (table₁, e, r) = release_one c l table v (h l (ground (arith, eq_refl l))) in
    let (table', p, r') =
      release_locks_lem c ls table₁ r.valid d.1
        (λ l' k. ground (arith, r.held c l', h l', eq_iff l l')) in
    (
      table',
      release_locks-cons c l ls table table₁ e ∙ p,
      record { valid = r'.valid; held = λ c' l'. ground (arith, r'.held c' l', r.held c' l') },
    )

release_all-steps :
    (c : ℕ) (table table' : List Lock) (d d' : DatabaseLocks)
    → apply_revoked_locks d ≡ some d'
    → release_locks c d'.locks table ≡ some table'
    → release_all_locks_for_database c (table, d)
      ≡ some (table', record d' { locks = []; revoked_locks = [] })
unfolding release_all_locks_for_database
release_all-steps c table table' d d' e p = rw (e, p, release_all_locks_for_database)

-- `ReleaseAllLocksForDatabase` always comes to its end, without a failed assertion: afterwards the
-- table gives this client no lock, every other client what it had, and the entry of the client
-- agrees with it, without a lock.
pub release_all_locks_for_database_lem :
    (c : ℕ) (table : List Lock) (d : DatabaseLocks)
    → IsValid table
    → Agrees c table d
    → length d.locks < 2 ^ 64
    → (table' : List Lock) × (release_all_locks_for_database c (table, d)
        ≡ some (table', record d { locks = []; revoked_locks = [] }))
      × IsValid table'
      × ((c' : ℕ) (l : BlobLocation)
          → holds_at c' l table' ≡ (holds_at c' l table && not (c' == c)))
release_all_locks_for_database_lem c table d v a short =
    let kept = filter (λ l. not (has l d.revoked_locks)) d.locks in
    let (table', p, r) =
      release_locks_lem c kept table v
        (filter-Distinct (λ l. not (has l d.revoked_locks)) d.locks a.distinct)
        (λ l h. sym (kept_locks_lem c table d a l) ∙ h) in
    (
      table',
      release_all-steps c table table' d _ (apply_revoked_locks_lem c table d a short) p,
      r.valid,
      λ c' l. ground (arith, r.held c' l, kept_locks_lem c table d a l, ==_iff c' c),
    )

release_deleted-eq-release_locks :
    (is_deleted : BlobLocation → Bool) (c : ℕ) (ls : List BlobLocation) (table table' : List Lock)
    → release_locks c (filter is_deleted ls) table ≡ some table'
    → release_deleted is_deleted c ls table ≡ some (filter (λ l. not (is_deleted l)) ls, table')
unfolding release_deleted release_locks
release_deleted-eq-release_locks is_deleted c [] table table' e = ground arith
release_deleted-eq-release_locks is_deleted c (l ∷ ls) table table' e =
    elim (Bool-cases (is_deleted l)) [
      | inl y ↦ elim (Option-cases (release_lock c l table)) [
        | inl n ↦ absurd (ground arith)
        | inr (table₁, p) ↦
            ground (arith, release_deleted-eq-release_locks is_deleted c ls table₁ table')
      ]
      | inr n ↦ ground (arith, release_deleted-eq-release_locks is_deleted c ls table table')
    ]

release_deleted_locks-steps :
    (is_deleted : BlobLocation → Bool) (c : ℕ) (table table' : List Lock) (d : DatabaseLocks)
    → release_locks c (filter is_deleted d.locks) table ≡ some table'
    → release_deleted_locks is_deleted c (table, d)
      ≡ some (table', record d { locks = filter (λ l. not (is_deleted l)) d.locks })
unfolding release_deleted_locks
release_deleted_locks-steps is_deleted c table table' d p =
    rw (release_deleted-eq-release_locks is_deleted c d.locks table table' p, release_deleted_locks)

-- `ReleaseDeletedLocks` of a client in a transaction never meets an assertion: it takes exactly the
-- client's locks on what is deleted, and the entries of all clients still agree with the table.
pub release_deleted_locks_agree :
    (is_deleted : BlobLocation → Bool) (c : ℕ) (table : List Lock) (entries : ℕ → DatabaseLocks)
    → IsValid table
    → ((c' : ℕ) → Agrees c' table (entries c'))
    → (entries c).revoked_locks ≡ []
    → (table' : List Lock) × (d' : DatabaseLocks) × (release_deleted_locks is_deleted c
          (table, entries c)
        ≡ some (table', d'))
      × IsValid table'
      × ((l : BlobLocation) → holds_at c l table' ≡ (holds_at c l table && not (is_deleted l)))
      × ((c' : ℕ) → Agrees c' table' (if c' == c then d' else entries c'))
release_deleted_locks_agree is_deleted c table entries v a active =
    let ls = (entries c).locks in
    let (table', p, r) =
      release_locks_lem c (filter is_deleted ls) table v
        (filter-Distinct is_deleted ls (a c).distinct)
        (λ l h. ground (arith, has-filter is_deleted ls l, (a c).held l, active)) in
    let left : (l : BlobLocation)
        → holds_at c l table' ≡ (holds_at c l table && not (is_deleted l)) =
      λ l. ground (arith, r.held c l, has-filter is_deleted ls l, (a c).held l) in
    (
      table',
      record (entries c) { locks = filter (λ l. not (is_deleted l)) ls },
      release_deleted_locks-steps is_deleted c table table' (entries c) p,
      r.valid,
      left,
      λ c'. elim (Bool-cases (c' == c)) [
        | inl y ↦
            rw (y, (==_iff c' c).0 y)
              record {
                held = λ l. ground (
                  arith,
                  left l,
                  has-filter (λ m. not (is_deleted m)) ls l,
                  (a c).held l,
                  active,
                );
                known = λ l h. ground (arith, active);
                distinct = filter-Distinct (λ l. not (is_deleted l)) ls (a c).distinct;
                revoked_distinct = (a c).revoked_distinct;
              }
        | inr n ↦ rw n record {
          held = λ l. ground (arith, r.held c' l, (a c').held l);
          known = (a c').known;
          distinct = (a c').distinct;
          revoked_distinct = (a c').revoked_distinct;
        }
      ],
    )
