-- ===== src/LockTable/Release.antt =====
-- `ReleaseLock`: one client's lock at one location goes, and nothing else.
use blobs_db.Base.{
  ℕ, ◌≡◌, refl, ◌∙◌, ap, sym, subst, Bool, true, false, not, ◌&&◌, Option, none, some, List, [],
  ◌∷◌, ◌==◌, if◌then◌else◌, is_empty, is_some, inl, inr, arith, Bool-cases, Option-cases, some_eq,
  contains-of-empty,
}
use blobs_db.BlobLocation.{BlobLocation, eq}
use blobs_db.BlobLocation.Order.{eq_iff}
use blobs_db.Lock.{Lock, release, owns_write_lock}
use blobs_db.Lock.Holders.{holds, release_lem, release-IsValid}
use blobs_db.LockTable.{lookup, release_lock}
use blobs_db.Lock.Holders
use blobs_db.LockTable.Acquisition.{lookup-IsValid}
use blobs_db.LockTable.Lookup.{IsValid, holds_at, holds_in}

location-release : (c : ℕ) (k : Lock) → (release c k).1.location ≡ k.location
unfolding release
location-release c k = ground arith

-- The lock that is left, if any client still holds it.
abbrev released : ℕ → Lock → Option Lock
released c k = if (release c k).0 then none else some (release c k).1

first_released :
    (c : ℕ) (l l' : BlobLocation) (k : Lock) (ks : List Lock)
    → k.location ≡ l
    → lookup k.location ks ≡ none
    → (b : Bool) → (release c k).0 ≡ b
    → lookup l' (if b then ks else (release c k).1 ∷ ks)
      ≡ (if eq l l' then (if b then none else some (release c k).1) else lookup l' (k ∷ ks))
unfolding lookup
first_released c l l' k ks here gone true e = elim (Bool-cases (eq l l')) [
  | inl y ↦ rw y (ap (λ m. lookup m ks) (sym ((eq_iff l l').0 y) ∙ sym here) ∙ gone)
  | inr n ↦ ground (arith, eq_iff k.location l', eq_iff l l')
]
first_released c l l' k ks here gone false e =
    ground (arith, location-release c k, eq_iff k.location l', eq_iff l l')

lookup-release_lock :
    (c : ℕ) (l l' : BlobLocation) (k : Lock) (ks : List Lock)
    → IsValid ks
    → lookup l ks ≡ some k
    → (ks' : List Lock) × (release_lock c l ks ≡ some ks')
      × (lookup l' ks' ≡ (if eq l l' then released c k else lookup l' ks))
unfolding lookup release_lock
lookup-release_lock c l l' k [] v e = absurd (ground arith)
lookup-release_lock c l l' k (k' ∷ ks) v e = elim (Bool-cases (eq k'.location l)) [
  | inl y ↦
      let here : k' ≡ k = some_eq (rw y at e) in
      (
        if (release c k').0 then ks else (release c k').1 ∷ ks,
        rw y,
        rw (← here)
            (first_released c l l' k' ks ((eq_iff k'.location l).0 y) v.0 (release c k').0 refl),
      )
  | inr n ↦
      let (ks', p, q) = lookup-release_lock c l l' k ks v.2 (rw n at e) in
      (
        k' ∷ ks',
        rw (n, p),
        ground (arith, eq_iff k'.location l, eq_iff k'.location l', eq_iff l l'),
      )
]

holds-empty :
    (c : ℕ) (k : Lock) → (is_empty k.read && not (is_some k.write)) ≡ true → holds c k ≡ false
unfolding owns_write_lock
holds-empty c k h = ground (arith, contains-of-empty k.read c)

holds-released :
    (c : ℕ) (k : Lock) (c' : ℕ)
    → Holders.IsValid k
    → holds c k ≡ true
    → holds_in c' (released c k) ≡ (holds c' k && not (c' == c))
holds-released c k c' v h =
    let (left, answer) = release_lem c k v h in
    elim (Bool-cases (release c k).0) [
      | inl y ↦ rw y (sym (holds-empty c' (release c k).1 (sym answer ∙ y)) ∙ left c')
      | inr n ↦ rw n (left c')
    ]

after_release :
    (c : ℕ) (l : BlobLocation) (locks : List Lock) (c' : ℕ) (l' : BlobLocation) (k : Lock)
    → IsValid locks
    → lookup l locks ≡ some k
    → holds_at c l locks ≡ true
    → (b : Bool) → eq l l' ≡ b
    → holds_in c' (if b then released c k else lookup l' locks)
      ≡ (holds_at c' l' locks && not (b && c' == c))
after_release c l locks c' l' k v e held true y =
    let there : lookup l' locks ≡ some k = ap (λ m. lookup m locks) (sym ((eq_iff l l').0 y)) ∙ e in
    holds-released c k c' (lookup-IsValid l locks v k e) (ap (holds_in c) (sym e) ∙ held)
    ∙ ap (λ o. holds_in c' o && not (c' == c)) (sym there)
after_release c l locks c' l' k v e held false n = ground arith

-- A client that holds the lock at a location can release it: then it holds none there, and every
-- client holds what it held otherwise.
pub release_lock_lem :
    (c : ℕ) (l : BlobLocation) (locks : List Lock) (c' : ℕ) (l' : BlobLocation)
    → IsValid locks
    → holds_at c l locks ≡ true
    → (locks' : List Lock) × (release_lock c l locks ≡ some locks')
      × (holds_at c' l' locks' ≡ (holds_at c' l' locks && not (eq l l' && c' == c)))
release_lock_lem c l locks c' l' v held = elim (Option-cases (lookup l locks)) [
  | inl n ↦ absurd (ground arith)
  | inr (k, e) ↦
      let (locks', p, q) = lookup-release_lock c l l' k locks v e in
      (locks', p, ap (holds_in c') q ∙ after_release c l locks c' l' k v e held (eq l l') refl)
]

lookup-release_lock-none :
    (c : ℕ) (l l' : BlobLocation) (ks ks' : List Lock)
    → lookup l' ks ≡ none
    → release_lock c l ks ≡ some ks'
    → lookup l' ks' ≡ none
unfolding lookup release_lock
lookup-release_lock-none c l l' [] ks' n e = absurd (ground arith)
lookup-release_lock-none c l l' (k ∷ ks) ks' n e = elim (Option-cases (release_lock c l ks)) [
  | inl x ↦ ground (arith, location-release c k)
  | inr (ks'', y) ↦ ground (arith, location-release c k, lookup-release_lock-none c l l' ks ks'')
]

-- Releasing keeps the table valid.
pub release_lock-IsValid :
    (c : ℕ) (l : BlobLocation) (ks ks' : List Lock)
    → IsValid ks
    → release_lock c l ks ≡ some ks'
    → IsValid ks'
unfolding release_lock
release_lock-IsValid c l [] ks' v e = absurd (ground arith)
release_lock-IsValid c l (k ∷ ks) ks' v e = elim (Bool-cases (eq k.location l)) [
  | inl y ↦ elim (Bool-cases (release c k).0) [
    | inl gone ↦ subst IsValid (ground arith) v.2
    | inr stays ↦
        let left : ((release c k).1 ∷ ks) ≡ ks' = ground arith in
        subst IsValid left (rw (location-release c k) v.0, release-IsValid c k v.1, v.2)
  ]
  | inr n ↦ elim (Option-cases (release_lock c l ks)) [
    | inl x ↦ absurd (ground arith)
    | inr (ks'', y) ↦
        let left : (k ∷ ks'') ≡ ks' = ground arith in
        subst IsValid left (
          lookup-release_lock-none c l k.location ks ks'' v.0 y,
          v.1,
          release_lock-IsValid c l ks ks'' v.2 y,
        )
  ]
]
