-- ===== src/Transaction/IdLists/Ascending.antt =====
-- The ascending order of the lists of ids, and what the merging and the sorting do to it.
use blobs_db.Base.{
  ℕ, ◌≡◌, ◌∙◌, sym, refl, Bool, true, false, ◌||◌, List, [], ◌∷◌, ◌++◌, ◌==◌, ltb, leb, filter, all,
  contains, arith, Bool-cases, inl, inr, append_assoc, append-nil,
}
use blobs_db.Transaction.Orders.{location_less}
use blobs_db.Transaction.IdLists.{last_is_above, insert_created, sort_id_in, sort}

-- No number is above a later one.
abbrev pub Ascending : List ℕ → Type 0
Ascending [] = Unit {0}
Ascending (x ∷ xs) = (all (λ y. leb x y) xs ≡ true) × Ascending xs

pub insert_created-ids :
    (needs_sort : Bool) (ids cs : List ℕ) → (insert_created needs_sort ids cs).1 ≡ ids ++ cs
unfolding insert_created
insert_created-ids needs_sort ids [] = sym (append-nil ids)
insert_created-ids needs_sort ids (c ∷ cs) =
    insert_created-ids (needs_sort || last_is_above c ids) (ids ++ (c ∷ [])) cs
    ∙ append_assoc ids (c ∷ []) cs

-- The flag stays up.
insert_created-flag :
    (needs_sort : Bool) (ids cs : List ℕ)
    → (insert_created needs_sort ids cs).0 ≡ false
    → needs_sort ≡ false
unfolding insert_created
insert_created-flag needs_sort ids [] h = h
insert_created-flag needs_sort ids (c ∷ cs) h =
    ground (arith, insert_created-flag (needs_sort || last_is_above c ids) (ids ++ (c ∷ [])) cs h)

all-last :
    (low c : ℕ) (ids : List ℕ)
    → leb low c ≡ true
    → all (λ y. leb low y) ids ≡ true
    → all (λ y. leb low y) (ids ++ (c ∷ [])) ≡ true
all-last low c [] h a = ground arith
all-last low c (x ∷ xs) h a = ground (arith, all-last low c xs h)

last_above :
    (x c : ℕ) (xs : List ℕ) → Ascending (x ∷ xs) → last_is_above c (x ∷ xs) ≡ false → leb x c ≡ true
unfolding last_is_above
last_above x c [] a h = ground arith
last_above x c (y ∷ ys) a h = ground (arith, last_above y c ys a.1)

append-Ascending :
    (ids : List ℕ) (c : ℕ)
    → Ascending ids
    → last_is_above c ids ≡ false
    → Ascending (ids ++ (c ∷ []))
unfolding last_is_above
append-Ascending [] c a h = (refl, tt)
append-Ascending (x ∷ []) c a h = (ground arith, (refl, tt))
append-Ascending (x ∷ y ∷ ys) c a h =
    (all-last x c (y ∷ ys) (last_above x c (y ∷ ys) a h) a.0, append-Ascending (y ∷ ys) c a.1 h)

pub insert_created-Ascending :
    (needs_sort : Bool) (ids cs : List ℕ)
    → (insert_created needs_sort ids cs).0 ≡ false
    → Ascending ids
    → Ascending (insert_created needs_sort ids cs).1
unfolding insert_created
insert_created-Ascending needs_sort ids [] h a = a
insert_created-Ascending needs_sort ids (c ∷ cs) h a =
    insert_created-Ascending (needs_sort || last_is_above c ids) (ids ++ (c ∷ [])) cs h (
      append-Ascending ids c a (
        ground
          (arith, insert_created-flag (needs_sort || last_is_above c ids) (ids ++ (c ∷ [])) cs h)))

contains-sort_id_in :
    (a : ℕ) (xs : List ℕ) (b : ℕ) → contains (sort_id_in a xs) b ≡ (a == b || contains xs b)
unfolding sort_id_in
contains-sort_id_in a [] b = refl
contains-sort_id_in a (x ∷ xs) b = ground (arith, contains-sort_id_in a xs b)

pub contains-sort : (xs : List ℕ) (b : ℕ) → contains (sort xs) b ≡ contains xs b
unfolding sort
contains-sort [] b = refl
contains-sort (a ∷ xs) b = ground (arith, contains-sort_id_in a (sort xs) b, contains-sort xs b)

all-sort_id_in :
    (low a : ℕ) (xs : List ℕ)
    → leb low a ≡ true
    → all (λ y. leb low y) xs ≡ true
    → all (λ y. leb low y) (sort_id_in a xs) ≡ true
unfolding sort_id_in
all-sort_id_in low a [] h v = ground arith
all-sort_id_in low a (x ∷ xs) h v = ground (arith, all-sort_id_in low a xs h)

all-lower :
    (low high : ℕ) (xs : List ℕ)
    → leb low high ≡ true
    → all (λ y. leb high y) xs ≡ true
    → all (λ y. leb low y) xs ≡ true
all-lower low high [] h v = refl
all-lower low high (x ∷ xs) h v = ground (arith, all-lower low high xs h)

sort_id_in-Ascending : (a : ℕ) (xs : List ℕ) → Ascending xs → Ascending (sort_id_in a xs)
unfolding sort_id_in
sort_id_in-Ascending a [] v = (refl, tt)
sort_id_in-Ascending a (x ∷ xs) v = elim (Bool-cases (ltb x a)) [
  | inl y ↦ rw y (all-sort_id_in x a xs (ground arith) v.0, sort_id_in-Ascending a xs v.1)
  | inr n ↦ rw n (ground (arith, all-lower a x xs (ground arith) v.0), v)
]

pub sort-Ascending : (xs : List ℕ) → Ascending (sort xs)
unfolding sort
sort-Ascending [] = tt
sort-Ascending (a ∷ xs) = sort_id_in-Ascending a (sort xs) (sort-Ascending xs)

all-filter :
    (low : ℕ) (p : ℕ → Bool) (xs : List ℕ)
    → all (λ y. leb low y) xs ≡ true
    → all (λ y. leb low y) (filter p xs) ≡ true
all-filter low p [] v = refl
all-filter low p (x ∷ xs) v = ground (arith, all-filter low p xs)

pub filter-Ascending : (p : ℕ → Bool) (xs : List ℕ) → Ascending xs → Ascending (filter p xs)
filter-Ascending p [] v = tt
filter-Ascending p (x ∷ xs) v = elim (Bool-cases (p x)) [
  | inl y ↦ rw y (all-filter x p xs v.0, filter-Ascending p xs v.1)
  | inr n ↦ rw n (filter-Ascending p xs v.1)
]
