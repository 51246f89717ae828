-- ===== src/FlatMap/Refinement.antt =====
-- A sorted flat map does what a finite map does.
use blobs_db.Base.{
  ℕ, ◌≡◌, ◌⊎◌, refl, sym, ◌∙◌, true, false, none, some, List, [], ◌∷◌, ◌==◌, ltb, if◌then◌else◌,
  all, inl, inr, arith, Bool-cases, ==_iff, some_eq,
}
use blobs_db.FlatMap.{find, put, erase}

module _ {ℓ} {A : Type ℓ} where
  -- The keys rise from the first entry to the last.
  abbrev pub Sorted : List (ℕ × A) → Type 0
  Sorted [] = Unit {0}
  Sorted ((k, a) ∷ xs) = (all (λ (e : ℕ × A). ltb k e.0) xs ≡ true) × Sorted xs

  all-put :
      (low k : ℕ) (v : A) (xs : List (ℕ × A))
      → ltb low k ≡ true
      → all (λ (e : ℕ × A). ltb low e.0) xs ≡ true
      → all (λ (e : ℕ × A). ltb low e.0) (put k v xs) ≡ true
  unfolding put
  all-put low k v [] h a = ground arith
  all-put low k v ((j, x) ∷ xs) h a = ground (arith, all-put low k v xs h)

  all-lower :
      (low k : ℕ) (xs : List (ℕ × A))
      → ltb low k ≡ true
      → all (λ (e : ℕ × A). ltb k e.0) xs ≡ true
      → all (λ (e : ℕ × A). ltb low e.0) xs ≡ true
  all-lower low k [] h a = refl
  all-lower low k ((j, x) ∷ xs) h a = ground (arith, all-lower low k xs h)

  pub put-Sorted : (k : ℕ) (v : A) (xs : List (ℕ × A)) → Sorted xs → Sorted (put k v xs)
  unfolding put
  put-Sorted k v [] s = (refl, tt)
  put-Sorted k v ((j, x) ∷ xs) s = elim (Bool-cases (ltb j k)) [
    | inl y ↦ rw y (all-put j k v xs y s.0, put-Sorted k v xs s.1)
    | inr n ↦ elim (Bool-cases (j == k)) [
      | inl y ↦ rw (n, y) (ground arith, s.1)
      | inr m ↦ rw (n, m) (ground (arith, all-lower k j xs), s)
    ]
  ]

  all-erase :
      (low k : ℕ) (xs : List (ℕ × A))
      → all (λ (e : ℕ × A). ltb low e.0) xs ≡ true
      → all (λ (e : ℕ × A). ltb low e.0) (erase k xs) ≡ true
  unfolding erase
  all-erase low k [] a = refl
  all-erase low k ((j, x) ∷ xs) a = ground (arith, all-erase low k xs)

  pub erase-Sorted : (k : ℕ) (xs : List (ℕ × A)) → Sorted xs → Sorted (erase k xs)
  unfolding erase
  erase-Sorted k [] s = tt
  erase-Sorted k ((j, x) ∷ xs) s = elim (Bool-cases (ltb j k)) [
    | inl y ↦ rw y (all-erase j k xs s.0, erase-Sorted k xs s.1)
    | inr n ↦ elim (Bool-cases (j == k)) [ inl y ↦ rw (n, y) s.1 | inr m ↦ rw (n, m) s ]
  ]

  pub find-put :
      (k : ℕ) (v : A) (xs : List (ℕ × A)) (i : ℕ)
      → find i (put k v xs) ≡ (if i == k then some v else find i xs)
  unfolding find put
  find-put k v [] i = ground arith
  find-put k v ((j, x) ∷ xs) i = ground (arith, find-put k v xs i)

  -- What is found after an assignment is the value assigned, or was there.
  pub find-put-cases :
      (k : ℕ) (v : A) (xs : List (ℕ × A)) (i : ℕ) (x : A)
      → find i (put k v xs) ≡ some x
      → ((k ≡ i) × (v ≡ x)) ⊎ (find i xs ≡ some x)
  find-put-cases k v xs i x e = elim (Bool-cases (i == k)) [
    | inl y ↦ inl (sym ((==_iff i k).0 y), some_eq (sym (rw y at (find-put k v xs i)) ∙ e))
    | inr n ↦ inr (sym (rw n at (find-put k v xs i)) ∙ e)
  ]

  -- Nothing is found below the lowest key.
  find-below :
      (k : ℕ) (xs : List (ℕ × A)) (i : ℕ)
      → all (λ (e : ℕ × A). ltb k e.0) xs ≡ true
      → ltb k i ≡ false
      → find i xs ≡ none
  unfolding find
  find-below k [] i a h = refl
  find-below k ((j, x) ∷ xs) i a h = ground (arith, find-below k xs i)

  pub find-erase :
      (k : ℕ) (xs : List (ℕ × A)) (i : ℕ)
      → Sorted xs
      → find i (erase k xs) ≡ (if i == k then none else find i xs)
  unfolding find erase
  find-erase k [] i s = ground arith
  find-erase k ((j, x) ∷ xs) i s = ground (arith, find-erase k xs i s.1, find-below j xs i s.0)

  -- `operator[]` and `erase` keep the keys in order, and the map that `find` reads changes at
  -- their key only: there it has the new value, or none.
  pub flat_map_lem :
      (k : ℕ) (v : A) (xs : List (ℕ × A)) (i : ℕ)
      → Sorted xs
      → (Sorted (put k v xs) × (find i (put k v xs) ≡ (if i == k then some v else find i xs)))
        × (Sorted (erase k xs) × (find i (erase k xs) ≡ (if i == k then none else find i xs)))
  flat_map_lem k v xs i s =
      ((put-Sorted k v xs s, find-put k v xs i), (erase-Sorted k xs s, find-erase k xs i s))
