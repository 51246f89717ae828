-- ===== src/StdSet/Ranges.antt =====
-- What `find` sees in a range of a `std::set` or a `std::map`, and what is in the range.
use blobs_db.Base.{
  true, false, inl, inr, Bool-cases, not, ◌≡◌, refl, ◌∙◌, ◌||◌, none, List, [], ◌∷◌, if◌then◌else◌,
  all, arith,
}
use blobs_db.StdSet.{Less, find, from_lower_bound, before_upper_bound, range}
use blobs_db.StdSet.Laws.{IsOrder, Sorted, Above, find-below}

module _ {A K : Type 0} ⦃o : Less K⦄ (key : A → K) (order : IsOrder o) where
  find-from_lower_bound :
      (b k : K) (xs : List A)
      → Sorted key order xs
      → find key k (from_lower_bound key b xs) ≡ (if o.less k b then none else find key k xs)
  unfolding find from_lower_bound
  find-from_lower_bound b k [] v = ground arith
  find-from_lower_bound b k (x ∷ xs) v = ground (
    arith,
    find-from_lower_bound b k xs v.1,
    find-below key order (key x) k xs v.0,
    order.transitive (key x) k b,
    order.transitive k b (key x),
    order.transitive k (key x) b,
    order.connected (key x) b,
    order.connected k (key x),
    order.irreflexive k,
  )

  Above-from_lower_bound :
      (low b : K) (xs : List A)
      → Above key order low xs
      → Above key order low (from_lower_bound key b xs)
  unfolding from_lower_bound
  Above-from_lower_bound low b [] v = refl
  Above-from_lower_bound low b (x ∷ xs) v = ground (arith, Above-from_lower_bound low b xs)

  from_lower_bound-Sorted :
      (b : K) (xs : List A) → Sorted key order xs → Sorted key order (from_lower_bound key b xs)
  unfolding from_lower_bound
  from_lower_bound-Sorted b [] v = tt
  from_lower_bound-Sorted b (x ∷ xs) v = elim (Bool-cases (o.less (key x) b)) [
    | inl y ↦ rw y (from_lower_bound-Sorted b xs v.1)
    | inr n ↦ rw n v
  ]

  find-before_upper_bound :
      (e k : K) (xs : List A)
      → Sorted key order xs
      → find key k (before_upper_bound key e xs) ≡ (if o.less e k then none else find key k xs)
  unfolding find before_upper_bound
  find-before_upper_bound e k [] v = ground arith
  find-before_upper_bound e k (x ∷ xs) v = ground (
    arith,
    find-before_upper_bound e k xs v.1,
    find-below key order (key x) k xs v.0,
    order.transitive e (key x) k,
    order.transitive k e (key x),
    order.connected e k,
    order.connected (key x) k,
    order.irreflexive (key x),
  )

  -- Exactly the keys from `b` to `e` are in the range.
  pub find-range :
      (b e k : K) (xs : List A)
      → Sorted key order xs
      → find key k (range key b e xs) ≡ (if o.less k b || o.less e k then none else find key k xs)
  unfolding range
  find-range b e k xs v =
      find-before_upper_bound e k (from_lower_bound key b xs) (from_lower_bound-Sorted b xs v)
      ∙ ground (arith, find-from_lower_bound b k xs v)

  Above-before_upper_bound :
      (low e : K) (xs : List A)
      → Above key order low xs
      → Above key order low (before_upper_bound key e xs)
  unfolding before_upper_bound
  Above-before_upper_bound low e [] v = refl
  Above-before_upper_bound low e (x ∷ xs) v = ground (arith, Above-before_upper_bound low e xs)

  before_upper_bound-Sorted :
      (e : K) (xs : List A) → Sorted key order xs → Sorted key order (before_upper_bound key e xs)
  unfolding before_upper_bound
  before_upper_bound-Sorted e [] v = tt
  before_upper_bound-Sorted e (x ∷ xs) v = elim (Bool-cases (o.less e (key x))) [
    | inl y ↦ rw y tt
    | inr n ↦ rw n (Above-before_upper_bound (key x) e xs v.0, before_upper_bound-Sorted e xs v.1)
  ]

  pub range-Sorted :
      (b e : K) (xs : List A) → Sorted key order xs → Sorted key order (range key b e xs)
  unfolding range
  range-Sorted b e xs v =
      before_upper_bound-Sorted e (from_lower_bound key b xs) (from_lower_bound-Sorted b xs v)

  -- Every element of the range is in it.
  within-before_upper_bound :
      (b e : K) (xs : List A)
      → all (λ x. not (o.less (key x) b)) xs ≡ true
      → all (λ x. not (o.less (key x) b || o.less e (key x))) (before_upper_bound key e xs) ≡ true
  unfolding before_upper_bound
  within-before_upper_bound b e [] v = refl
  within-before_upper_bound b e (x ∷ xs) v = ground (arith, within-before_upper_bound b e xs)

  all-not_below :
      (b low : K) (xs : List A)
      → o.less low b ≡ false
      → Above key order low xs
      → all (λ x. not (o.less (key x) b)) xs ≡ true
  all-not_below b low [] h v = refl
  all-not_below b low (x ∷ xs) h v =
      ground (arith, all-not_below b low xs h, order.transitive low (key x) b)

  within-from_lower_bound :
      (b : K) (xs : List A)
      → Sorted key order xs
      → all (λ x. not (o.less (key x) b)) (from_lower_bound key b xs) ≡ true
  unfolding from_lower_bound
  within-from_lower_bound b [] v = refl
  within-from_lower_bound b (x ∷ xs) v =
      ground (arith, within-from_lower_bound b xs v.1, all-not_below b (key x) xs)

  pub within-range :
      (b e : K) (xs : List A)
      → Sorted key order xs
      → all (λ x. not (o.less (key x) b || o.less e (key x))) (range key b e xs) ≡ true
  unfolding range
  within-range b e xs v =
      within-before_upper_bound b e (from_lower_bound key b xs) (within-from_lower_bound b xs v)
