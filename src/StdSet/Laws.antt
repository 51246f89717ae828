-- ===== src/StdSet/Laws.antt =====
-- What `find` sees after the operations of a `std::set` or a `std::map`.
use blobs_db.Base.{
  true, false, inl, inr, subst, Bool-cases, ◌≡◌, refl, ◌∙◌, ◌||◌, none, some, List, [], ◌∷◌,
  if◌then◌else◌, all, arith,
}
use blobs_db.StdSet.{
  Less, same, find, count, insert, assign, before_lower_bound, from_upper_bound, erase_range, erase,
}

-- A strict total order.
pub record IsOrder {K : Type 0} (o : Less K) : Type 0 where
  pub irreflexive : (a : K) → o.less a a ≡ false
  pub transitive : (a b c : K) → o.less a b ≡ true → o.less b c ≡ true → o.less a c ≡ true
  pub connected : (a b : K) → o.less a b ≡ false → o.less b a ≡ false → a ≡ b

module _ {A K : Type 0} ⦃o : Less K⦄ (key : A → K) (order : IsOrder o) where
  abbrev pub Sorted : List A → Type 0
  Sorted [] = Unit {0}
  Sorted (x ∷ xs) = (all (λ y. o.less (key x) (key y)) xs ≡ true) × Sorted xs

  pub find-assign :
      (k : K) (a : A) (xs : List A)
      → find key k (assign key a xs) ≡ (if same k (key a) then some a else find key k xs)
  unfolding find assign
  find-assign k a [] = ground arith
  find-assign k a (x ∷ xs) = ground (
    arith,
    find-assign k a xs,
    order.connected k (key a),
    order.connected (key x) (key a),
    order.connected k (key x),
    order.irreflexive k,
    order.irreflexive (key a),
    order.transitive k (key a) (key x),
    order.transitive (key x) k (key a),
    order.transitive (key x) (key a) k,
  )

  pub count-insert :
      (k : K) (a : A) (xs : List A)
      → count key k (insert key a xs) ≡ (same k (key a) || count key k xs)
  unfolding find insert
  count-insert k a [] = ground arith
  count-insert k a (x ∷ xs) = ground (
    arith,
    count-insert k a xs,
    order.connected k (key a),
    order.connected (key x) (key a),
    order.connected k (key x),
    order.irreflexive k,
    order.irreflexive (key a),
    order.transitive k (key a) (key x),
    order.transitive (key x) k (key a),
    order.transitive (key x) (key a) k,
  )

  -- Every element from `xs` on has a key that is above `low`.
  abbrev pub Above : K → List A → Type 0
  Above low xs = all (λ y. o.less low (key y)) xs ≡ true

  Above-lower : (a b : K) (xs : List A) → o.less a b ≡ true → Above b xs → Above a xs
  Above-lower a b [] h v = refl
  Above-lower a b (x ∷ xs) h v = ground (arith, Above-lower a b xs h, order.transitive a b (key x))

  -- Nothing is found at or below a lower bound of the keys.
  pub find-below :
      (low k : K) (xs : List A) → Above low xs → o.less low k ≡ false → find key k xs ≡ none
  unfolding find
  find-below low k [] v h = refl
  find-below low k (x ∷ xs) v h =
      ground (arith, find-below low k xs, order.transitive low (key x) k, order.connected (key x) k)

  Above-assign :
      (low : K) (a : A) (xs : List A)
      → o.less low (key a) ≡ true
      → Above low xs
      → Above low (assign key a xs)
  unfolding assign
  Above-assign low a [] h v = ground arith
  Above-assign low a (x ∷ xs) h v = ground (arith, Above-assign low a xs h)

  Above-insert :
      (low : K) (a : A) (xs : List A)
      → o.less low (key a) ≡ true
      → Above low xs
      → Above low (insert key a xs)
  unfolding insert
  Above-insert low a [] h v = ground arith
  Above-insert low a (x ∷ xs) h v = ground (arith, Above-insert low a xs h)

  pub assign-Sorted : (a : A) (xs : List A) → Sorted xs → Sorted (assign key a xs)
  unfolding assign
  assign-Sorted a [] v = (refl, tt)
  assign-Sorted a (x ∷ xs) v = elim (Bool-cases (o.less (key x) (key a))) [
    | inl y ↦ rw y (Above-assign (key x) a xs y v.0, assign-Sorted a xs v.1)
    | inr n ↦ elim (Bool-cases (o.less (key a) (key x))) [
      | inl y ↦ rw (n, y) (ground (arith, Above-lower (key a) (key x) xs y v.0), v)
      | inr m ↦ rw (n, m) (subst (λ k. Above k xs) (order.connected (key x) (key a) n m) v.0, v.1)
    ]
  ]

  pub insert-Sorted : (a : A) (xs : List A) → Sorted xs → Sorted (insert key a xs)
  unfolding insert
  insert-Sorted a [] v = (refl, tt)
  insert-Sorted a (x ∷ xs) v = elim (Bool-cases (o.less (key x) (key a))) [
    | inl y ↦ rw y (Above-insert (key x) a xs y v.0, insert-Sorted a xs v.1)
    | inr n ↦ elim (Bool-cases (o.less (key a) (key x))) [
      | inl y ↦ rw (n, y) (ground (arith, Above-lower (key a) (key x) xs y v.0), v)
      | inr m ↦ rw (n, m) v
    ]
  ]

  Above-upper : (low e : K) (xs : List A) → Above low xs → Above low (from_upper_bound key e xs)
  unfolding from_upper_bound
  Above-upper low e [] v = refl
  Above-upper low e (x ∷ xs) v = ground (arith, Above-upper low e xs)

  upper-Sorted : (e : K) (xs : List A) → Sorted xs → Sorted (from_upper_bound key e xs)
  unfolding from_upper_bound
  upper-Sorted e [] v = tt
  upper-Sorted e (x ∷ xs) v = elim (Bool-cases (o.less e (key x))) [
    | inl y ↦ rw y v
    | inr n ↦ rw n (upper-Sorted e xs v.1)
  ]

  erase_range-cons :
      (b e : K) (x : A) (xs : List A)
      → o.less e b ≡ false
      → erase_range key b e (x ∷ xs)
        ≡ (if o.less (key x) b then x ∷ erase_range key b e xs else from_upper_bound key e (x ∷ xs))
  unfolding erase_range before_lower_bound from_upper_bound
  erase_range-cons b e x xs h = ground (arith, order.transitive e (key x) b)

  Above-erase_range :
      (low b e : K) (xs : List A)
      → o.less e b ≡ false
      → Above low xs
      → Above low (erase_range key b e xs)
  unfolding erase_range before_lower_bound from_upper_bound
  Above-erase_range low b e [] h v = refl
  Above-erase_range low b e (x ∷ xs) h v =
      rw (erase_range-cons b e x xs h) (elim (Bool-cases (o.less (key x) b)) [
        | inl y ↦ rw y (ground (arith, Above-erase_range low b e xs h))
        | inr n ↦ rw n (Above-upper low e (x ∷ xs) v)
      ])

  pub erase_range-Sorted :
      (b e : K) (xs : List A) → o.less e b ≡ false → Sorted xs → Sorted (erase_range key b e xs)
  unfolding erase_range before_lower_bound from_upper_bound
  erase_range-Sorted b e [] h v = tt
  erase_range-Sorted b e (x ∷ xs) h v =
      rw (erase_range-cons b e x xs h) (elim (Bool-cases (o.less (key x) b)) [
        | inl y ↦ rw y (Above-erase_range (key x) b e xs h v.0, erase_range-Sorted b e xs h v.1)
        | inr n ↦ rw n (upper-Sorted e (x ∷ xs) v)
      ])

  find-from_upper_bound :
      (e k : K) (xs : List A)
      → Sorted xs
      → find key k (from_upper_bound key e xs) ≡ (if o.less e k then find key k xs else none)
  unfolding find from_upper_bound
  find-from_upper_bound e k [] v = ground arith
  find-from_upper_bound e k (x ∷ xs) v = ground (
    arith,
    find-from_upper_bound e k xs v.1,
    find-below (key x) k xs v.0,
    order.transitive e (key x) k,
    order.transitive (key x) e k,
    order.connected e (key x),
    order.connected e k,
    order.connected (key x) k,
    order.irreflexive k,
  )

  -- Exactly the keys from `b` to `e` are gone.
  pub find-erase_range :
      (b e k : K) (xs : List A)
      → o.less e b ≡ false
      → Sorted xs
      → find key k (erase_range key b e xs)
        ≡ (if o.less k b || o.less e k then find key k xs else none)
  unfolding find erase_range before_lower_bound from_upper_bound
  find-erase_range b e k [] h v = ground arith
  find-erase_range b e k (x ∷ xs) h v =
      rw (erase_range-cons b e x xs h) (elim (Bool-cases (o.less (key x) b)) [
        | inl y ↦ rw y (
            ground (
              arith,
              find-erase_range b e k xs h v.1,
              find-below (key x) k xs v.0,
              order.transitive k (key x) b,
              order.connected (key x) k,
            ))
        | inr n ↦ rw n (
            find-from_upper_bound e k (x ∷ xs) v
            ∙ ground (
              arith,
              find-below (key x) k xs v.0,
              order.transitive k b (key x),
              order.transitive (key x) k b,
              order.transitive e k b,
              order.connected (key x) b,
              order.connected k (key x),
              order.connected e k,
            ))
      ])

  same_refl : (k : K) → same k k ≡ true
  same_refl k = ground (arith, order.irreflexive k)

  pub same_eq : (j k : K) → same j k ≡ true → j ≡ k
  same_eq j k h = order.connected j k (ground arith) (ground arith)

  -- `erase` of a key takes just this key away.
  pub find-erase :
      (j k : K) (xs : List A)
      → Sorted xs
      → find key k (erase key j xs) ≡ (if same k j then none else find key k xs)
  unfolding erase
  find-erase j k xs v =
      find-erase_range j j k xs (order.irreflexive j) v ∙ ground (arith, order.connected k j)

  pub erase-Sorted : (k : K) (xs : List A) → Sorted xs → Sorted (erase key k xs)
  unfolding erase
  erase-Sorted k xs v = erase_range-Sorted k k xs (order.irreflexive k) v

  -- An ordered list, one element after the other.
  pub find-cons :
      (k : K) (x : A) (xs : List A)
      → Sorted (x ∷ xs)
      → find key k (x ∷ xs) ≡ (if same k (key x) then some x else find key k xs)
  unfolding find
  find-cons k x xs v =
      ground (arith, find-below (key x) k xs v.0, order.transitive k (key x) k, order.irreflexive k)

  pub find-tail : (x : A) (xs : List A) → Sorted (x ∷ xs) → find key (key x) xs ≡ none
  find-tail x xs v = find-below (key x) (key x) xs v.0 (order.irreflexive (key x))
