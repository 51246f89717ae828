-- ===== src/StdSet.antt =====
-- `std::set` and `std::map` as the client library uses them: the elements in the order of their
-- keys. For a set the key of an element is the element itself, for a map the first of the pair.
pub mod Laws
pub mod Ranges
use blobs_db.Base.{
  Bool, true, false, not, ◌&&◌, Option, none, some, List, [], ◌∷◌, ◌++◌, if◌then◌else◌, is_some,
}

-- `std::less` of the keys
pub record Less (K : Type 0) : Type 0 where
  pub less : K → K → Bool

abbrev pub same : {K : Type 0} ⦃o : Less K⦄ → K → K → Bool
same ⦃o⦄ j k = not (o.less j k) && not (o.less k j)

module _ {A K : Type 0} ⦃o : Less K⦄ (key : A → K) where
  unfoldable pub find : K → List A → Option A
  find k [] = none
  find k (x ∷ xs) =
      if o.less (key x) k then find k xs else if o.less k (key x) then none else some x

  -- `count(k) != 0`
  abbrev pub count : K → List A → Bool
  count k xs = is_some (find k xs)

  -- `insert` of an element, which leaves an element of the same key.
  unfoldable pub insert : A → List A → List A
  insert a [] = a ∷ []
  insert a (x ∷ xs) =
      let rest = insert a xs in
      if o.less (key x) (key a)
      then x ∷ rest
      else if o.less (key a) (key x)
      then a ∷ x ∷ xs
      else x ∷ xs

  -- `map[k] = v` for the pair of both, which takes the place of an element of the same key.
  unfoldable pub assign : A → List A → List A
  assign a [] = a ∷ []
  assign a (x ∷ xs) =
      let rest = assign a xs in
      if o.less (key x) (key a)
      then x ∷ rest
      else if o.less (key a) (key x)
      then a ∷ x ∷ xs
      else a ∷ xs

  -- The elements before `lower_bound(k)`, those from it on, and those from `upper_bound(k)` on.
  unfoldable pub before_lower_bound : K → List A → List A
  before_lower_bound k [] = []
  before_lower_bound k (x ∷ xs) = if o.less (key x) k then x ∷ before_lower_bound k xs else []

  unfoldable pub from_lower_bound : K → List A → List A
  from_lower_bound k [] = []
  from_lower_bound k (x ∷ xs) = if o.less (key x) k then from_lower_bound k xs else x ∷ xs

  unfoldable pub from_upper_bound : K → List A → List A
  from_upper_bound k [] = []
  from_upper_bound k (x ∷ xs) = if o.less k (key x) then x ∷ xs else from_upper_bound k xs

  -- `erase(lower_bound(begin), upper_bound(end))`, and `erase` of a key.
  unfoldable pub erase_range : K → K → List A → List A
  unfolding before_lower_bound from_upper_bound
  erase_range begin end xs = before_lower_bound begin xs ++ from_upper_bound end xs

  unfoldable pub erase : K → List A → List A
  unfolding erase_range
  erase k xs = erase_range k k xs

  -- The elements from `lower_bound(begin)` to `upper_bound(end)`.
  unfoldable pub before_upper_bound : K → List A → List A
  before_upper_bound k [] = []
  before_upper_bound k (x ∷ xs) = if o.less k (key x) then [] else x ∷ before_upper_bound k xs

  unfoldable pub range : K → K → List A → List A
  unfolding from_lower_bound before_upper_bound
  range begin end xs = before_upper_bound end (from_lower_bound begin xs)
