-- ===== src/FlatMap.antt =====
-- ServerLib/include/server/sorted_flat_map.hpp: a map as the list of its entries in the order of
-- their keys. `lower_bound` stops at the first entry whose key is not below the one sought.
pub mod Refinement
use blobs_db.Base.{
  ℕ, Bool, true, false, Option, none, some, List, [], ◌∷◌, ◌==◌, ltb, if◌then◌else◌,
}

module _ {ℓ} {A : Type ℓ} where
  unfoldable pub find : ℕ → List (ℕ × A) → Option A
  find k [] = none
  find k ((j, a) ∷ xs) = if ltb j k then find k xs else if j == k then some a else none

  -- `operator[]` with an assignment to the value
  unfoldable pub put : ℕ → A → List (ℕ × A) → List (ℕ × A)
  put k v [] = (k, v) ∷ []
  put k v ((j, a) ∷ xs) =
      let rest = put k v xs in
      if ltb j k then (j, a) ∷ rest else if j == k then (k, v) ∷ xs else (k, v) ∷ (j, a) ∷ xs

  -- `erase(key)`
  unfoldable pub erase : ℕ → List (ℕ × A) → List (ℕ × A)
  erase k [] = []
  erase k ((j, a) ∷ xs) =
      let rest = erase k xs in if ltb j k then (j, a) ∷ rest else if j == k then xs else (j, a) ∷ xs
