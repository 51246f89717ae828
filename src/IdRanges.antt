-- ===== src/IdRanges.antt =====
-- `intoIdRanges` of ServerLib/Server.cpp: the ids of a flat map as half-open ranges. An id is a
-- `uint32_t`.
pub mod RoundTrip
use blobs_db.Base.{ℕ, zero, suc, ◌-◌, List, [], ◌∷◌, ◌++◌, Bool, true, false, ◌==◌, add32}

-- `Range<id_type>`, from `first` up to but without `second`
pub record IdRange : Type 0 where
  pub first : ℕ
  pub second : ℕ

-- The `while` loop, with `currentRange` from `lo` to `hi`.
pub ranges_from : ℕ → ℕ → List ℕ → List IdRange
ranges_from lo hi [] = record { first = lo; second = hi } ∷ []
ranges_from lo hi (id ∷ ids) = elim (id == hi) [
  | true ↦ ranges_from lo (add32 hi 1) ids
  | false ↦ record { first = lo; second = hi } ∷ ranges_from id (add32 id 1) ids
]

unfoldable pub into_id_ranges : List ℕ → List IdRange
unfolding ranges_from
into_id_ranges [] = []
into_id_ranges (id ∷ ids) = ranges_from id (add32 id 1) ids
