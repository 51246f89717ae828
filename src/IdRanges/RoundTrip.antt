-- ===== src/IdRanges/RoundTrip.antt =====
-- The ranges of an id list stand for exactly its ids, and are as few as can be.
use blobs_db.Base.{
  ℕ, zero, suc, ◌+◌, ◌-◌, ◌^◌, ◌≤◌, ◌<◌, ◌≡◌, ◌≢◌, refl, ◌∙◌, ap, sym, List, [], ◌∷◌, ◌++◌, ◌==◌,
  inl, inr, append_assoc, Bool-cases, add32, All, arith,
}
use blobs_db.IdRanges.{IdRange, ranges_from, into_id_ranges}

-- The `n` numbers from `lo` on.
abbrev pub count_up : ℕ → ℕ → List ℕ
count_up lo zero = []
count_up lo (suc n) = lo ∷ count_up (lo + 1) n

-- The ids that the ranges stand for, as a client lists them.
abbrev pub expand : List IdRange → List ℕ
expand [] = []
expand (r ∷ rs) = count_up r.first (r.second - r.first) ++ expand rs

-- No range ends where the next one starts.
abbrev pub IsSeparated : List IdRange → Type 0
IsSeparated [] = Unit {0}
IsSeparated (r ∷ []) = Unit {0}
IsSeparated (r ∷ s ∷ rs) = (r.second ≢ s.first) × IsSeparated (s ∷ rs)

-- An id with a successor of 32 bits.
abbrev pub IsId : ℕ → Type 0
IsId id = id + 1 < 2 ^ 32

count_up-suc : (lo n : ℕ) → count_up lo (suc n) ≡ count_up lo n ++ ((lo + n) ∷ [])
count_up-suc lo zero = ap (λ k. k ∷ []) (omega arith)
count_up-suc lo (suc n) =
    ap (◌∷◌ lo) (count_up-suc (lo + 1) n ∙ ap (λ k. count_up (lo + 1) n ++ (k ∷ [])) (omega arith))

count_up-next :
    (lo hi hi' : ℕ)
    → lo ≤ hi
    → hi' ≡ hi + 1
    → count_up lo (hi' - lo) ≡ count_up lo (hi - lo) ++ (hi ∷ [])
count_up-next lo hi hi' h e =
    ap (count_up lo) {y = suc (hi - lo)} (omega arith)
    ∙ count_up-suc lo (hi - lo)
    ∙ ap (λ k. count_up lo (hi - lo) ++ (k ∷ [])) (omega arith)

count_up-one : (id : ℕ) → IsId id → count_up id (add32 id 1 - id) ≡ id ∷ []
count_up-one id h = ap (count_up id) {y = 1} (omega arith)

expand-ranges_from :
    (lo hi : ℕ) (ids : List ℕ)
    → lo < hi
    → hi < 2 ^ 32
    → All IsId ids
    → expand (ranges_from lo hi ids) ≡ count_up lo (hi - lo) ++ ids
unfolding ranges_from
expand-ranges_from lo hi [] h k a = refl
expand-ranges_from lo hi (id ∷ ids) h k a = elim (Bool-cases (id == hi)) [
  | inl same ↦
      let next : id ≡ hi = ground arith in
      rw (same, ranges_from)
        (expand-ranges_from lo (add32 hi 1) ids (omega arith) (omega arith) a.1
          ∙ rw (count_up-next lo hi (add32 hi 1) (omega arith) (omega arith)) (
              append_assoc (count_up lo (hi - lo)) (hi ∷ []) ids
              ∙ ap (λ k. count_up lo (hi - lo) ++ (k ∷ ids)) (sym next)))
  | inr other ↦
      rw (other, ranges_from)
        (ap (◌++◌ (count_up lo (hi - lo))) (
          expand-ranges_from id (add32 id 1) ids (omega arith) (omega arith) a.1
          ∙ ap (λ l. l ++ ids) (count_up-one id a.0)))
]

abbrev StartsAt : ℕ → List IdRange → Type 0
StartsAt lo [] = ⊥
StartsAt lo (r ∷ rs) = r.first ≡ lo

cons-IsSeparated :
    (r : IdRange) (rs : List IdRange) (lo : ℕ)
    → StartsAt lo rs
    → r.second ≢ lo
    → IsSeparated rs
    → IsSeparated (r ∷ rs)
cons-IsSeparated r [] lo s n i = tt
cons-IsSeparated r (r' ∷ rs) lo s n i = (λ e. n (e ∙ s), i)

ranges_from-IsSeparated :
    (lo hi : ℕ) (ids : List ℕ)
    → IsSeparated (ranges_from lo hi ids) × StartsAt lo (ranges_from lo hi ids)
unfolding ranges_from
ranges_from-IsSeparated lo hi [] = (tt, refl)
ranges_from-IsSeparated lo hi (id ∷ ids) = elim (Bool-cases (id == hi)) [
  | inl same ↦ rw (same, ranges_from) (ranges_from-IsSeparated lo (add32 hi 1) ids)
  | inr other ↦
      let (rest, start) = ranges_from-IsSeparated id (add32 id 1) ids in
      rw (other, ranges_from)
        (
          cons-IsSeparated (record { first = lo; second = hi }) (ranges_from id (add32 id 1) ids) id
              start (ground arith) rest,
          refl,
        )
]

-- The ranges that `intoIdRanges` gives stand for exactly the ids of the map, in order; and no two
-- neighbours could be joined. The ids must have a successor of 32 bits, as all valid ids do.
pub into_id_ranges_lem :
    (ids : List ℕ)
    → All IsId ids
    → (expand (into_id_ranges ids) ≡ ids) × IsSeparated (into_id_ranges ids)
unfolding into_id_ranges
into_id_ranges_lem [] a = (refl, tt)
into_id_ranges_lem (id ∷ ids) a = (
  expand-ranges_from id (add32 id 1) ids (omega arith) (omega arith) a.1
      ∙ ap (λ l. l ++ ids) (count_up-one id a.0),
  (ranges_from-IsSeparated id (add32 id 1) ids).0,
)

-- A range is forward, and its end is an id.
abbrev pub Fits : IdRange → Type 0
Fits r = (r.first ≤ r.second) × (r.second < 2 ^ 32)

ranges_from-Fits :
    (lo hi : ℕ) (ids : List ℕ)
    → lo ≤ hi
    → hi < 2 ^ 32
    → All IsId ids
    → All Fits (ranges_from lo hi ids)
unfolding ranges_from
ranges_from-Fits lo hi [] h k a = ((h, k), tt)
ranges_from-Fits lo hi (id ∷ ids) h k a = elim (Bool-cases (id == hi)) [
  | inl same ↦
      let next : id ≡ hi = ground arith in
      rw (same, ranges_from) (ranges_from-Fits lo (add32 hi 1) ids (omega arith) (omega arith) a.1)
  | inr other ↦
      rw (other, ranges_from)
        ((h, k), ranges_from-Fits id (add32 id 1) ids (omega arith) (omega arith) a.1)
]

pub into_id_ranges-Fits : (ids : List ℕ) → All IsId ids → All Fits (into_id_ranges ids)
unfolding into_id_ranges
into_id_ranges-Fits [] a = tt
into_id_ranges-Fits (id ∷ ids) a =
    ranges_from-Fits id (add32 id 1) ids (omega arith) (omega arith) a.1
