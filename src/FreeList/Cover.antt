-- ===== src/FreeList/Cover.antt =====
-- How often an address of the file lies in a list of blocks.
use blobs_db.Base.{
  ℕ, ◌+◌, ◌≤◌, ◌≡◌, refl, Bool, true, ◌&&◌, List, [], ◌∷◌, filter, all, ltb, leb, if◌then◌else◌,
  arith,
}
use blobs_db.Base.Sums.{sum}
use blobs_db.FreeList.{BlockReference, has_size}

-- 1 if the address lies in the block, else 0.
abbrev pub covers : ℕ → BlockReference → ℕ
covers x b = if leb b.offset x && ltb x (b.offset + b.size) then 1 else 0

abbrev pub cover : ℕ → List BlockReference → ℕ
cover x bs = sum (covers x) bs

-- 1 if the address lies below the end, else 0.
abbrev pub below : ℕ → ℕ → ℕ
below x e = if ltb x e then 1 else 0

pub below-le : (x e : ℕ) → below x e ≤ 1
below-le x e = ground arith

-- The block ends at the given offset or before.
abbrev pub ends_by : ℕ → BlockReference → Bool
ends_by e b = leb (b.offset + b.size) e

pub ends_by_mono :
    (e e' : ℕ) (bs : List BlockReference)
    → e ≤ e'
    → all (ends_by e) bs ≡ true
    → all (ends_by e') bs ≡ true
ends_by_mono e e' [] h a = refl
ends_by_mono e e' (b ∷ bs) h a = ground (arith, ends_by_mono e e' bs h)

pub cover-beyond :
    (e x : ℕ) (bs : List BlockReference) → all (ends_by e) bs ≡ true → e ≤ x → cover x bs ≡ 0
cover-beyond e x [] a h = refl
cover-beyond e x (b ∷ bs) a h = ground (arith, cover-beyond e x bs)

pub cover-filter : (x : ℕ) (bs : List BlockReference) → cover x (filter has_size bs) ≡ cover x bs
unfolding has_size
cover-filter x [] = refl
cover-filter x (b ∷ bs) = ground (arith, cover-filter x bs)

pub filter-ends_by :
    (e : ℕ) (bs : List BlockReference)
    → all (ends_by e) bs ≡ true
    → all (ends_by e) (filter has_size bs) ≡ true
filter-ends_by e [] a = refl
filter-ends_by e (b ∷ bs) a = ground (arith, filter-ends_by e bs)
