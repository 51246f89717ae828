-- ===== src/FreeList/Reorganize.antt =====
-- `Reorganize`: sorting and merging neither lose nor make up a free byte.
use blobs_db.Base.{
  ℕ, ◌+◌, ◌^◌, ◌<◌, ◌≡◌, refl, ◌∙◌, true, inl, inr, &&_iff, ap, sym, append-nil, append_assoc, List,
  [], ◌∷◌, ◌++◌, all, length, ltb, Bool-cases, arith,
}
use blobs_db.Base.Perms.{sum-perm, all-perm}
use blobs_db.FreeList.{
  BlockReference, FreeList, Sort, is_adjacent, joined, emptied, merge_from, merge_all, reorganize,
  free_memory_block, free_blocks,
}
use blobs_db.FreeList.Cover.{covers, cover, ends_by, cover-filter, filter-ends_by}
use blobs_db.FreeList.Allocation.{IsValid}

module _ (e x : ℕ) (fits : e < 2 ^ 64) where
  covers-joined :
      (pos next : BlockReference)
      → is_adjacent pos next ≡ true
      → ends_by e pos ≡ true
      → ends_by e next ≡ true
      → (covers x (emptied pos) + covers x (joined pos next) ≡ covers x pos + covers x next)
        × (ends_by e (emptied pos) ≡ true)
        × (ends_by e (joined pos next) ≡ true)
  unfolding is_adjacent joined emptied
  covers-joined pos next a h k = ground arith

  cover-merge_from :
      (pos : BlockReference) (bs : List BlockReference)
      → all (ends_by e) (pos ∷ bs) ≡ true
      → (cover x (merge_from pos bs) ≡ cover x (pos ∷ bs))
        × (all (ends_by e) (merge_from pos bs) ≡ true)
  unfolding merge_from
  cover-merge_from pos [] a = ground arith
  cover-merge_from pos (next ∷ rest) a =
      let (here, behind) = (&&_iff (ends_by e pos) _).0 a in
      let (there, after) = (&&_iff (ends_by e next) _).0 behind in
      elim (Bool-cases (is_adjacent pos next)) [
        | inl j ↦
            let (same, empty_fits, joined_fits) = covers-joined pos next j here there in
            let (ih, ih_fits) =
              cover-merge_from (joined pos next) rest ((&&_iff _ _).1 (joined_fits, after)) in
            rw j (
              omega (arith, same, ih),
              (&&_iff (ends_by e (emptied pos)) _).1 (empty_fits, ih_fits),
            )
        | inr n ↦
            let (ih, ih_fits) = cover-merge_from next rest behind in
            rw n (omega (arith, ih), (&&_iff (ends_by e pos) _).1 (here, ih_fits))
      ]

  cover-merge_all :
      (bs : List BlockReference)
      → all (ends_by e) bs ≡ true
      → (cover x (merge_all bs) ≡ cover x bs) × (all (ends_by e) (merge_all bs) ≡ true)
  unfolding merge_all
  cover-merge_all [] a = (refl, refl)
  cover-merge_all (b ∷ bs) a = cover-merge_from b bs a

-- `Reorganize` keeps which addresses are free, and the list valid, whatever order `std::sort`
-- gives to blocks of one offset.
pub cover-reorganize :
    (std : Sort) (x : ℕ) (fl : FreeList)
    → IsValid fl
    → (cover x (reorganize std fl).blocks ≡ cover x fl.blocks) × IsValid (reorganize std fl)
unfolding reorganize
cover-reorganize std x fl v = elim (Bool-cases (ltb 1 (length fl.blocks))) [
  | inr n ↦ rw n (refl, v)
  | inl y ↦
      let fine = all-perm (ends_by fl.end_offset) (std.sort-perm fl.blocks) ∙ v.in_file in
      let (same, fine') = cover-merge_all fl.end_offset x v.fits (std.sort fl.blocks) fine in
      rw y (
        cover-filter x (merge_all (std.sort fl.blocks))
            ∙ same
            ∙ sum-perm (covers x) (std.sort-perm fl.blocks),
        record { in_file = filter-ends_by fl.end_offset _ fine'; fits = v.fits },
      )
]

pub free_blocks_lem :
    (bs : List BlockReference) (fl : FreeList)
    → free_blocks bs fl ≡ record fl { blocks = fl.blocks ++ bs }
unfolding free_blocks
free_blocks_lem [] fl = ap (λ l. record fl { blocks = l }) (sym (append-nil fl.blocks))
free_blocks_lem (b ∷ bs) fl =
    free_blocks_lem bs (free_memory_block b fl)
    ∙ ap (λ l. record fl { blocks = l }) (append_assoc fl.blocks (b ∷ []) bs)

pub reorganize_keeps :
    (std : Sort) (fl : FreeList)
    → ((reorganize std fl).end_offset ≡ fl.end_offset)
      × ((reorganize std fl).file_location ≡ fl.file_location)
unfolding reorganize
reorganize_keeps std fl = elim (Bool-cases (ltb 1 (length fl.blocks))) [
  | inl y ↦ rw y (refl, refl)
  | inr n ↦ rw n (refl, refl)
]
