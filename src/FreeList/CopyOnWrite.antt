-- ===== src/FreeList/CopyOnWrite.antt =====
-- `AllocateAndApplyDelta`: what a commit does to the space in the file.
use blobs_db.Base.{
  ℕ, ◌+◌, ◌^◌, ◌≤◌, ◌<◌, ◌≡◌, ap, true, List, [], ◌∷◌, ◌++◌, all, all-append, length, arith,
}
use blobs_db.Base.Sums.{sum, sum-append}
use blobs_db.FreeList.{
  BlockReference, FreeList, Sort, reorganize, free_memory_block, allocate_blocks,
  allocate_memory_block, estimate_required_size, allocate_and_apply_delta,
}
use blobs_db.FreeList.Cover.{covers, cover, below, below-le, ends_by, ends_by_mono}
use blobs_db.FreeList.Allocation.{
  IsValid, block, Allocates, allocate_memory_block-Allocates, allocate_blocks-Allocates,
}
use blobs_db.FreeList.Reorganize.{reorganize_keeps, cover-reorganize, free_blocks_lem}

-- Each address of the file is free or in use, and never both or twice; nothing lies beyond the end.
pub record Accounts (fl : FreeList) (used : List BlockReference) : Type 0 where
  pub accounted : (x : ℕ) → cover x fl.blocks + cover x used ≡ below x fl.end_offset
  pub valid : IsValid fl
  pub used_in_file : all (ends_by fl.end_offset) used ≡ true

estimate-same_length :
    (n : ℕ) (fl fl' : FreeList)
    → length fl'.blocks ≡ length fl.blocks
    → estimate_required_size n fl' ≡ estimate_required_size n fl
unfolding estimate_required_size
estimate-same_length n fl fl' e = rw e

module _ (std : Sort) (sizes : List ℕ) (released kept : List BlockReference) (fl : FreeList)
    (a : Accounts fl (fl.file_location ∷ released ++ kept))
    (room : fl.end_offset + sum (λ s. s) sizes + estimate_required_size (length released + 1) fl
      < 2 ^ 64) where
  abbrev fl1 : FreeList
  fl1 = (allocate_blocks sizes fl).1

  abbrev own_size : ℕ
  own_size = estimate_required_size (length released + 1) fl1

  abbrev own : BlockReference
  own = block (allocate_memory_block own_size fl1).0 own_size

  abbrev fl2 : FreeList
  fl2 = record (allocate_memory_block own_size fl1).1 { file_location = own }

  abbrev freed : List BlockReference
  freed = (fl2.blocks ++ released) ++ (fl.file_location ∷ [])

  result_lem :
      allocate_and_apply_delta std sizes released fl
      ≡ ((allocate_blocks sizes fl).0, reorganize std (record fl2 { blocks = freed }))
  unfolding allocate_and_apply_delta
  result_lem =
      ap
        (λ l. ((allocate_blocks sizes fl).0, reorganize std (free_memory_block fl.file_location l)))
        (free_blocks_lem released fl2)

  abbrev locations : List BlockReference
  locations = (allocate_blocks sizes fl).0

  first : (x : ℕ) → Allocates x locations (sum (λ s. s) sizes) fl fl1
  first x = allocate_blocks-Allocates sizes x fl a.valid (omega arith)

  own_room : fl1.end_offset + own_size < 2 ^ 64
  own_room = omega (
    arith,
    (first 0).grows_by,
    estimate-same_length (length released + 1) fl fl1 (first 0).same_length,
  )

  second : (x : ℕ) → Allocates x (own ∷ []) own_size fl1 (allocate_memory_block own_size fl1).1
  second x = allocate_memory_block-Allocates own_size x fl1 (first 0).valid own_room

  accounted-freed :
      (x : ℕ) → cover x freed + cover x (own ∷ locations ++ kept) ≡ below x fl2.end_offset
  accounted-freed x = omega (
    arith,
    a.accounted x,
    (first x).accounts,
    (second x).accounts,
    sum-append (covers x) (fl2.blocks ++ released) (fl.file_location ∷ []),
    sum-append (covers x) fl2.blocks released,
    sum-append (covers x) released kept,
    sum-append (covers x) locations kept,
  )

  grows : fl.end_offset ≤ fl2.end_offset
  grows = omega (arith, (first 0).grows, (second 0).grows)

  used_before : all (ends_by fl2.end_offset) (fl.file_location ∷ released ++ kept) ≡ true
  used_before =
      ends_by_mono fl.end_offset fl2.end_offset (fl.file_location ∷ released ++ kept) grows
        a.used_in_file

  freed-IsValid : IsValid (record fl2 { blocks = freed })
  freed-IsValid = record {
    in_file = ground (
      arith,
      (second 0).valid,
      used_before,
      all-append (ends_by fl2.end_offset) (fl2.blocks ++ released) (fl.file_location ∷ []),
      all-append (ends_by fl2.end_offset) fl2.blocks released,
      all-append (ends_by fl2.end_offset) released kept,
    );
    fits = (second 0).valid.fits;
  }

  used_after : all (ends_by fl2.end_offset) (own ∷ locations ++ kept) ≡ true
  used_after = ground (
    arith,
    (second 0).placed,
    used_before,
    ends_by_mono fl1.end_offset fl2.end_offset locations (second 0).grows (first 0).placed,
    all-append (ends_by fl2.end_offset) locations kept,
    all-append (ends_by fl2.end_offset) released kept,
  )

  abbrev result : FreeList
  result = reorganize std (record fl2 { blocks = freed })

  result-Accounts : Accounts result (result.file_location ∷ locations ++ kept)
  result-Accounts =
      let (end, place) = reorganize_keeps std (record fl2 { blocks = freed }) in
      record {
        accounted = λ x.
            let (same, _) = cover-reorganize std x (record fl2 { blocks = freed }) freed-IsValid in
            rw (end, place) (omega (arith, same, accounted-freed x));
        valid = (cover-reorganize std 0 (record fl2 { blocks = freed }) freed-IsValid).1;
        used_in_file = rw place (
            ends_by_mono fl2.end_offset result.end_offset (own ∷ locations ++ kept)
              (omega (arith, end)) used_after);
      }

  written_blocks_are_fresh :
      (x : ℕ)
      → 0 < cover x (result.file_location ∷ locations)
      → cover x (fl.file_location ∷ released ++ kept) ≡ 0
  written_blocks_are_fresh x h =
      let (end, place) = reorganize_keeps std (record fl2 { blocks = freed }) in
      omega (
        arith,
        a.accounted x,
        (first x).accounts,
        (second x).accounts,
        ap (covers x) place,
        below-le x fl.end_offset,
        below-le x fl1.end_offset,
        below-le x (allocate_memory_block own_size fl1).1.end_offset,
      )

-- A commit keeps the books of the file: if every address was free or in use exactly once, then so
-- it is afterwards, where the blocks in use are the new blocks and the list's own new block in
-- place of the released ones and the list's old block. The file must not outgrow 64 bits.
pub allocate_and_apply_delta-Accounts :
    (std : Sort) (sizes : List ℕ) (released kept : List BlockReference) (fl : FreeList)
    → Accounts fl (fl.file_location ∷ released ++ kept)
    → fl.end_offset + sum (λ s. s) sizes + estimate_required_size (length released + 1) fl < 2 ^ 64
    → let (locations, fl') = allocate_and_apply_delta std sizes released fl in
      Accounts fl' (fl'.file_location ∷ locations ++ kept)
allocate_and_apply_delta-Accounts std sizes released kept fl a room =
    rw (result_lem std sizes released kept fl a room)
      (result-Accounts std sizes released kept fl a room)

-- Copy-on-write: no block that a commit writes, the list's own block included, shares an address
-- with a block that was in use before, also with none that the commit releases.
pub allocate_and_apply_delta-fresh :
    (std : Sort) (sizes : List ℕ) (released kept : List BlockReference) (fl : FreeList)
    → Accounts fl (fl.file_location ∷ released ++ kept)
    → fl.end_offset + sum (λ s. s) sizes + estimate_required_size (length released + 1) fl < 2 ^ 64
    → (x : ℕ)
    → (let (locations, fl') = allocate_and_apply_delta std sizes released fl in
        0 < cover x (fl'.file_location ∷ locations))
    → cover x (fl.file_location ∷ released ++ kept) ≡ 0
allocate_and_apply_delta-fresh std sizes released kept fl a room x h =
    written_blocks_are_fresh std sizes released kept fl a room x
      (rw (result_lem std sizes released kept fl a room) at h)
