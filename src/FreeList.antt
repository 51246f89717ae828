-- ===== src/FreeList.antt =====
-- The class `FreeList` of ServerLib/Database.cpp, with `BlockReference` of ServerLib/File.cpp.
-- Offsets and sizes are `uint64_t`. `std::sort` is a parameter: it gives some permutation that is
-- in ascending order of the offsets.
pub mod Cover
pub mod Allocation
pub mod Reorganize
pub mod CopyOnWrite
use mathlib.Core.List.{Perm}
use blobs_db.Base.{
  ℕ, ◌+◌, ◌*◌, ◌%◌, ◌^◌, ◌≤◌, Bool, not, ◌&&◌, Option, none, some, List, [], ◌∷◌, ◌++◌, filter,
  length, ltb, leb, ◌==◌, if◌then◌else◌, add64, sub64,
}

pub record BlockReference : Type 0 where
  pub offset : ℕ
  pub size : ℕ

unfoldable pub block_end_offset : BlockReference → ℕ
block_end_offset b = add64 b.offset b.size

-- Each block starts no later than the next.
abbrev pub IsAscending : List BlockReference → Type 0
IsAscending [] = Unit {0}
IsAscending (b ∷ []) = Unit {0}
IsAscending (b ∷ c ∷ bs) = (b.offset ≤ c.offset) × IsAscending (c ∷ bs)

-- `std::sort` with the comparison of the offsets.
pub record Sort : Type 0 where
  pub sort : List BlockReference → List BlockReference
  pub sort-perm : (bs : List BlockReference) → Perm (sort bs) bs
  pub sort-IsAscending : (bs : List BlockReference) → IsAscending (sort bs)

-- `file_location` is the block that holds the list itself in the file.
pub record FreeList : Type 0 where
  pub blocks : List BlockReference
  pub end_offset : ℕ
  pub file_location : BlockReference

unfoldable pub free_memory_block : BlockReference → FreeList → FreeList
free_memory_block location fl = record fl { blocks = fl.blocks ++ (location ∷ []) }

-- The first block that is large enough is shortened from its start.
take_first : ℕ → List BlockReference → Option (ℕ × List BlockReference)
take_first size [] = none
take_first size (b ∷ bs) =
    if leb size b.size
    then some (b.offset, record { offset = add64 b.offset size; size = sub64 b.size size } ∷ bs)
    else elim (take_first size bs) [ none ↦ none | some (o, rest) ↦ some (o, b ∷ rest) ]

unfoldable pub allocate_memory_block : ℕ → FreeList → ℕ × FreeList
unfolding take_first
allocate_memory_block size fl = elim (take_first size fl.blocks) [
  | some (o, rest) ↦ (o, record fl { blocks = rest })
  | none ↦ (fl.end_offset, record fl { end_offset = add64 fl.end_offset size })
]

pub is_adjacent : BlockReference → BlockReference → Bool
unfolding block_end_offset
is_adjacent pos next = block_end_offset pos == next.offset

pub joined : BlockReference → BlockReference → BlockReference
joined pos next = record { offset = sub64 next.offset pos.size; size = add64 next.size pos.size }

pub emptied : BlockReference → BlockReference
emptied pos = record pos { size = 0 }

-- The `while` loop of `Reorganize`, at `*pos` and the blocks from `*next` on.
pub merge_from : BlockReference → List BlockReference → List BlockReference
merge_from pos [] = pos ∷ []
merge_from pos (next ∷ rest) =
    (if is_adjacent pos next then emptied pos else pos)
    ∷ merge_from (if is_adjacent pos next then joined pos next else next) rest

pub merge_all : List BlockReference → List BlockReference
unfolding merge_from
merge_all [] = []
merge_all (b ∷ bs) = merge_from b bs

pub has_size : BlockReference → Bool
has_size b = not (b.size == 0)

size_of_free_list : ℕ
size_of_free_list = 16

size_of_block_reference : ℕ
size_of_block_reference = 16

unfoldable pub calculate_required_size : FreeList → ℕ
unfolding size_of_free_list size_of_block_reference
calculate_required_size fl =
    (size_of_free_list + size_of_block_reference * length fl.blocks) % 2 ^ 64

unfoldable pub estimate_required_size : ℕ → FreeList → ℕ
unfolding calculate_required_size size_of_block_reference
estimate_required_size additional fl =
    (calculate_required_size fl + size_of_block_reference * additional) % 2 ^ 64

-- The loop over `delta.GetAllocated()`, given what `CalculateRequiredSize` answers for each block,
-- in the order of the loop: the location that each block gets.
unfoldable pub allocate_blocks : List ℕ → FreeList → List BlockReference × FreeList
unfolding allocate_memory_block
allocate_blocks [] fl = ([], fl)
allocate_blocks (size ∷ sizes) fl =
    let (o, fl') = allocate_memory_block size fl in
    let (locations, fl'') = allocate_blocks sizes fl' in
    (record { offset = o; size = size } ∷ locations, fl'')

-- The loop over `delta.GetReleased()`, given the locations of the blocks.
unfoldable pub free_blocks : List BlockReference → FreeList → FreeList
unfolding free_memory_block
free_blocks [] fl = fl
free_blocks (b ∷ bs) fl = free_blocks bs (free_memory_block b fl)

module _ (std : Sort) where
  unfoldable pub reorganize : FreeList → FreeList
  unfolding merge_all has_size
  reorganize fl =
      if ltb 1 (length fl.blocks)
      then record fl { blocks = filter has_size (merge_all (std.sort fl.blocks)) }
      else fl

  -- The locations of the allocated blocks, and the new list. `delta.Allocated(this)` is the
  -- caller's: it adds the list itself to the blocks that are written.
  unfoldable pub allocate_and_apply_delta :
      List ℕ → List BlockReference → FreeList → List BlockReference × FreeList
  unfolding allocate_blocks allocate_memory_block estimate_required_size free_blocks
      free_memory_block reorganize
  allocate_and_apply_delta sizes released fl =
      let previous = fl.file_location in
      let (locations, fl1) = allocate_blocks sizes fl in
      let own_size = estimate_required_size (length released + 1) fl1 in
      let (own_offset, fl2) = allocate_memory_block own_size fl1 in
      let fl3 = record fl2 { file_location = record { offset = own_offset; size = own_size } } in
      (locations, reorganize (free_memory_block previous (free_blocks released fl3)))
