-- ===== src/FreeList/Allocation.antt =====
-- `AllocateMemoryBlock`: the block comes from the free blocks or from behind the end of the file.
use blobs_db.Base.{
  ℕ, ◌+◌, ◌^◌, ◌≤◌, ◌<◌, ◌≡◌, true, Option, none, some, List, [], ◌∷◌, all, length, arith,
}
use blobs_db.FreeList.{BlockReference, FreeList, take_first, allocate_memory_block, allocate_blocks}
use blobs_db.Base.Sums.{sum}
use blobs_db.FreeList.Cover.{covers, cover, below, ends_by, ends_by_mono}

abbrev pub block : ℕ → ℕ → BlockReference
block o s = record { offset = o; size = s }

-- Every free block ends by the end of the file, whose offsets fit 64 bits.
pub record IsValid (fl : FreeList) : Type 0 where
  pub in_file : all (ends_by fl.end_offset) fl.blocks ≡ true
  pub fits : fl.end_offset < 2 ^ 64

module _ (size e x : ℕ) (fits : e < 2 ^ 64) where
  -- What `take_first` takes is given up by the blocks that are left, at the address `x`.
  abbrev Taken : List BlockReference → Option (ℕ × List BlockReference) → Type 0
  Taken bs none = Unit {0}
  Taken bs (some (o, rest)) =
      (cover x rest + covers x (block o size) ≡ cover x bs)
      × (all (ends_by e) rest ≡ true)
      × (o + size ≤ e)
      × (length rest ≡ length bs)

  take_first-Taken :
      (bs : List BlockReference) → all (ends_by e) bs ≡ true → Taken bs (take_first size bs)
  unfolding take_first
  take_first-Taken [] a = tt
  take_first-Taken (b ∷ bs) a = ground (arith, take_first-Taken bs)

-- What becomes of a free list when the blocks at `locations` are allocated from it: at the address
-- `x` these blocks take what the free blocks give up and what the file grows by.
pub record Allocates (x : ℕ) (locations : List BlockReference) (room : ℕ) (fl fl' : FreeList)
    : Type 0 where
  pub accounts :
      cover x fl'.blocks + cover x locations + below x fl.end_offset
      ≡ cover x fl.blocks + below x fl'.end_offset
  pub valid : IsValid fl'
  pub grows : fl.end_offset ≤ fl'.end_offset
  pub grows_by : fl'.end_offset ≤ fl.end_offset + room
  pub placed : all (ends_by fl'.end_offset) locations ≡ true
  pub same_length : length fl'.blocks ≡ length fl.blocks
  pub same_location : fl'.file_location ≡ fl.file_location

-- `AllocateMemoryBlock` takes the block from the free blocks, or from behind the end of the file,
-- and leaves every other address as it was.
pub allocate_memory_block-Allocates :
    (size x : ℕ) (fl : FreeList)
    → IsValid fl
    → fl.end_offset + size < 2 ^ 64
    → Allocates x
        (block (allocate_memory_block size fl).0 size ∷ [])
        size
        fl
        (allocate_memory_block size fl).1
unfolding allocate_memory_block
allocate_memory_block-Allocates size x fl v h = ground (
  arith,
  take_first-Taken size fl.end_offset x v.fits fl.blocks v.in_file,
  ends_by_mono fl.end_offset (fl.end_offset + size) fl.blocks,
)

pub allocate_blocks-Allocates :
    (sizes : List ℕ) (x : ℕ) (fl : FreeList)
    → IsValid fl
    → fl.end_offset + sum (λ s. s) sizes < 2 ^ 64
    → Allocates x (allocate_blocks sizes fl).0 (sum (λ s. s) sizes) fl (allocate_blocks sizes fl).1
unfolding allocate_blocks
allocate_blocks-Allocates [] x fl v h = ground arith
allocate_blocks-Allocates (s ∷ sizes) x fl v h =
    let first = allocate_memory_block-Allocates s x fl v (omega arith) in
    let rest =
      allocate_blocks-Allocates sizes x (allocate_memory_block s fl).1 first.valid (omega arith) in
    ground (
      arith,
      ends_by_mono (allocate_memory_block s fl).1.end_offset
          (allocate_blocks sizes (allocate_memory_block s fl).1).1.end_offset
          (block (allocate_memory_block s fl).0 s ∷ []),
    )
