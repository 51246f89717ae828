-- ===== src/BlockTable.antt =====
-- How a snapshot, a segment and a cluster are stored in the file: a header and then, for each group
-- of contiguous ids, the range of the ids and one block reference for each. ServerLib/File.hpp has
-- the layout; the three loops over the map are one in ServerLib/Database.cpp (`Snapshot`),
-- ServerLib/Segment.cpp and ServerLib/Cluster.cpp, and so they are one here. Ids are `uint32_t`.
pub mod RoundTrip
use blobs_db.Base.{
  ℕ, ◌+◌, ◌*◌, ◌-◌, Bool, true, false, not, ◌&&◌, ◌||◌, Option, none, some, List, [], ◌∷◌, ◌++◌,
  ◌==◌, if◌then◌else◌, length, add32,
}
use blobs_db.FreeList.{BlockReference}

-- An entry of the flat map, with the `fileLocation` of the block that it points to.
pub record Entry : Type 0 where
  pub id : ℕ
  pub location : BlockReference

-- What the buffer holds behind its header: the two ids of a `Range`, or a `BlockReference`.
pub data Cell : Type 0 where
  range : ℕ → ℕ → Cell
  reference : BlockReference → Cell

-- `sizeof` of the headers `file::Snapshot`, `file::Segment` and `file::Cluster` (each 16, with the
-- padding), of `Range<uint32_t>` and of `BlockReference`.
abbrev pub header_size : ℕ
header_size = 16

abbrev pub range_size : ℕ
range_size = 8

abbrev pub reference_size : ℕ
reference_size = 16

-- `!lastId || id != *lastId + 1`
starts_block : Option ℕ → ℕ → Bool
starts_block none id = true
starts_block (some last) id = not (id == add32 last 1)

-- The loop of `CalculateRequiredSize`.
count_contiguous_blocks : Option ℕ → List Entry → ℕ
unfolding starts_block
count_contiguous_blocks last [] = 0
count_contiguous_blocks last (e ∷ es) =
    (if starts_block last e.id then 1 else 0) + count_contiguous_blocks (some e.id) es

unfoldable pub calculate_required_size : List Entry → ℕ
unfolding count_contiguous_blocks
calculate_required_size es =
    header_size + range_size * count_contiguous_blocks none es + reference_size * length es

-- The loops of `SerializeIntoBuffer` in one: `start` and `end` are the ids of the current range,
-- and `written` the references that follow its header. The header is filled in when the range ends.
serialize_from : ℕ → ℕ → List Cell → List Entry → List Cell
serialize_from start end written [] = range start (add32 end 1) ∷ written
serialize_from start end written (e ∷ es) = elim (e.id == add32 end 1) [
  | true ↦ serialize_from start (add32 end 1) (written ++ (reference e.location ∷ [])) es
  | false ↦
      (range start (add32 end 1) ∷ written)
      ++ serialize_from e.id e.id (reference e.location ∷ []) es
]

unfoldable pub serialize : List Entry → List Cell
unfolding serialize_from
serialize [] = []
serialize (e ∷ es) = serialize_from e.id e.id (reference e.location ∷ []) es

-- What `assert(rangePos == end(fileLocation.size))` compares with the required size.
cell_size : Cell → ℕ
cell_size (range a b) = range_size
cell_size (reference r) = reference_size

unfoldable pub buffer_size : List Cell → ℕ
unfolding cell_size
buffer_size [] = 0
buffer_size (c ∷ cs) = cell_size c + buffer_size cs

-- The loops of `LoadFrom` in one: the iterator stands inside a range, at `id` of `id` up to `end`,
-- and reads a reference, or it stands at a header. Cells that are of neither form there are no
-- valid block (`none`).
load_from : ℕ → ℕ → List Cell → Option (List Entry)
load_from id end [] = if id == end then some [] else none
load_from id end (range a b ∷ cs) = let rest = load_from a b cs in if id == end then rest else none
load_from id end (reference r ∷ cs) =
    let rest = load_from (add32 id 1) end cs in
    if id == end
    then none
    else elim rest [ none ↦ none | some es ↦ some (record { id = id; location = r } ∷ es) ]

unfoldable pub load : List Cell → Option (List Entry)
unfolding load_from
load cs = load_from 0 0 cs
