-- ===== src/Tests/Storage.antt =====
-- A database file of 1024 bytes, a map of clusters, and the sort that orders by insertion.
use mathlib.Core.List.{Permᴰ}
use blobs_db.Base.{
  ℕ, ◌+◌, ◌^◌, ◌<◌, ◌≡◌, refl, inl, inr, some, List, [], ◌∷◌, ◌++◌, length, leb, if◌then◌else◌,
  Bool-cases, arith,
}
use blobs_db.Base.Sums.{sum}
use blobs_db.FreeList.{
  BlockReference, FreeList, Sort, IsAscending, allocate_and_apply_delta, estimate_required_size,
}
use blobs_db.FreeList.Cover.{cover}
use blobs_db.FreeList.Allocation.{IsValid}
use blobs_db.FreeList.CopyOnWrite.{
  Accounts, allocate_and_apply_delta-Accounts, allocate_and_apply_delta-fresh,
}
use blobs_db.BlockTable.{Entry, serialize, load, header_size, buffer_size, calculate_required_size}
use blobs_db.BlockTable.RoundTrip.{load-serialize, buffer_size-serialize}

insert : BlockReference → List BlockReference → List BlockReference
insert b [] = b ∷ []
insert b (c ∷ cs) = let rest = insert b cs in if leb b.offset c.offset then b ∷ c ∷ cs else c ∷ rest

insertion_sort : List BlockReference → List BlockReference
unfolding insert
insertion_sort [] = []
insertion_sort (b ∷ bs) = insert b (insertion_sort bs)

same-perm : (bs : List BlockReference) → Permᴰ bs bs
same-perm [] = Permᴰ.nil
same-perm (b ∷ bs) = Permᴰ.cons refl (same-perm bs)

insert-perm : (b : BlockReference) (cs : List BlockReference) → Permᴰ (insert b cs) (b ∷ cs)
unfolding insert
insert-perm b [] = same-perm (b ∷ [])
insert-perm b (c ∷ cs) = elim (Bool-cases (leb b.offset c.offset)) [
  | inl y ↦ rw (y, insert) (same-perm (b ∷ c ∷ cs))
  | inr n ↦
      rw (n, insert)
        (Permᴰ.trans (Permᴰ.cons refl (insert-perm b cs)) (Permᴰ.swap {l = cs} refl refl))
]

insertion_sort-perm : (bs : List BlockReference) → Permᴰ (insertion_sort bs) bs
unfolding insertion_sort
insertion_sort-perm [] = Permᴰ.nil
insertion_sort-perm (b ∷ bs) =
    Permᴰ.trans (insert-perm b (insertion_sort bs)) (Permᴰ.cons refl (insertion_sort-perm bs))

insert-IsAscending :
    (b : BlockReference) (cs : List BlockReference) → IsAscending cs → IsAscending (insert b cs)
unfolding insert
insert-IsAscending b [] h = tt
insert-IsAscending b (c ∷ []) h = elim (Bool-cases (leb b.offset c.offset)) [
  | inl y ↦ rw (y, insert) (ground arith, tt)
  | inr n ↦ rw (n, insert) (ground arith, tt)
]
insert-IsAscending b (c ∷ d ∷ cs) h =
    let rest : IsAscending (insert b (d ∷ cs)) = insert-IsAscending b (d ∷ cs) h.1 in
    elim (Bool-cases (leb b.offset c.offset)) [
      | inl y ↦ rw (y, insert) (ground arith, h)
      | inr n ↦ elim (Bool-cases (leb b.offset d.offset)) [
        | inl y ↦ rw (n, y, insert) (ground arith, (ground arith, h.1))
        | inr n' ↦ rw (n, n', insert) (h.0, (rw (n', insert) at rest))
      ]
    ]

insertion_sort-IsAscending : (bs : List BlockReference) → IsAscending (insertion_sort bs)
unfolding insertion_sort
insertion_sort-IsAscending [] = tt
insertion_sort-IsAscending (b ∷ bs) =
    insert-IsAscending b (insertion_sort bs) (insertion_sort-IsAscending bs)

abbrev by_insertion : Sort
by_insertion = record {
  sort = insertion_sort;
  sort-perm = λ bs. ∣ insertion_sort-perm bs ∣₁;
  sort-IsAscending = insertion_sort-IsAscending;
}

abbrev in_file : ℕ → ℕ → BlockReference
in_file o s = record { offset = o; size = s }

abbrev list : FreeList
list = record { blocks = in_file 240 784 ∷ []; end_offset = 1024; file_location = in_file 200 40 }

abbrev released_blocks : List BlockReference
released_blocks = in_file 80 40 ∷ []

abbrev kept_blocks : List BlockReference
kept_blocks = in_file 0 80 ∷ in_file 120 80 ∷ []

list-IsValid : IsValid list
list-IsValid = record { in_file = refl; fits = omega arith }

list-Accounts : Accounts list (list.file_location ∷ released_blocks ++ kept_blocks)
list-Accounts = record { accounted = λ x. ground arith; valid = list-IsValid; used_in_file = refl }

room :
    list.end_offset
      + sum (λ s. s) (48 ∷ [])
      + estimate_required_size (length released_blocks + 1) list
    < 2 ^ 64
unfolding estimate_required_size
room = omega arith

allocate_and_apply_delta-Accounts_example :
    let (locations, fl') = allocate_and_apply_delta by_insertion (48 ∷ []) released_blocks list in
    Accounts fl' (fl'.file_location ∷ locations ++ kept_blocks)
allocate_and_apply_delta-Accounts_example =
    allocate_and_apply_delta-Accounts by_insertion (48 ∷ []) released_blocks kept_blocks list
      list-Accounts room

-- Address 256 is in the block of 48 bytes that is allocated at 240.
address_is_written :
    let (locations, fl') = allocate_and_apply_delta by_insertion (48 ∷ []) released_blocks list in
    0 < cover 256 (fl'.file_location ∷ locations)
unfolding allocate_and_apply_delta
address_is_written = omega arith

allocate_and_apply_delta-fresh_example :
    cover 256 (list.file_location ∷ released_blocks ++ kept_blocks) ≡ 0
allocate_and_apply_delta-fresh_example =
    allocate_and_apply_delta-fresh by_insertion (48 ∷ []) released_blocks kept_blocks list
      list-Accounts room 256 address_is_written

abbrev clusters : List Entry
clusters =
    record { id = 0; location = in_file 240 100 }
    ∷ record { id = 1; location = in_file 340 100 }
    ∷ record { id = 7; location = in_file 440 50 }
    ∷ []

load-serialize_example : load (serialize clusters) ≡ some clusters
load-serialize_example = load-serialize clusters (omega arith, (omega arith, (omega arith, tt)))

buffer_size-serialize_example :
    header_size + buffer_size (serialize clusters) ≡ calculate_required_size clusters
buffer_size-serialize_example = buffer_size-serialize clusters
