-- ===== src/BlockTable/RoundTrip.antt =====
-- What is written to the file has the size computed for it, and reads back as it was.
use blobs_db.Base.{
  ℕ, ◌+◌, ◌*◌, ◌^◌, ◌<◌, ◌≡◌, refl, ◌∙◌, ap, sym, Option, none, some, List, [], ◌∷◌, ◌++◌, true,
  ◌==◌, inl, inr, append_assoc, append-nil, subst, Bool-cases, add32, All, length, arith,
}
use blobs_db.BlockTable.{
  Entry, Cell, range, reference, header_size, range_size, reference_size, count_contiguous_blocks,
  calculate_required_size, serialize_from, serialize, buffer_size, load_from, load,
}

-- Each id has a successor of 32 bits.
abbrev pub HasIds : List Entry → Type 0
HasIds = All (λ e. e.id + 1 < 2 ^ 32)

buffer_size-append : (cs ds : List Cell) → buffer_size (cs ++ ds) ≡ buffer_size cs + buffer_size ds
unfolding buffer_size
buffer_size-append [] ds = omega arith
buffer_size-append (c ∷ cs) ds = omega (arith, buffer_size-append cs ds)

equal : (a b : ℕ) → (a == b) ≡ true → a ≡ b
equal a b h = ground arith

buffer_size-serialize_from :
    (start end : ℕ) (written : List Cell) (es : List Entry)
    → buffer_size (serialize_from start end written es)
      ≡ range_size
        + buffer_size written
        + range_size * count_contiguous_blocks (some end) es
        + reference_size * length es
unfolding serialize_from count_contiguous_blocks buffer_size
buffer_size-serialize_from start end written [] = omega arith
buffer_size-serialize_from start end written (e ∷ es) = elim (Bool-cases (e.id == add32 end 1)) [
  | inl same ↦
      rw (same, serialize_from, count_contiguous_blocks)
        (omega (
          arith,
          buffer_size-serialize_from start (add32 end 1) (written ++ (reference e.location ∷ []))
              es,
          buffer_size-append written (reference e.location ∷ []),
          ap (λ k. count_contiguous_blocks (some k) es) (equal e.id (add32 end 1) same),
        ))
  | inr other ↦
      rw (other, serialize_from, count_contiguous_blocks)
        (omega (
          arith,
          buffer_size-serialize_from e.id e.id (reference e.location ∷ []) es,
          buffer_size-append written (serialize_from e.id e.id (reference e.location ∷ []) es),
        ))
]

-- The buffer that `SerializeIntoBuffer` fills ends exactly where `CalculateRequiredSize` says.
pub buffer_size-serialize :
    (es : List Entry) → header_size + buffer_size (serialize es) ≡ calculate_required_size es
unfolding serialize calculate_required_size buffer_size
buffer_size-serialize [] = refl
buffer_size-serialize (e ∷ es) =
    omega (arith, buffer_size-serialize_from e.id e.id (reference e.location ∷ []) es)

abbrev references : List Entry → List Cell
references [] = []
references (e ∷ es) = reference e.location ∷ references es

-- The entries have the ids from `start` up to but without `stop`.
abbrev IsContiguous : ℕ → List Entry → ℕ → Type 0
IsContiguous start [] stop = start ≡ stop
IsContiguous start (e ∷ es) stop =
    (e.id ≡ start) × (start < stop) × (start + 1 < 2 ^ 32) × IsContiguous (start + 1) es stop

append-IsContiguous :
    (start stop : ℕ) (es : List Entry) (e : Entry)
    → IsContiguous start es stop
    → e.id ≡ stop
    → stop + 1 < 2 ^ 32
    → IsContiguous start (es ++ (e ∷ [])) (stop + 1)
append-IsContiguous start stop [] e c i h = (i ∙ sym c, omega arith, omega arith, omega arith)
append-IsContiguous start stop (e' ∷ es) e c i h =
    (c.0, omega arith, c.2, append-IsContiguous (start + 1) stop es e c.3 i h)

references-append :
    (es : List Entry) (e : Entry)
    → references (es ++ (e ∷ [])) ≡ references es ++ (reference e.location ∷ [])
references-append [] e = refl
references-append (e' ∷ es) e = ap (◌∷◌ (reference e'.location)) (references-append es e)

-- The list in front of what is read.
abbrev before : List Entry → Option (List Entry) → Option (List Entry)
before es none = none
before es (some fs) = some (es ++ fs)

before-nil : (o : Option (List Entry)) → before [] o ≡ o
before-nil none = refl
before-nil (some fs) = refl

load_from-references :
    (start stop : ℕ) (es : List Entry) (cs : List Cell)
    → IsContiguous start es stop
    → load_from start stop (references es ++ cs) ≡ before es (load_from stop stop cs)
unfolding load_from
load_from-references start stop [] cs c =
    ap (λ k. load_from k stop cs) c ∙ sym (before-nil (load_from stop stop cs))
load_from-references start stop (e ∷ es) cs c =
    let next : load_from (add32 start 1) stop (references es ++ cs)
        ≡ load_from (start + 1) stop (references es ++ cs) =
      ap (λ k. load_from k stop (references es ++ cs)) (omega arith) in
    ground (arith, load_from-references (start + 1) stop es cs c.3, next)

load_from-block :
    (at start end : ℕ) (pending : List Entry) (cs : List Cell)
    → IsContiguous start pending (end + 1)
    → end + 1 < 2 ^ 32
    → load_from at at (range start (add32 end 1) ∷ (references pending ++ cs))
      ≡ before pending (load_from (end + 1) (end + 1) cs)
unfolding load_from
load_from-block at start end pending cs c b =
    let stop : load_from start (add32 end 1) (references pending ++ cs)
        ≡ load_from start (end + 1) (references pending ++ cs) =
      ap (λ k. load_from start k (references pending ++ cs)) (omega arith) in
    ground (arith, load_from-references start (end + 1) pending cs c, stop)

load_from-serialize_from :
    (at start end : ℕ) (pending es : List Entry)
    → IsContiguous start pending (end + 1)
    → HasIds es
    → end + 1 < 2 ^ 32
    → load_from at at (serialize_from start end (references pending) es) ≡ some (pending ++ es)
unfolding serialize_from load_from
load_from-serialize_from at start end pending [] c h b =
    ap (λ cs. load_from at at (range start (add32 end 1) ∷ cs))
      (sym (append-nil (references pending)))
    ∙ load_from-block at start end pending [] c b
    ∙ ap (before pending) {y = some []} (ground arith)
load_from-serialize_from at start end pending (e ∷ es) c h b =
    elim (Bool-cases (e.id == add32 end 1)) [
      | inl same ↦
          let longer =
            append-IsContiguous start (end + 1) pending e c (ground arith) (ground (arith, h.0)) in
          rw (same, serialize_from, ← references-append pending e)
            (load_from-serialize_from at start (add32 end 1) (pending ++ (e ∷ [])) es
                (subst (IsContiguous start (pending ++ (e ∷ []))) (omega arith) longer) h.1
                (ground (arith, h.0))
              ∙ ap some (append_assoc pending (e ∷ []) es))
      | inr other ↦
          rw (other, serialize_from)
            (load_from-block at start end pending
                (serialize_from e.id e.id (reference e.location ∷ []) es) c b
              ∙ ap (before pending) (
                  load_from-serialize_from (end + 1) e.id e.id (e ∷ []) es
                    (refl, omega arith, omega arith, refl) h.1 (omega arith)))
    ]

-- What `LoadFrom` reads from the buffer that `SerializeIntoBuffer` wrote is the map that was
-- written: the same ids with the same block references. The ids must have a successor of 32 bits.
pub load-serialize : (es : List Entry) → HasIds es → load (serialize es) ≡ some es
unfolding load serialize
load-serialize [] h = ground arith
load-serialize (e ∷ es) h =
    load_from-serialize_from 0 e.id e.id (e ∷ []) es (refl, omega arith, omega arith, refl) h.1
      (omega arith)
