-- ===== src/BlobLocationRanges/Coverage.antt =====
-- Which locations the ranges encompass after each operation.
use blobs_db.Base.{◌≡◌, true, ◌||◌, List, [], ◌∷◌, arith}
use blobs_db.BlobLocation.{BlobLocation, eq, le}
use blobs_db.BlobLocation.Order.{eq_iff, lt-eq-not-le, le_trans}
use blobs_db.BlobLocationRanges.{BlobLocationRange, in_range, encompasses, enter}

-- No range of the list ends before it begins.
abbrev pub IsForward : List BlobLocationRange → Type 0
IsForward [] = Unit {0}
IsForward (r ∷ rs) = (le r.begin r.end ≡ true) × IsForward rs

-- Two ranges of which one goes on from the end of the other are together the joined range.
in_range-joined :
    (l : BlobLocation) (a b : BlobLocationRange)
    → eq a.end b.begin ≡ true
    → le a.begin a.end ≡ true
    → le b.begin b.end ≡ true
    → in_range l (record a { end = b.end }) ≡ (in_range l a || in_range l b)
in_range-joined l a b e f g = ground (
  arith,
  eq_iff a.end b.begin,
  lt-eq-not-le l a.end,
  lt-eq-not-le l b.end,
  le_trans a.begin a.end l,
  le_trans b.end l a.end,
  le_trans b.begin b.end l,
)

-- `Enter` adds exactly the locations of the range, whether or not it joins it to the last one.
pub encompasses-enter :
    (l : BlobLocation) (r : BlobLocationRange) (ranges : List BlobLocationRange)
    → IsForward ranges
    → le r.begin r.end ≡ true
    → encompasses l (enter r ranges) ≡ (encompasses l ranges || in_range l r)
unfolding encompasses enter
encompasses-enter l r [] f g = ground arith
encompasses-enter l r (q ∷ []) f g = ground (arith, in_range-joined l q r)
encompasses-enter l r (q ∷ q' ∷ ranges) f g =
    ground (arith, encompasses-enter l r (q' ∷ ranges) f.1 g)
