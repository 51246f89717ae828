-- ===== src/BlobLocation.antt =====
-- Network/common/BlobLocation.cpp: the address of a blob and its comparison operators.
pub mod Order
use blobs_db.Base.{ℕ, Bool, true, false, not, ◌&&◌, ◌||◌, ltb, ◌==◌, if◌then◌else◌}

pub record BlobLocation : Type 0 where
  pub segment : ℕ
  pub cluster : ℕ
  pub blob : ℕ

abbrev pub at : ℕ → ℕ → ℕ → BlobLocation
at s c b = record { segment = s; cluster = c; blob = b }

unfoldable pub eq : BlobLocation → BlobLocation → Bool
eq a b = a.segment == b.segment && (a.cluster == b.cluster && a.blob == b.blob)

unfoldable pub ne : BlobLocation → BlobLocation → Bool
ne a b = not (eq a b)

unfoldable pub lt : BlobLocation → BlobLocation → Bool
lt a b =
    if ltb a.segment b.segment
    then true
    else if ltb b.segment a.segment
    then false
    else if ltb a.cluster b.cluster
    then true
    else if ltb b.cluster a.cluster
    then false
    else ltb a.blob b.blob

unfoldable pub le : BlobLocation → BlobLocation → Bool
le a b = eq a b || lt a b

unfoldable pub gt : BlobLocation → BlobLocation → Bool
gt a b = not (le a b)

unfoldable pub ge : BlobLocation → BlobLocation → Bool
ge a b = not (lt a b)
