-- ===== src/BlobLocation/Order.antt =====
-- The comparison operators of `BlobLocation` against the order of the 96-bit keys.
use blobs_db.Base.{ℕ, ◌+◌, ◌*◌, ◌^◌, ◌≤◌, ◌<◌, ◌≡◌, ◌≢◌, ◌↔◌, true, not, arith}
use blobs_db.BlobLocation.{BlobLocation, eq, ne, lt, le, gt, ge}

-- The three ids as one 96-bit number, the segment highest.
abbrev pub key : BlobLocation → ℕ
key l = (l.segment * 2 ^ 32 + l.cluster) * 2 ^ 32 + l.blob

pub record IsWide (l : BlobLocation) : Type 0 where
  pub segment_fits : l.segment < 2 ^ 32
  pub cluster_fits : l.cluster < 2 ^ 32
  pub blob_fits : l.blob < 2 ^ 32

pub eq_iff : (a b : BlobLocation) → (eq a b ≡ true) ↔ (a ≡ b)
unfolding eq
eq_iff a b = ground arith

pub eq_refl : (a : BlobLocation) → eq a a ≡ true
unfolding eq
eq_refl a = ground arith

pub lt_iff_key : {a b : BlobLocation} → IsWide a → IsWide b → (lt a b ≡ true) ↔ (key a < key b)
unfolding lt
lt_iff_key v w = ground arith

eq-key : {a b : BlobLocation} → IsWide a → IsWide b → (eq a b ≡ true) ↔ (key a ≡ key b)
unfolding eq
eq-key v w = ground arith

-- For ids of 32 bits, every comparison operator answers as the order of the 96-bit keys does.
pub comparisons_iff_key :
    {a b : BlobLocation}
    → IsWide a
    → IsWide b
    → ((eq a b ≡ true) ↔ (key a ≡ key b))
      × ((ne a b ≡ true) ↔ (key a ≢ key b))
      × ((lt a b ≡ true) ↔ (key a < key b))
      × ((le a b ≡ true) ↔ (key a ≤ key b))
      × ((gt a b ≡ true) ↔ (key b < key a))
      × ((ge a b ≡ true) ↔ (key b ≤ key a))
unfolding ne le gt ge
comparisons_iff_key {a} {b} v w = ground (arith, eq-key v w, lt_iff_key v w)

-- Laws of the order that hold for ids of any width.
pub lt-eq-not-le : (a b : BlobLocation) → lt a b ≡ not (le b a)
unfolding lt le eq
lt-eq-not-le a b = ground arith

pub le_trans : (a b c : BlobLocation) → le a b ≡ true → le b c ≡ true → le a c ≡ true
unfolding lt le eq
le_trans a b c h k = ground arith
