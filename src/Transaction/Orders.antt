-- ===== src/Transaction/Orders.antt =====
-- The orders of the keys: `operator<` of locations, and `std::less` of pairs of ids and of ids.
use blobs_db.Base.{ℕ, Bool, true, false, ◌≡◌, ltb, ◌==◌, ◌&&◌, ◌||◌, arith}
use blobs_db.BlobLocation.{BlobLocation, lt}
use blobs_db.StdSet.{Less}
use blobs_db.StdSet.Laws.{IsOrder}

instance abbrev pub location_less : Less BlobLocation
location_less = record { less = lt }

instance abbrev pub segment_less : Less ℕ
segment_less = record { less = ltb }

abbrev pair_lt : ℕ × ℕ → ℕ × ℕ → Bool
pair_lt (a, b) (c, d) = ltb a c || (a == c && ltb b d)

instance abbrev pub cluster_less : Less (ℕ × ℕ)
cluster_less = record { less = pair_lt }

lt_irreflexive : (a : BlobLocation) → lt a a ≡ false
unfolding lt
lt_irreflexive a = ground arith

lt_transitive : (a b c : BlobLocation) → lt a b ≡ true → lt b c ≡ true → lt a c ≡ true
unfolding lt
lt_transitive a b c h k = ground arith

lt_connected : (a b : BlobLocation) → lt a b ≡ false → lt b a ≡ false → a ≡ b
unfolding lt
lt_connected a b h k = ground arith

pub location_order : IsOrder location_less
location_order = record {
  irreflexive = lt_irreflexive;
  transitive = lt_transitive;
  connected = lt_connected;
}

pub segment_order : IsOrder segment_less
segment_order = record {
  irreflexive = λ a. ground arith;
  transitive = λ a b c h k. ground arith;
  connected = λ a b h k. ground arith;
}

pair_irreflexive : (a : ℕ × ℕ) → pair_lt a a ≡ false
pair_irreflexive (a, b) = ground arith

pair_transitive : (a b c : ℕ × ℕ) → pair_lt a b ≡ true → pair_lt b c ≡ true → pair_lt a c ≡ true
pair_transitive (a, a') (b, b') (c, c') h k = ground arith

pair_connected : (a b : ℕ × ℕ) → pair_lt a b ≡ false → pair_lt b a ≡ false → a ≡ b
pair_connected (a, a') (b, b') h k = ground arith

pub cluster_order : IsOrder cluster_less
cluster_order = record {
  irreflexive = pair_irreflexive;
  transitive = pair_transitive;
  connected = pair_connected;
}
