-- ===== src/ClientDatabase/ListRoundTrip.antt =====
-- The client reads from the content of an id list the ids from which the server has made it.
use blobs_db.Base.{
  ℕ, zero, suc, ◌+◌, ◌-◌, ◌^◌, ◌%◌, ◌/◌, ◌<◌, ◌≡◌, ◌∙◌, ap, ap₂, refl, arith, List, [], ◌∷◌, ◌++◌,
  All,
}
use blobs_db.IdRanges.{IdRange, into_id_ranges}
use blobs_db.IdRanges.RoundTrip.{
  count_up, expand, IsId, Fits, into_id_ranges-Fits, into_id_ranges_lem,
}
use blobs_db.ReadResponse.{ranges_content}
use blobs_db.ClientDatabase.Lists.{ids_from, ids_in, number}

number-id_content :
    (n : ℕ)
    → n < 2 ^ 32
    → number (n % 256) (n / 256 % 256) (n / 65536 % 256) (n / 16777216 % 256) ≡ n
number-id_content n h = omega arith

ids_from-eq-count_up : (n id : ℕ) → id + n < 2 ^ 32 → ids_from n id ≡ count_up id n
unfolding ids_from
ids_from-eq-count_up zero id h = refl
ids_from-eq-count_up (suc n) id h =
    ap (◌∷◌ id)
      (ap (ids_from n) {y = id + 1} (omega arith) ∙ ids_from-eq-count_up n (id + 1) (omega arith))

ids_in-ranges_content : (rs : List IdRange) → All Fits rs → ids_in (ranges_content rs) ≡ expand rs
unfolding ids_in ranges_content
ids_in-ranges_content [] a = refl
ids_in-ranges_content (r ∷ rs) a =
    ap₂ ◌++◌
      (ap₂ ids_from
          (ap₂ (λ x y. (x + 2 ^ 32 - y) % 2 ^ 32) (number-id_content r.second (omega arith))
              (number-id_content r.first (omega arith))
            ∙ omega arith)
          (number-id_content r.first (omega arith))
        ∙ ids_from-eq-count_up (r.second - r.first) r.first (omega arith))
      (ids_in-ranges_content rs a.1)

-- From the content that the server makes of a list of ids, each of which has a next one, the client
-- reads exactly these ids in their order.
pub ids_in_lem : (ids : List ℕ) → All IsId ids → ids_in (ranges_content (into_id_ranges ids)) ≡ ids
ids_in_lem ids a =
    ids_in-ranges_content (into_id_ranges ids) (into_id_ranges-Fits ids a)
    ∙ (into_id_ranges_lem ids a).0
