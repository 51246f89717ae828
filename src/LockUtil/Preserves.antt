-- ===== src/LockUtil/Preserves.antt =====
-- `AllLocksForLocation` preserves what its predicate preserves, whatever it visits.
use blobs_db.Base.{ℕ, Bool, true, false, Option, none, some, List, [], ◌∷◌, ◌==◌, if◌then◌else◌}
use blobs_db.Config.{
  cluster_delete_id, segment_delete_id, next_free_blob_id, next_free_cluster_id,
  next_free_segment_id,
}
use blobs_db.BlobLocation.{BlobLocation, at}
use blobs_db.LockUtil.{
  Directory, Predicate, and_then, each_of, return_true, each_cluster, all_for_segment_delete,
  all_for_cluster_delete, all_locks_for_location,
}

module _ {ℓ κ} {S : Type ℓ} (Inv : S → Type κ) where
  -- The state of the result, if there is one, has the property.
  abbrev pub Holds : Option (Bool × S) → Type κ
  Holds none = Unit {κ}
  Holds (some r) = Inv r.1

  and_then-Holds :
      (r : Bool × S) (rest : S → Option (Bool × S))
      → Inv r.1
      → ((s : S) → Inv s → Holds (rest s))
      → Holds (and_then r rest)
  and_then-Holds (true, s) rest i h = h s i
  and_then-Holds (false, s) rest i h = i

  module _ (predicate : Predicate S)
      (keep : (l : BlobLocation) (s : S) → Inv s → Inv (predicate l s).1) where
    test-Holds :
        (l : BlobLocation) (rest : S → Option (Bool × S))
        → ((s : S) → Inv s → Holds (rest s))
        → (s : S) → Inv s
        → Holds (and_then (predicate l s) rest)
    test-Holds l rest h s i = and_then-Holds (predicate l s) rest (keep l s i) h

    return-Holds : (s : S) → Inv s → Holds (return_true predicate s)
    unfolding return_true
    return-Holds s i = i

    each_of-Holds :
        (f : ℕ → BlobLocation) (ids : List ℕ) (rest : S → Option (Bool × S))
        → ((s : S) → Inv s → Holds (rest s))
        → (s : S) → Inv s
        → Holds (each_of predicate f ids rest s)
    unfolding each_of
    each_of-Holds f [] rest h = h
    each_of-Holds f (j ∷ ids) rest h = test-Holds (f j) _ (each_of-Holds f ids rest h)

    option-Holds {μ} :
        {A : Type μ} (o : Option A) (d : Option (Bool × S)) (f : A → Option (Bool × S))
        → Holds d
        → ((a : A) → Holds (f a))
        → Holds (elim o [ none ↦ d | some a ↦ f a ])
    option-Holds none d f i h = i
    option-Holds (some a) d f i h = h a

    if-Holds : (b : Bool) (x y : Option (Bool × S)) → Holds x → Holds y → Holds (if b then x else y)
    if-Holds true x y h k = h
    if-Holds false x y h k = k

    module _ (db : Directory) where
      each_cluster-Holds :
          (seg : ℕ) (cs : List ℕ) (s : S) → Inv s → Holds (each_cluster predicate db seg cs s)
      unfolding each_cluster
      each_cluster-Holds seg [] = return-Holds
      each_cluster-Holds seg (c ∷ cs) = test-Holds _ _ (
          test-Holds _ _ (
            test-Holds _ _ λ s i.
              option-Holds (db.blobs_of seg c) _ _ tt
                λ blobs. each_of-Holds (λ b. at seg c b) blobs _ (each_cluster-Holds seg cs) s i))

      all_for_segment_delete-Holds :
          (l : BlobLocation) (created : Bool) (s : S)
          → Inv s
          → Holds (all_for_segment_delete predicate db l created s)
      unfolding all_for_segment_delete
      all_for_segment_delete-Holds l created s i =
          option-Holds (db.clusters_of l.segment) _ _
            (if-Holds created _ none (return-Holds s i) tt)
            λ cs.
              test-Holds _ _
                (test-Holds _ _ (test-Holds _ _ (test-Holds _ _ (each_cluster-Holds l.segment cs))))
                s i

      all_for_cluster_delete-Holds :
          (l : BlobLocation) (created : Bool) (s : S)
          → Inv s
          → Holds (all_for_cluster_delete predicate db l created s)
      unfolding all_for_cluster_delete
      all_for_cluster_delete-Holds l created s i =
          option-Holds (db.blobs_of l.segment l.cluster) _ _
            (if-Holds created _ none (return-Holds s i) tt)
            λ bs.
              test-Holds _ _
                (test-Holds _ _ (
                  test-Holds _ _ (
                    test-Holds _ _
                      (each_of-Holds (λ b. at l.segment l.cluster b) bs _ return-Holds))))
                s i

      -- The state after `AllLocksForLocation` has each property that the predicate preserves.
      pub all_locks_for_location-Holds :
          (created_segment : ℕ → S → Bool) (created_cluster : ℕ → ℕ → S → Bool) (l : BlobLocation)
          (s : S)
          → Inv s
          → Holds (all_locks_for_location predicate db created_segment created_cluster l s)
      unfolding all_locks_for_location
      all_locks_for_location-Holds cs cc l s i =
          if-Holds (l.blob == cluster_delete_id) _ _
            (if-Holds (l.cluster == segment_delete_id) _ _
              (all_for_segment_delete-Holds l (cs l.segment s) s i)
              (all_for_cluster_delete-Holds l (cc l.segment l.cluster s) s i))
            (if-Holds (l.blob == next_free_blob_id) _ _
              (if-Holds (l.cluster == next_free_cluster_id) _ _
                (if-Holds (l.segment == next_free_segment_id) _ _ (twice _ _) (twice _ _))
                (twice _ _))
              (test-Holds l _ return-Holds s i))
        where
          twice :
              (m m' : BlobLocation)
              → Holds (
                  and_then
                    (predicate m s)
                    (λ s1. and_then (predicate m' s1) (return_true predicate)))
          twice m m' = test-Holds m _ (test-Holds m' _ return-Holds) s i
