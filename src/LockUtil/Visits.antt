-- ===== src/LockUtil/Visits.antt =====
-- `ForEachLockForLocation` and `AllLocksForLocation` go through the same locations.
use blobs_db.Base.{
  ℕ, ◌≡◌, refl, ◌∙◌, fun_ext, ap, sym, append-nil, all, Bool, true, false, Option, some, List, [],
  ◌∷◌, ◌++◌, ◌==◌, inl, inr, map, arith, Bool-cases, Option-cases,
}
use blobs_db.Config.{
  cluster_delete_id, segment_delete_id, next_free_blob_id, next_free_cluster_id,
  next_free_segment_id, blob_list_id,
}
use blobs_db.BlobLocation.{BlobLocation, at}
use blobs_db.LockUtil.{
  Directory, Predicate, and_then, gather, list_of_segments, list_of_clusters, cluster_in_segment,
  segment_delete, cluster_delete, for_each_lock_for_location, for_each_lock_in_message, each_of,
  return_true, each_cluster, all_for_segment_delete, all_for_cluster_delete, all_locks_for_location,
  all_locks_in_message,
}

abbrev pub continue {ℓ} : {S : Type ℓ} → Bool × S → (S → Bool × S) → Bool × S
continue (true, s) rest = rest s
continue (false, s) rest = (false, s)

and_then-some {ℓ} :
    {S : Type ℓ} (r : Bool × S) (f : S → Option (Bool × S)) (g : S → Bool × S)
    → ((s : S) → f s ≡ some (g s))
    → and_then r f ≡ some (continue r g)
and_then-some (true, s) f g h = h s
and_then-some (false, s) f g h = refl

continue_assoc {ℓ} :
    {S : Type ℓ} (r : Bool × S) (f g : S → Bool × S)
    → continue (continue r f) g ≡ continue r (λ s. continue (f s) g)
continue_assoc (true, s) f g = refl
continue_assoc (false, s) f g = refl

some_eq {ℓ} : {A : Type ℓ} {a b : A} → some a ≡ some b → a ≡ b
some_eq e = cc

gather-cons {ℓ κ} :
    {A : Type ℓ} {B : Type κ} (f : A → Option (List B)) (a : A) (as' : List A) {ls : List B}
    → gather f (a ∷ as') ≡ some ls
    → (bs cs : List B) × (f a ≡ some bs) × (gather f as' ≡ some cs) × (ls ≡ bs ++ cs)
gather-cons f a as' {ls} e = elim (Option-cases (f a)) [
  | inl n ↦ absurd (ground arith)
  | inr (bs, p) ↦ elim (Option-cases (gather f as')) [
    | inl n ↦ absurd (ground arith)
    | inr (cs, q) ↦ (bs, cs, p, q, ground arith)
  ]
]

cluster_in_segment_lem :
    (db : Directory) (seg c : ℕ) {ls : List BlobLocation}
    → cluster_in_segment db seg c ≡ some ls
    → (blobs : List ℕ) × (db.blobs_of seg c ≡ some blobs)
      × (ls
          ≡ at seg c cluster_delete_id
            ∷ at seg c next_free_blob_id
            ∷ at seg c blob_list_id
            ∷ map (λ b. at seg c b) blobs)
unfolding cluster_in_segment
cluster_in_segment_lem db seg c e = elim (Option-cases (db.blobs_of seg c)) [
  | inl n ↦ absurd (ground arith)
  | inr (blobs, p) ↦ (blobs, p, ground arith)
]

module _ {ℓ} {S : Type ℓ} (predicate : Predicate S) where
  -- The predicate on each location in turn, up to the first that it denies.
  abbrev pub visit : List BlobLocation → S → Bool × S
  visit [] s = (true, s)
  visit (l ∷ ls) s = continue (predicate l s) (λ s'. visit ls s')

  visit-append :
      (as' bs : List BlobLocation) (s : S)
      → visit (as' ++ bs) s ≡ continue (visit as' s) (λ s'. visit bs s')
  visit-append [] bs s = refl
  visit-append (a ∷ as') bs s =
      ap (continue (predicate a s)) (fun_ext (λ s'. visit-append as' bs s'))
      ∙ sym (continue_assoc (predicate a s) (λ s'. visit as' s') (λ s'. visit bs s'))

  each_of-visit :
      (f : ℕ → BlobLocation) (ids : List ℕ) (more : List BlobLocation)
      (rest : S → Option (Bool × S)) (s : S)
      → ((s' : S) → rest s' ≡ some (visit more s'))
      → each_of predicate f ids rest s ≡ some (visit (map f ids ++ more) s)
  unfolding each_of
  each_of-visit f [] more rest s h = h s
  each_of-visit f (i ∷ ids) more rest s h =
      and_then-some (predicate (f i) s) _ _ (λ s'. each_of-visit f ids more rest s' h)

  -- A test of one location and then the rest.
  then_visit :
      (l : BlobLocation) (more : List BlobLocation) (rest : S → Option (Bool × S)) (s : S)
      → ((s' : S) → rest s' ≡ some (visit more s'))
      → and_then (predicate l s) rest ≡ some (visit (l ∷ more) s)
  then_visit l more rest s h = and_then-some (predicate l s) rest (λ s'. visit more s') h

  three_then_visit :
      (a b c : BlobLocation) (more : List BlobLocation) (rest : S → Option (Bool × S)) (s : S)
      → ((s' : S) → rest s' ≡ some (visit more s'))
      → and_then
          (predicate a s)
          (λ s1. and_then (predicate b s1) (λ s2. and_then (predicate c s2) rest))
        ≡ some (visit (a ∷ b ∷ c ∷ more) s)
  three_then_visit a b c more rest s h =
      then_visit a (b ∷ c ∷ more) _ s
        λ s1. then_visit b (c ∷ more) _ s1 λ s2. then_visit c more rest s2 h

  four_then_visit :
      (a b c d : BlobLocation) (more : List BlobLocation) (rest : S → Option (Bool × S)) (s : S)
      → ((s' : S) → rest s' ≡ some (visit more s'))
      → and_then (predicate a s) (λ s1.
        and_then
          (predicate b s1)
          (λ s2. and_then (predicate c s2) (λ s3. and_then (predicate d s3) rest)))
        ≡ some (visit (a ∷ b ∷ c ∷ d ∷ more) s)
  four_then_visit a b c d more rest s h =
      then_visit a (b ∷ c ∷ d ∷ more) _ s λ s1. three_then_visit b c d more rest s1 h

  return-visit : (s : S) → return_true predicate s ≡ some (visit [] s)
  unfolding return_true
  return-visit s = refl

  module _ (db : Directory) where
    each_cluster-visit :
        (seg : ℕ) (clusters : List ℕ) (ls : List BlobLocation) (s : S)
        → gather (cluster_in_segment db seg) clusters ≡ some ls
        → each_cluster predicate db seg clusters s ≡ some (visit ls s)
    unfolding each_cluster cluster_in_segment
    each_cluster-visit seg [] ls s e = return-visit s ∙ ap (λ l. some (visit l s)) (some_eq e)
    each_cluster-visit seg (c ∷ clusters) ls s e =
        let (bs, inner, found, more, split) =
          gather-cons (cluster_in_segment db seg) c clusters e in
        let (blobs, loaded, shape) = cluster_in_segment_lem db seg c found in
        rw (split, shape)
          (three_then_visit _ _ _ (map (λ b. at seg c b) blobs ++ inner) _ s λ s3. rw loaded (
            each_of-visit (λ b. at seg c b) blobs inner _ s3
              (λ s4. each_cluster-visit seg clusters inner s4 more)))

    segment_delete-visit :
        (l : BlobLocation) (created : Bool) (ls : List BlobLocation) (s : S)
        → segment_delete db l ≡ some ls
        → all_for_segment_delete predicate db l created s ≡ some (visit ls s)
    unfolding segment_delete all_for_segment_delete
    segment_delete-visit l created ls s e = elim (Option-cases (db.clusters_of l.segment)) [
      | inl n ↦ absurd (ground arith)
      | inr (clusters, p) ↦
          elim (Option-cases (gather (cluster_in_segment db l.segment) clusters)) [
            | inl n ↦ absurd (ground arith)
            | inr (inner, q) ↦
                let shape : ls
                    ≡ l
                      ∷ at l.segment next_free_cluster_id next_free_blob_id
                      ∷ list_of_clusters l.segment
                      ∷ list_of_segments
                      ∷ inner =
                  ground arith in
                rw (p, shape, all_for_segment_delete)
                  (four_then_visit _ _ _ _ inner _ s
                    (λ s4. each_cluster-visit l.segment clusters inner s4 q))
          ]
    ]

    cluster_delete-visit :
        (l : BlobLocation) (created : Bool) (ls : List BlobLocation) (s : S)
        → cluster_delete db l ≡ some ls
        → all_for_cluster_delete predicate db l created s ≡ some (visit ls s)
    unfolding cluster_delete all_for_cluster_delete
    cluster_delete-visit l created ls s e = elim (Option-cases (db.blobs_of l.segment l.cluster)) [
      | inl n ↦ absurd (ground arith)
      | inr (blobs, p) ↦
          let shape : ls
              ≡ l
                ∷ at l.segment l.cluster next_free_blob_id
                ∷ at l.segment l.cluster blob_list_id
                ∷ list_of_clusters l.segment
                ∷ (map (λ b. at l.segment l.cluster b) blobs ++ []) =
            rw append-nil (ground arith) in
          rw (p, shape, all_for_cluster_delete)
            (four_then_visit _ _ _ _ (map (λ b. at l.segment l.cluster b) blobs ++ []) _ s
              (λ s4. each_of-visit (λ b. at l.segment l.cluster b) blobs [] _ s4 return-visit))
    ]

    pair-visit :
        (l l' : BlobLocation) (ls : List BlobLocation) (s : S)
        → some (l ∷ l' ∷ []) ≡ some ls
        → and_then (predicate l s) (λ s1. and_then (predicate l' s1) (return_true predicate))
          ≡ some (visit ls s)
    pair-visit l l' ls s e =
        then_visit l (l' ∷ []) _ s (λ s1. then_visit l' [] _ s1 return-visit)
        ∙ ap (λ k. some (visit k s)) (some_eq e)

    -- Where the segment or cluster that a delete location names exists, `AllLocksForLocation` asks
    -- its predicate, which may change what it captures, about the locations that
    -- `ForEachLockForLocation` goes through, in that order and up to the first that it denies.
    pub all_locks-eq-visit :
        (created_segment : ℕ → S → Bool) (created_cluster : ℕ → ℕ → S → Bool) (l : BlobLocation)
        (ls : List BlobLocation) (s : S)
        → for_each_lock_for_location db l ≡ some ls
        → all_locks_for_location predicate db created_segment created_cluster l s
          ≡ some (visit ls s)
    unfolding for_each_lock_for_location all_locks_for_location
    all_locks-eq-visit cs cc l ls s e = elim (Bool-cases (l.blob == cluster_delete_id)) [
      | inl d ↦ elim (Bool-cases (l.cluster == segment_delete_id)) [
        | inl d' ↦
            rw (d, d', all_locks_for_location)
              (segment_delete-visit l (cs l.segment s) ls s
                (rw (d, d', for_each_lock_for_location) at e))
        | inr n' ↦
            rw (d, n', all_locks_for_location)
              (cluster_delete-visit l (cc l.segment l.cluster s) ls s
                (rw (d, n', for_each_lock_for_location) at e))
      ]
      | inr n ↦ elim (Bool-cases (l.blob == next_free_blob_id)) [
        | inl f ↦ elim (Bool-cases (l.cluster == next_free_cluster_id)) [
          | inl c ↦ elim (Bool-cases (l.segment == next_free_segment_id)) [
            | inl g ↦
                rw (n, f, c, g, all_locks_for_location)
                  (pair-visit l list_of_segments ls s
                    (rw (n, f, c, g, for_each_lock_for_location) at e))
            | inr g ↦
                rw (n, f, c, g, all_locks_for_location)
                  (pair-visit l (list_of_clusters l.segment) ls s
                    (rw (n, f, c, g, for_each_lock_for_location) at e))
          ]
          | inr c ↦
              rw (n, f, c, all_locks_for_location)
                (pair-visit l (at l.segment l.cluster blob_list_id) ls s
                  (rw (n, f, c, for_each_lock_for_location) at e))
        ]
        | inr o ↦
            rw (n, o, all_locks_for_location)
              (then_visit l [] _ s return-visit
                ∙ ap (λ k. some (visit k s)) (some_eq (rw (n, o, for_each_lock_for_location) at e)))
      ]
    ]

    -- The same for all locations of a message.
    pub all_locks_in_message-eq-visit :
        (locations visited : List BlobLocation) (s : S)
        → for_each_lock_in_message db locations ≡ some visited
        → all_locks_in_message predicate db locations s ≡ some (visit visited s)
    unfolding all_locks_in_message for_each_lock_in_message
    all_locks_in_message-eq-visit [] visited s e = ap (λ k. some (visit k s)) (some_eq e)
    all_locks_in_message-eq-visit (l ∷ ls) visited s e =
        let (bs, cs, found, more, split) = gather-cons (for_each_lock_for_location db) l ls e in
        rw
          (
            all_locks-eq-visit (λ _ _. false) (λ _ _ _. false) l bs s found,
            split,
            all_locks_in_message,
          )
          (and_then-some (visit bs s) _ (λ s'. visit cs s')
              (λ s'. all_locks_in_message-eq-visit ls cs s' more)
            ∙ ap some (sym (visit-append bs cs s)))

-- A predicate that changes nothing is tested on all locations.
pub visit-all {ℓ} :
    {S : Type ℓ} (p : BlobLocation → Bool) (ls : List BlobLocation) (s : S)
    → visit (λ l s'. (p l, s')) ls s ≡ (all p ls, s)
visit-all p [] s = refl
visit-all p (l ∷ ls) s = elim (Bool-cases (p l)) [ inl y ↦ rw y (visit-all p ls s) | inr n ↦ rw n ]
