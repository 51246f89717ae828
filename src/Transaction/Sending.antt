-- ===== src/Transaction/Sending.antt =====
-- The sorted writes of a transaction, and the messages that carry them.
use blobs_db.Base.{
  ℕ, ◌^◌, ◌%◌, ◌≤◌, ◌≡◌, ◌∙◌, sym, ap, subst, refl, Bool, true, false, ◌||◌, Option, none, some,
  List, [], ◌∷◌, ◌++◌, ◌==◌, if◌then◌else◌, arith, all, All, any, append-nil, map, length,
  Bool-cases, inl, inr,
}
use blobs_db.Config.{max_blob_size, delete_blob_size}
use blobs_db.BlobLocation.{BlobLocation, eq, lt}
use blobs_db.BlobLocation.Order.{eq_iff}
use blobs_db.StdSet.{find, count}
use blobs_db.StdSet.Laws.{Sorted, find-cons, find-tail}
use blobs_db.ApplyCommit.SegmentWrites.{written}
use blobs_db.ApplyCommit.Contents.{content_after}
use blobs_db.Transaction.Orders.{location_less, location_order}
use blobs_db.Transaction.{DatabaseState, itself, location_of}
use blobs_db.Transaction.Messages.{
  BlobToSend, sort_in, stable_sort, regular_write, deletion_of, get_sorted_writes_to_transmit,
  update_of, goes_before,
}
use blobs_db.Transaction.Overlay.{IsValid, same-eq-eq}

abbrev pub sent_content : BlobLocation → List BlobToSend → Option (List ℕ) → Option (List ℕ)
sent_content k bs o = content_after k (map update_of bs) o

abbrev sends_to : BlobLocation → List BlobToSend → Bool
sends_to l bs = any (λ b. eq b.location l) bs

-- No location is written twice.
abbrev Distinct : List BlobToSend → Type 0
Distinct [] = Unit {0}
Distinct (b ∷ bs) = (sends_to b.location bs ≡ false) × Distinct bs

sends_to-sort_in :
    (l : BlobLocation) (b : BlobToSend) (bs : List BlobToSend)
    → sends_to l (sort_in b bs) ≡ (eq b.location l || sends_to l bs)
unfolding sort_in
sends_to-sort_in l b [] = refl
sends_to-sort_in l b (x ∷ xs) = ground (arith, sends_to-sort_in l b xs)

sends_to-stable_sort :
    (l : BlobLocation) (bs : List BlobToSend) → sends_to l (stable_sort bs) ≡ sends_to l bs
unfolding stable_sort
sends_to-stable_sort l [] = refl
sends_to-stable_sort l (b ∷ bs) =
    ground (arith, sends_to-sort_in l b (stable_sort bs), sends_to-stable_sort l bs)

module _ (k : BlobLocation) where
  -- Two writes of different blobs can be exchanged.
  exchange :
      (x b : BlobToSend) (o : Option (List ℕ))
      → eq x.location b.location ≡ false
      → (if eq k x.location
          then written (update_of x).content
          else if eq k b.location
          then written (update_of b).content
          else o)
        ≡ (if eq k b.location
            then written (update_of b).content
            else if eq k x.location
            then written (update_of x).content
            else o)
  exchange x b o n =
      ground (arith, eq_iff k x.location, eq_iff k b.location, eq_iff x.location b.location)

  sent_content-sort_in :
      (b : BlobToSend) (bs : List BlobToSend) (o : Option (List ℕ))
      → sends_to b.location bs ≡ false
      → sent_content k (sort_in b bs) o ≡ sent_content k (b ∷ bs) o
  unfolding sort_in
  sent_content-sort_in b [] o n = refl
  sent_content-sort_in b (x ∷ xs) o n = elim (Bool-cases (goes_before x.location b.location)) [
    | inr m ↦ rw m refl
    | inl y ↦ rw y (
        sent_content-sort_in b xs (if eq k x.location then written (update_of x).content else o)
          (ground arith)
        ∙ sym (ap (sent_content k xs) (exchange x b o (ground arith))))
  ]

  sent_content-stable_sort :
      (bs : List BlobToSend) (o : Option (List ℕ))
      → Distinct bs
      → sent_content k (stable_sort bs) o ≡ sent_content k bs o
  unfolding stable_sort
  sent_content-stable_sort [] o d = refl
  sent_content-stable_sort (b ∷ bs) o d =
      sent_content-sort_in b (stable_sort bs) o (sends_to-stable_sort b.location bs ∙ d.0)
      ∙ sent_content-stable_sort bs (if eq k b.location then written (update_of b).content else o)
          d.1

  pub sent_content-append :
      (bs cs : List BlobToSend) (o : Option (List ℕ))
      → sent_content k (bs ++ cs) o ≡ sent_content k cs (sent_content k bs o)
  sent_content-append [] cs o = refl
  sent_content-append (b ∷ bs) cs o =
      sent_content-append bs cs (if eq k b.location then written (update_of b).content else o)

-- The blobs of a map of writes that are no longer than a blob may be.
abbrev pub AllSmall : List (BlobLocation × List ℕ) → Type 0
AllSmall ws = All (λ (e : BlobLocation × List ℕ). length e.1 ≤ max_blob_size) ws

abbrev pub content_or : Option (BlobLocation × List ℕ) → Option (List ℕ) → Option (List ℕ)
content_or none o = o
content_or (some e) o = some e.1

small_write :
    (e : BlobLocation × List ℕ)
    → length e.1 ≤ max_blob_size
    → written (update_of (regular_write e)).content ≡ some e.1
small_write (l, content) h =
    let n : (length content % 2 ^ 32 == delete_blob_size) ≡ false = ground arith in rw n refl

-- One element of an ordered map or set after the other.
module _ {A : Type 0} (key : A → BlobLocation) (k : BlobLocation) (x : A) (xs : List A) where
  find_step :
      Sorted key location_order (x ∷ xs)
      → find key k (x ∷ xs) ≡ (if eq k (key x) then some x else find key k xs)
  find_step v = rw (← same-eq-eq k (key x)) (find-cons key location_order k x xs v)

  find_rest : Sorted key location_order (x ∷ xs) → eq k (key x) ≡ true → find key k xs ≡ none
  find_rest v h =
      subst (λ l. find key l xs ≡ none) (sym ((eq_iff k (key x)).0 h))
        (find-tail key location_order x xs v)

module _ (k : BlobLocation) where
  sent_writes :
      (ws : List (BlobLocation × List ℕ)) (o : Option (List ℕ))
      → Sorted location_of location_order ws
      → AllSmall ws
      → sent_content k (map regular_write ws) o ≡ content_or (find location_of k ws) o
  unfolding find
  sent_writes [] o v a = refl
  sent_writes (e ∷ ws) o v a =
      ap (λ c. sent_content k (map regular_write ws) (if eq k e.0 then c else o))
        (small_write e a.0)
      ∙ sent_writes ws (if eq k e.0 then some e.1 else o) v.1 a.1
      ∙ rw (find_step location_of k e ws v) (ground (arith, find_rest location_of k e ws v))

  sent_deletions :
      (ls : List BlobLocation) (o : Option (List ℕ))
      → Sorted itself location_order ls
      → sent_content k (map deletion_of ls) o ≡ (if count itself k ls then none else o)
  unfolding find
  sent_deletions [] o v = refl
  sent_deletions (l ∷ ls) o v = rw (find_step itself k l ls v) (
      sent_deletions ls (if eq k l then none else o) v.1
      ∙ ground (arith, find_rest itself k l ls v))

above_not_sent :
    (l : BlobLocation) (ws : List (BlobLocation × List ℕ))
    → all (λ (e : BlobLocation × List ℕ). lt l e.0) ws ≡ true
    → sends_to l (map regular_write ws) ≡ false
unfolding lt eq
above_not_sent l [] a = refl
above_not_sent l (e ∷ ws) a = ground (arith, above_not_sent l ws)

writes-Distinct :
    (ws : List (BlobLocation × List ℕ))
    → Sorted location_of location_order ws
    → Distinct (map regular_write ws)
writes-Distinct [] v = tt
writes-Distinct (e ∷ ws) v = (above_not_sent e.0 ws v.0, writes-Distinct ws v.1)

-- What the updates of a transaction that deletes no cluster and no segment make of a content.
pub sent_updates :
    (k : BlobLocation) (t : DatabaseState) (o : Option (List ℕ))
    → IsValid t
    → AllSmall t.written_blobs
    → t.deleted_clusters ≡ []
    → t.deleted_segments ≡ []
    → content_after k (map update_of (get_sorted_writes_to_transmit t)) o ≡ (
        if count itself k t.deleted_blobs
        then none
        else content_or (find location_of k t.written_blobs) o)
unfolding get_sorted_writes_to_transmit
sent_updates k t o v a nc ns =
    let writes = map regular_write t.written_blobs in
    let deletions = map deletion_of t.deleted_blobs in
    rw (nc, ns, append-nil deletions)
      (sent_content-append k (stable_sort writes) deletions o
        ∙ ap (sent_content k deletions) (
            sent_content-stable_sort k writes o (writes-Distinct t.written_blobs v.written_sorted)
            ∙ sent_writes k t.written_blobs o v.written_sorted a)
        ∙ sent_deletions k t.deleted_blobs (content_or (find location_of k t.written_blobs) o)
            v.deleted_blobs_sorted)
