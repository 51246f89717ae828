-- ===== src/ClientDatabase/CommittedCache.antt =====
-- The cache after a commit.
use blobs_db.Base.{
  ℕ, ◌≡◌, ◌∙◌, subst, ap, sym, refl, arith, true, false, not, Option, none, some, List, [], ◌∷◌,
  ◌==◌, if◌then◌else◌, Bool-cases, inl, inr, is_empty, ◌||◌,
}
use blobs_db.BlobLocation.{BlobLocation, at, eq}
use blobs_db.Config.{blob_list_id, cluster_list_id, segment_list_id}
use blobs_db.StdSet.{find, same}
use blobs_db.StdSet.Laws.{
  Sorted, find-assign, find-erase, find-cons, find-tail, same_eq, assign-Sorted, erase-Sorted,
}
use blobs_db.Transaction.Orders.{location_less, location_order}
use blobs_db.Transaction.{DatabaseState, location_of}
use blobs_db.Outcome.{returned}
use blobs_db.Transaction.Overlay.{same-eq-eq}
use blobs_db.Transaction.Messages.{ClientCommit, construct_transaction_messages}
use blobs_db.BlobCache.{Cache, CachedBlob, cached_at, get, set, remove_blob}
use blobs_db.ClientDatabase.{Database, RunningTransaction, transfer_and_clear_state}
use blobs_db.ClientDatabase.Committing.{
  CommitAnswer, made, commit, after_commit, update_cache, remove_blob_lists, remove_cluster_lists,
  clear_modified_id_lists,
}

-- What the cache has at a location after the writes have been entered.
abbrev pub entered : ℕ → ℕ → Option (BlobLocation × List ℕ) → Option CachedBlob → Option CachedBlob
entered commit id none before = before
entered commit id (some e) before =
    some record { content = e.1; last_updated = commit; transaction_id = id }

abbrev content_of : Option (BlobLocation × CachedBlob) → Option CachedBlob
content_of o = elim o [ none ↦ none | some e ↦ some e.1 ]

pub get-set :
    (k l : BlobLocation) (b : CachedBlob) (cache : Cache)
    → get k (set l b cache) ≡ (if same k l then some b else get k cache)
unfolding get
get-set k l b cache =
    ap content_of (find-assign cached_at location_order k (l, b) cache)
    ∙ elim (Bool-cases (same k l)) [ inl y ↦ rw y refl | inr n ↦ rw n refl ]

get-remove_blob :
    (k l : BlobLocation) (cache : Cache)
    → Sorted cached_at location_order cache
    → get k (remove_blob l cache) ≡ (if same k l then none else get k cache)
unfolding get remove_blob
get-remove_blob k l cache v =
    ap content_of (find-erase cached_at location_order l k cache v)
    ∙ elim (Bool-cases (same k l)) [ inl y ↦ rw y refl | inr n ↦ rw n refl ]

find-nil : (k : BlobLocation) → find location_of k [] ≡ none
unfolding find
find-nil k = refl

get-update_cache :
    (n id : ℕ) (k : BlobLocation) (ws : List (BlobLocation × List ℕ)) (cache : Cache)
    → Sorted location_of location_order ws
    → get k (update_cache n id ws cache) ≡ entered n id (find location_of k ws) (get k cache)
unfolding update_cache
get-update_cache n id k [] cache v = ap (λ o. entered n id o (get k cache)) (sym (find-nil k))
get-update_cache n id k ((l, content) ∷ ws) cache v =
    let blob : CachedBlob = record { content = content; last_updated = n; transaction_id = id } in
    let rest = get-update_cache n id k ws (set l blob cache) v.1 in
    let here = find-cons location_of location_order k (l, content) ws v in
    let now = get-set k l blob cache in
    elim (Bool-cases (same k l)) [
      | inl y ↦
          let gone : find location_of k ws ≡ none =
            ap (λ j. find location_of j ws) (same_eq location_of location_order k l y)
            ∙ find-tail location_of location_order (l, content) ws v in
          rest ∙ rw (gone, here, now, y) refl
      | inr n ↦ rest ∙ rw (here, now, n) refl
    ]

update_cache-Sorted :
    (n id : ℕ) (ws : List (BlobLocation × List ℕ)) (cache : Cache)
    → Sorted cached_at location_order cache
    → Sorted cached_at location_order (update_cache n id ws cache)
unfolding update_cache
update_cache-Sorted n id [] cache v = v
update_cache-Sorted n id ((l, content) ∷ ws) cache v =
    let blob : CachedBlob = record { content = content; last_updated = n; transaction_id = id } in
    update_cache-Sorted n id ws (set l blob cache)
      (assign-Sorted cached_at location_order (l, blob) cache v)

-- Removing lists of ids leaves the other blobs in the cache.
module _ (k : BlobLocation) (other : (k.blob == blob_list_id) ≡ false) where
  abbrev Keeps : Cache → Cache → Type 0
  Keeps cache cache' = Sorted cached_at location_order cache' × (get k cache' ≡ get k cache)

  eq_blob : (s c : ℕ) → eq k (at s c blob_list_id) ≡ false
  unfolding eq
  eq_blob s c = ground arith

  differs : (s c : ℕ) → same k (at s c blob_list_id) ≡ false
  differs s c = same-eq-eq k (at s c blob_list_id) ∙ eq_blob s c

  remove-Keeps :
      (s c : ℕ) (cache : Cache)
      → Sorted cached_at location_order cache
      → Keeps cache (remove_blob (at s c blob_list_id) cache)
  unfolding remove_blob
  remove-Keeps s c cache v = (
    erase-Sorted cached_at location_order (at s c blob_list_id) cache v,
    get-remove_blob k (at s c blob_list_id) cache v ∙ rw (differs s c) refl,
  )

  then-Keeps : (a b c : Cache) → Keeps a b → Keeps b c → Keeps a c
  then-Keeps a b c (_, x) (v, y) = (v, y ∙ x)

  remove_blob_lists-Keeps :
      (ls : List BlobLocation) (cache : Cache)
      → Sorted cached_at location_order cache
      → Keeps cache (remove_blob_lists ls cache)
  unfolding remove_blob_lists
  remove_blob_lists-Keeps [] cache v = (v, refl)
  remove_blob_lists-Keeps (l ∷ ls) cache v =
      let first = remove-Keeps l.segment l.cluster cache v in
      then-Keeps _ _ _ first (
        remove_blob_lists-Keeps ls (remove_blob (at l.segment l.cluster blob_list_id) cache)
          first.0)

  remove_cluster_lists-Keeps :
      (cs : List (ℕ × ℕ)) (cache : Cache)
      → Sorted cached_at location_order cache
      → Keeps cache (remove_cluster_lists cs cache)
  unfolding remove_cluster_lists
  remove_cluster_lists-Keeps [] cache v = (v, refl)
  remove_cluster_lists-Keeps ((s, c) ∷ cs) cache v =
      let first = remove-Keeps s cluster_list_id cache v in
      then-Keeps _ _ _ first (
        remove_cluster_lists-Keeps cs (remove_blob (at s cluster_list_id blob_list_id) cache)
          first.0)

  clear_modified_id_lists-Keeps :
      (s : DatabaseState) (cache : Cache)
      → Sorted cached_at location_order cache
      → Keeps cache (clear_modified_id_lists s cache)
  unfolding clear_modified_id_lists
  clear_modified_id_lists-Keeps s cache v =
      let cache1 = remove_blob_lists s.created_blobs cache in
      let cache2 = remove_blob_lists s.deleted_blobs cache1 in
      let cache3 = remove_cluster_lists s.created_clusters cache2 in
      let one = remove_blob_lists-Keeps s.created_blobs cache v in
      let two = then-Keeps _ _ _ one (remove_blob_lists-Keeps s.deleted_blobs cache1 one.0) in
      let three =
        then-Keeps _ _ _ two (remove_cluster_lists-Keeps s.created_clusters cache2 two.0) in
      let four =
        then-Keeps _ _ _ three (remove_cluster_lists-Keeps s.deleted_clusters cache3 three.0) in
      elim (Bool-cases (not (is_empty s.deleted_segments) || not (is_empty s.created_segments))) [
        | inl y ↦ rw y (
            then-Keeps _ _ _ four (
              remove-Keeps segment_list_id cluster_list_id
                (remove_cluster_lists s.deleted_clusters cache3) four.0))
        | inr n ↦ rw n four
      ]

-- After a commit that the server has made with a commit id, Commit returns and has ended the
-- transaction; the cache has each blob that the transaction has written, with its content and that
-- commit id, and each other blob as before, but for the lists of ids.
pub commit_lem :
    (message_header blob_header : ℕ) (answer : List ClientCommit → CommitAnswer) (id n : ℕ)
    (txn : ℕ) (s : DatabaseState) (messages : List ClientCommit) (db : Database) (k : BlobLocation)
    → db.transaction ≡ some record { id = txn; state = some s }
    → construct_transaction_messages message_header blob_header (id ∷ []) ((id, s) ∷ [])
      ≡ some messages
    → answer messages ≡ made (some n)
    → Sorted location_of location_order s.written_blobs
    → Sorted cached_at location_order db.cache
    → (k.blob == blob_list_id) ≡ false
    → let done = commit message_header blob_header answer id db in
      (done.0 ≡ returned true)
      × (done.1.transaction ≡ none)
      × (get k done.1.cache ≡ entered n txn (find location_of k s.written_blobs) (get k db.cache))
unfolding commit after_commit transfer_and_clear_state
commit_lem message_header blob_header answer id n txn s messages db k running sent accepted v w
      other =
    let t : RunningTransaction = record { id = txn; state = some s } in
    let e : commit message_header blob_header answer id db
        ≡ (returned true, after_commit (some n) t db) =
      ground arith in
    let updated = update_cache n txn s.written_blobs db.cache in
    let (_, kept) =
      clear_modified_id_lists-Keeps k other s updated
        (update_cache-Sorted n txn s.written_blobs db.cache w) in
    subst
      (λ p.
        (p.0 ≡ returned true)
        × (p.1.transaction ≡ none)
        × (get k p.1.cache ≡ entered n txn (find location_of k s.written_blobs) (get k db.cache)))
      (sym e) (refl, refl, kept ∙ get-update_cache n txn k s.written_blobs db.cache v)
