-- ===== src/Tests/Locks.antt =====
-- Three clients: client 1 has a sticky read lock, client 2 writes inside a transaction, client 3
-- asks for a lock.
use blobs_db.Base.{
  ℕ, ◌+◌, ◌≡◌, refl, Bool, true, false, not, ◌&&◌, ◌⊎◌, inl, inr, none, some, List, [], ◌∷◌, any,
  ◌==◌, ltb, if◌then◌else◌, arith,
}
use blobs_db.Config.{cluster_delete_id, next_free_blob_id, blob_list_id}
use blobs_db.BlobLocation.{BlobLocation, at, eq}
use blobs_db.BlobLocation.Order.{IsWide}
use blobs_db.Lock.{Lock, acquire, can_acquire, owns_write_lock}
use blobs_db.Lock.Holders
use blobs_db.Lock.Holders.{holds, holds-acquire, release_lem, active_client_keeps_lock}
use blobs_db.LockUtil.{
  Directory, list_of_clusters, for_each_lock_for_location, for_each_lock_in_message,
  all_locks_for_location, all_locks_in_message,
}
use blobs_db.LockUtil.Visits.{visit, all_locks-eq-visit}
use blobs_db.LockTable.{Revocation, lookup, client_owns_write_lock, acquire_locks, release_lock}
use blobs_db.LockTable.Lookup.{IsValid, holds_at}
use blobs_db.LockTable.Safety.{KeepsActive, acquire_locks-KeepsActive, acquire_locks_all_or_nothing}
use blobs_db.LockTable.Release.{release_lock_lem}

abbrev pub first : BlobLocation
first = at 1 0 5

abbrev pub second : BlobLocation
second = at 1 0 6

abbrev pub read_by_1 : Lock
read_by_1 = record { location = first; read = 1 ∷ []; write = none }

abbrev pub written_by_2 : Lock
written_by_2 = record { location = second; read = []; write = some 2 }

abbrev pub table : List Lock
table = read_by_1 ∷ written_by_2 ∷ []

abbrev pub only_client_1_is_idle : ℕ → Bool
only_client_1_is_idle c = c == 1

-- One segment with one cluster of two blobs.
abbrev pub one_cluster : Directory
one_cluster = record {
  clusters_of = λ s. if s == 1 then some (0 ∷ []) else none;
  blobs_of = λ s c. if s == 1 && c == 0 then some (5 ∷ 6 ∷ []) else none;
}

read_by_1-IsValid : Holders.IsValid read_by_1
read_by_1-IsValid = record { exclusive = inr refl; distinct = (refl, tt) }

written_by_2-IsValid : Holders.IsValid written_by_2
written_by_2-IsValid = record { exclusive = inl refl; distinct = tt }

pub table-IsValid : IsValid table
unfolding lookup eq
table-IsValid = (refl, read_by_1-IsValid, (refl, written_by_2-IsValid, tt))

first-IsWide : IsWide first
first-IsWide = record {
  segment_fits = omega arith;
  cluster_fits = omega arith;
  blob_fits = omega arith;
}

second-IsWide : IsWide second
second-IsWide = record {
  segment_fits = omega arith;
  cluster_fits = omega arith;
  blob_fits = omega arith;
}

client_1_holds : holds 1 read_by_1 ≡ true
unfolding owns_write_lock
client_1_holds = refl

abbrev no_conflict : ℕ → Bool
no_conflict c = false

readers_share : can_acquire no_conflict 3 false read_by_1 ≡ true
unfolding can_acquire
readers_share = refl

-- Deleting the cluster takes locks in it and on the list of the clusters.
abbrev deleted_cluster : BlobLocation
deleted_cluster = at 1 0 cluster_delete_id

abbrev visited_cluster : List BlobLocation
visited_cluster =
    deleted_cluster
    ∷ at 1 0 next_free_blob_id
    ∷ at 1 0 blob_list_id
    ∷ list_of_clusters 1
    ∷ first
    ∷ second
    ∷ []

cluster_is_visited : for_each_lock_for_location one_cluster deleted_cluster ≡ some visited_cluster
unfolding for_each_lock_for_location
cluster_is_visited = refl

-- A predicate that counts its calls.
abbrev counting : BlobLocation → ℕ → Bool × ℕ
counting l n = (ltb n 4, n + 1)

all_locks-eq-visit_example :
    all_locks_for_location counting one_cluster (λ _ _. false) (λ _ _ _. false) deleted_cluster 0
    ≡ some (visit counting visited_cluster 0)
all_locks-eq-visit_example =
    all_locks-eq-visit counting one_cluster (λ _ _. false) (λ _ _ _. false) deleted_cluster
      visited_cluster 0 cluster_is_visited

pub first_is_visited : for_each_lock_in_message one_cluster (first ∷ []) ≡ some (first ∷ [])
unfolding for_each_lock_in_message
first_is_visited = refl

second_is_visited : for_each_lock_in_message one_cluster (second ∷ []) ≡ some (second ∷ [])
unfolding for_each_lock_in_message
second_is_visited = refl

abbrev taken_over : List Lock
taken_over = record { location = first; read = []; write = some 3 } ∷ written_by_2 ∷ []

client_3_acquires :
    acquire_locks only_client_1_is_idle one_cluster 3 true (first ∷ []) table
    ≡ some (true, record { client = 1; location = first } ∷ [], taken_over)
unfolding acquire_locks all_locks_in_message lookup eq can_acquire for_each_lock_in_message acquire
client_3_acquires = refl

client_2_holds : holds_at 2 second table ≡ true
unfolding lookup owns_write_lock eq
client_2_holds = refl

acquire_locks-KeepsActive_example :
    IsValid taken_over × KeepsActive only_client_1_is_idle table taken_over
acquire_locks-KeepsActive_example =
    acquire_locks-KeepsActive only_client_1_is_idle one_cluster 3 true (first ∷ []) (first ∷ [])
      table true (record { client = 1; location = first } ∷ []) taken_over table-IsValid
      first_is_visited client_3_acquires

acquire_locks_all_or_nothing_example :
    (acquire_locks only_client_1_is_idle one_cluster 3 true (second ∷ []) table
      ≡ some (false, [], table))
    ⊎ ((revoked : List Revocation) × (locks' : List Lock) × (acquire_locks only_client_1_is_idle
            one_cluster 3 true
            (second ∷ [])
            table
          ≡ some (true, revoked, locks'))
        × ((l : BlobLocation)
            → any (λ m. eq m l) (second ∷ []) ≡ true
            → (holds_at 3 l locks' ≡ true)
              × (true ≡ true → client_owns_write_lock 3 l locks' ≡ true)))
acquire_locks_all_or_nothing_example =
    acquire_locks_all_or_nothing only_client_1_is_idle one_cluster 3 true (second ∷ [])
      (second ∷ []) table second_is_visited

release_lock_lem_example :
    (locks' : List Lock) × (release_lock 2 second table ≡ some locks')
    × (holds_at 1 first locks' ≡ (holds_at 1 first table && not (eq second first && 1 == 2)))
release_lock_lem_example = release_lock_lem 2 second table 1 first table-IsValid client_2_holds
