-- ===== src/ClientDatabase/CreatedLocks.antt =====
-- The locks that the client library counts on after a creation are those that the server grants with
-- the commit of it.
use blobs_db.Base.{
  ℕ, zero, suc, ◌+◌, ◌-◌, ◌^◌, ◌%◌, ◌<◌, ◌≡◌, ◌∙◌, ap, refl, Bool, true, ◌&&◌, ◌||◌, List, [], ◌∷◌,
  ◌==◌, leb, ltb, all, any, inl, inr, Bool-cases, arith, if◌then◌else◌, add32,
}
use blobs_db.BlobLocation.{BlobLocation, at, eq}
use blobs_db.Lock.{Lock}
use blobs_db.LockTable.{client_owns_write_lock, acquire_implicit_write_locks}
use blobs_db.BlobLocationRanges.{BlobLocationRange, is_created_cluster, is_created_segment}
use blobs_db.Commit.Databases.{blobs_of_range, locks_of_range, implicit_locks}
use blobs_db.Commit.Implicit.{names, owns-implicit_locks}
use blobs_db.ClientDatabase.Creations.{locks_of_new_cluster, locks_of_new_segment}

-- Which locks the client counts on after the creation of a range: of a segment and of a cluster what
-- the creation enters as held, of blobs the lock of each of them.
abbrev pub counts_on : BlobLocation → BlobLocationRange → Bool
counts_on l r =
    if is_created_segment r
    then names (locks_of_new_segment r.begin.segment) l
    else if is_created_cluster r
    then names (locks_of_new_cluster r.begin.segment r.begin.cluster) l
    else (l.segment == r.begin.segment && l.cluster == r.begin.cluster)
      && (leb r.begin.blob l.blob && ltb l.blob r.end.blob)

-- A range of blobs ends behind its begin.
abbrev pub is_forward : BlobLocationRange → Bool
is_forward r =
    is_created_segment r
    || (is_created_cluster r || (leb r.begin.blob r.end.blob && ltb r.end.blob (2 ^ 32)))

names-blobs_of_range :
    (n s c b : ℕ) (l : BlobLocation)
    → b + n < 2 ^ 32
    → names (blobs_of_range n s c b) l
      ≡ ((l.segment == s && l.cluster == c) && (leb b l.blob && ltb l.blob (b + n)))
unfolding blobs_of_range eq
names-blobs_of_range zero s c b l h = ground arith
names-blobs_of_range (suc n) s c b l h =
    let next : add32 b 1 ≡ b + 1 = omega arith in
    let rest = names-blobs_of_range n s c (b + 1) l (omega arith) in
    ap (λ i. eq (at s c b) l || names (blobs_of_range n s c i) l) next ∙ ground (arith, rest)

names-locks_of_range :
    (l : BlobLocation) (r : BlobLocationRange)
    → is_forward r ≡ true
    → names (locks_of_range r) l ≡ counts_on l r
unfolding locks_of_range
names-locks_of_range l r h = elim (Bool-cases (is_created_segment r)) [
  | inl y ↦ rw y refl
  | inr n ↦ elim (Bool-cases (is_created_cluster r)) [
    | inl y ↦ rw (n, y) refl
    | inr n' ↦
        let count : (r.end.blob + 2 ^ 32 - r.begin.blob) % 2 ^ 32 ≡ r.end.blob - r.begin.blob =
          ground arith in
        let below : r.begin.blob + (r.end.blob - r.begin.blob) < 2 ^ 32 = ground arith in
        let whole : r.begin.blob + (r.end.blob - r.begin.blob) ≡ r.end.blob = ground arith in
        rw (n, n')
          (ap (λ k. names (blobs_of_range k r.begin.segment r.begin.cluster r.begin.blob) l) count
            ∙ names-blobs_of_range (r.end.blob - r.begin.blob) r.begin.segment r.begin.cluster
                r.begin.blob l below
            ∙ ap
                (λ e.
                  (l.segment == r.begin.segment && l.cluster == r.begin.cluster)
                  && (leb r.begin.blob l.blob && ltb l.blob e))
                whole)
  ]
]

any-locks_of_range :
    (l : BlobLocation) (rs : List BlobLocationRange)
    → all is_forward rs ≡ true
    → any (λ r. names (locks_of_range r) l) rs ≡ any (counts_on l) rs
any-locks_of_range l [] h = refl
any-locks_of_range l (r ∷ rs) h = ground (arith, names-locks_of_range l r, any-locks_of_range l rs)

-- If no range of created blobs ends before its begin: once the server has acquired the implicit locks
-- of a commit, the client owns exactly the write locks that it owned before and those that the client
-- library entered as held when it created what the ranges stand for: the special locks of a new
-- segment (`CreateSegment`), those of a new cluster (`CreateCluster`), the lock of each new blob.
pub created_locks_are_granted :
    (client : ℕ) (locks : List Lock) (ranges : List BlobLocationRange) (l : BlobLocation)
    → all is_forward ranges ≡ true
    → client_owns_write_lock client l
        (acquire_implicit_write_locks client (implicit_locks client locks ranges) locks).1
      ≡ (client_owns_write_lock client l locks || any (counts_on l) ranges)
created_locks_are_granted client locks ranges l h =
    owns-implicit_locks client locks ranges l
    ∙ ap (λ b. client_owns_write_lock client l locks || b) (any-locks_of_range l ranges h)
