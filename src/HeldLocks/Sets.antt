-- ===== src/HeldLocks/Sets.antt =====
-- The membership of a `std::set` after its operations.
use blobs_db.Base.{◌≡◌, refl, true, false, not, ◌&&◌, ◌||◌, List, [], ◌∷◌, ◌++◌, all, arith}
use blobs_db.BlobLocation.{BlobLocation, eq, lt}
use blobs_db.BlobLocation.Order.{eq_iff}
use blobs_db.ClientLocks.{has}
use blobs_db.ClientLocks.Agreement.{has-append, has-filter}
use blobs_db.HeldLocks.{insert, erase, before_lower_bound, from_upper_bound}

-- The list is in strict order.
abbrev pub Sorted : List BlobLocation → Type 0
Sorted [] = Unit {0}
Sorted (m ∷ ms) = (all (λ n. lt m n) ms ≡ true) × Sorted ms

lt-trichotomy : (l m : BlobLocation) → lt l m ≡ false → lt m l ≡ false → l ≡ m
unfolding lt
lt-trichotomy l m h k = ground arith

pub has-insert :
    (l : BlobLocation) (ms : List BlobLocation) (l' : BlobLocation)
    → has l' (insert l ms) ≡ (eq l l' || has l' ms)
unfolding insert
has-insert l [] l' = ground arith
has-insert l (m ∷ ms) l' =
    ground (arith, has-insert l ms l', lt-trichotomy l m, eq_iff l l', eq_iff m l')

pub has-erase :
    (l : BlobLocation) (ms : List BlobLocation) (l' : BlobLocation)
    → has l' (erase l ms) ≡ (has l' ms && not (eq l l'))
unfolding erase
has-erase l ms l' = ground (arith, has-filter (λ m. not (eq m l)) ms l', eq_iff l l', eq_iff l' l)

lt-irreflexive : (l : BlobLocation) → lt l l ≡ false
unfolding lt
lt-irreflexive l = ground arith

lt_trans : (a b c : BlobLocation) → lt a b ≡ true → lt b c ≡ true → lt a c ≡ true
unfolding lt
lt_trans a b c h k = ground arith

has-all-lt :
    (m : BlobLocation) (ms : List BlobLocation) (l : BlobLocation)
    → all (λ n. lt m n) ms ≡ true
    → has l ms ≡ true
    → lt m l ≡ true
has-all-lt m [] l a h = absurd (ground arith)
has-all-lt m (n ∷ ms) l a h = ground (arith, has-all-lt m ms l, eq_iff n l)

-- `lower_bound` splits the members by whether they are before the location.
has-before_lower_bound :
    (b : BlobLocation) (ms : List BlobLocation) (l : BlobLocation)
    → Sorted ms
    → has l (before_lower_bound b ms) ≡ (has l ms && lt l b)
unfolding before_lower_bound
has-before_lower_bound b [] l s = refl
has-before_lower_bound b (m ∷ ms) l s =
    ground
      (arith, has-before_lower_bound b ms l s.1, has-all-lt m ms l s.0, lt_trans m l b, eq_iff m l)

has-from_upper_bound :
    (e : BlobLocation) (ms : List BlobLocation) (l : BlobLocation)
    → Sorted ms
    → has l (from_upper_bound e ms) ≡ (has l ms && lt e l)
unfolding from_upper_bound
has-from_upper_bound e [] l s = refl
has-from_upper_bound e (m ∷ ms) l s =
    ground
      (arith, has-from_upper_bound e ms l s.1, has-all-lt m ms l s.0, lt_trans e m l, eq_iff m l)

-- What `erase(lower_bound(begin), upper_bound(end))` leaves.
pub has-erased_range :
    (b e : BlobLocation) (ms : List BlobLocation) (l : BlobLocation)
    → Sorted ms
    → has l (before_lower_bound b ms ++ from_upper_bound e ms) ≡ (has l ms && (lt l b || lt e l))
has-erased_range b e ms l s = ground (
  arith,
  has-append (before_lower_bound b ms) (from_upper_bound e ms) l,
  has-before_lower_bound b ms l s,
  has-from_upper_bound e ms l s,
)
