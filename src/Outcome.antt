-- ===== src/Outcome.antt =====
-- ClientLib/include/blobs/Exception.hpp: what a call of the client library comes to: it returns, it
-- throws one of the exceptions, or an assertion of it fails.
use blobs_db.Base.{Bool, true, false, ◌≡◌, refl}

-- `ExceptionCode`
pub data Exception : Type 0 where
  generic : Exception
  db_already_open : Exception
  db_close_during_txn : Exception
  db_not_open : Exception
  too_many_dbs_open : Exception
  db_does_not_exist : Exception
  db_already_exists : Exception
  overwrite_opened_database : Exception
  illegal_database_path : Exception
  lock_timeout : Exception
  deadlock : Exception
  blob_too_large : Exception
  blob_does_not_exist : Exception
  blob_already_exists : Exception
  blob_deleted : Exception
  cluster_does_not_exist : Exception
  cluster_deleted : Exception
  segment_does_not_exist : Exception
  segment_deleted : Exception
  blob_limit_reached : Exception
  cluster_limit_reached : Exception
  segment_limit_reached : Exception
  transaction_already_open : Exception
  internal_commit_error : Exception
  cannot_write_lock_in_mvcc : Exception

pub data Outcome {ℓ} (A : Type ℓ) : Type ℓ where
  returned : A → Outcome A
  thrown : Exception → Outcome A
  assertion_failed : Outcome A

infixl 5 ◌>>=◌ ◌>>◌
abbrev pub ◌>>=◌ {ℓ κ} : {A : Type ℓ} {B : Type κ} → Outcome A → (A → Outcome B) → Outcome B
returned a >>= f = f a
thrown e >>= f = thrown e
assertion_failed >>= f = assertion_failed

abbrev pub ◌>>◌ {ℓ} : {B : Type ℓ} → Outcome (Unit {0}) → Outcome B → Outcome B
m >> k = m >>= λ _. k

abbrev pub throw_if : Bool → Exception → Outcome (Unit {0})
throw_if true e = thrown e
throw_if false e = returned tt

abbrev pub assert : Bool → Outcome (Unit {0})
assert true = returned tt
assert false = assertion_failed

-- Inversion of a bind that returns.
pub >>=-eq-returned {ℓ κ} :
    {A : Type ℓ} {B : Type κ} (m : Outcome A) (f : A → Outcome B) {b : B}
    → (m >>= f) ≡ returned b
    → (a : A) × (m ≡ returned a) × (f a ≡ returned b)
>>=-eq-returned (returned a) f h = (a, refl, h)
>>=-eq-returned (thrown e) f h = cc
>>=-eq-returned assertion_failed f h = cc
