-- ===== src/ClientDatabase/Requests.antt =====
-- What the operations of ClientLib/Database.cpp share.
use blobs_db.Base.{◌≡◌, ◌∙◌, sym, ap, refl, ℕ, Bool, true, false, none, some, List, [], ◌∷◌}
use blobs_db.BlobLocation.{BlobLocation}
use blobs_db.Outcome.{Exception, Outcome, returned, thrown, assertion_failed}
use blobs_db.Snapshot.{read_id}
use blobs_db.Transaction.{DatabaseState, acquired_lock}
use blobs_db.ClientDatabase.{Database, M, state_of, with_state, ◌>>=◌, >>=-returned}

infixl 5 ◌>>◌
abbrev pub ◌>>◌ : {A : Type 0} → M (Unit {0}) → M A → M A
◌>>◌ m k = m >>= λ _. k

abbrev pub give : {A : Type 0} → A → M A
give a db = (returned a, db)

abbrev pub throw_when : Bool → Exception → M (Unit {0})
throw_when true e db = (thrown e, db)
throw_when false e db = (returned tt, db)

-- An operation of the running transaction on its state of this database, which is there afterwards
-- also if the operation has thrown. Without a transaction the source has a null pointer here.
abbrev pub in_state : (DatabaseState → Outcome DatabaseState) → M (Unit {0})
in_state f db = elim db.transaction [
  | none ↦ (assertion_failed, db)
  | some t ↦ elim (f (state_of t)) [
    | returned s ↦ (returned tt, with_state t s db)
    | thrown e ↦ (thrown e, with_state t (state_of t) db)
    | assertion_failed ↦ (assertion_failed, with_state t (state_of t) db)
  ]
]

-- `AcquiredLock` of a write lock
abbrev pub now_locked : BlobLocation → M (Unit {0})
now_locked l = in_state (λ s. returned (acquired_lock l true s))

abbrev pub now_all_locked : List BlobLocation → M (Unit {0})
now_all_locked [] = give tt
now_all_locked (l ∷ ls) = now_locked l >> now_all_locked ls

-- The id that a blob of its size holds.
abbrev pub id_in : List ℕ → M ℕ
id_in content db = elim (read_id content) [
  | none ↦ (assertion_failed, db)
  | some id ↦ (returned id, db)
]

-- Inversion of an operation that returns behind a check.
pub throw_when-returned :
    {A : Type 0} (b : Bool) (e : Exception) (k : M A) (db : Database) {a : A}
    → ((throw_when b e >> k) db).0 ≡ returned a
    → (b ≡ false) × ((throw_when b e >> k) db ≡ k db)
throw_when-returned true e k db h = cc
throw_when-returned false e k db h = (refl, refl)

pub >>-returned :
    {A : Type 0} (m : M (Unit {0})) (k : M A) (db : Database) {a : A}
    → ((m >> k) db).0 ≡ returned a
    → (db' : Database) × ((k db').0 ≡ returned a)
>>-returned m k db h =
    let (_, _, e) = >>=-returned m (λ _. k) db h in ((m db).1, sym (ap (λ p. p.0) e) ∙ h)
