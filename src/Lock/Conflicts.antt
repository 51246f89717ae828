-- ===== src/Lock/Conflicts.antt =====
-- `CanAcquire` and `CollectConflictingClients` decide the same question.
use blobs_db.Base.{
  ℕ, ◌≡◌, refl, Bool, true, false, not, ◌&&◌, ◌||◌, List, [], ◌∷◌, all, filter, contains, is_empty,
  is_some, contains-filter, ◌==◌, arith,
}
use blobs_db.Lock.{Lock, can_acquire, collect_conflicting_clients, owns_write_lock}

filter-empty :
    (can_revoke : ℕ → Bool) (client : ℕ) (read : List ℕ)
    → is_empty (filter (λ l. not (l == client) && not (can_revoke l)) read)
      ≡ all (λ l. l == client || can_revoke l) read
filter-empty can_revoke client [] = refl
filter-empty can_revoke client (x ∷ xs) = ground (arith, filter-empty can_revoke client xs)

-- A lock can be acquired exactly when no client is reported as conflicting.
pub can_acquire-eq-no_conflict :
    (can_revoke : ℕ → Bool) (client : ℕ) (write_lock : Bool) (lock : Lock)
    → can_acquire can_revoke client write_lock lock
      ≡ is_empty (collect_conflicting_clients can_revoke client write_lock lock)
unfolding can_acquire collect_conflicting_clients
can_acquire-eq-no_conflict can_revoke client false lock = ground arith
can_acquire-eq-no_conflict can_revoke client true lock =
    ground (arith, filter-empty can_revoke client lock.read)

-- Who is reported as conflicting with a request: another client in a transaction, that holds the
-- write lock, or, where a write lock is asked for and no one holds it, a read lock.
pub collect_conflicting_clients_iff :
    (can_revoke : ℕ → Bool) (client : ℕ) (write_lock : Bool) (lock : Lock) (c : ℕ)
    → contains (collect_conflicting_clients can_revoke client write_lock lock) c ≡ (
        not (c == client)
        && (not (can_revoke c)
            && (owns_write_lock c lock
                || (write_lock && (not (is_some lock.write) && contains lock.read c)))))
unfolding collect_conflicting_clients owns_write_lock
collect_conflicting_clients_iff can_revoke client false lock c = ground arith
collect_conflicting_clients_iff can_revoke client true lock c =
    ground (arith, contains-filter (λ l. not (l == client) && not (can_revoke l)) lock.read c)
