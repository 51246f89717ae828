-- ===== src/ReadQueue/Deadlocks.antt =====
-- Which deadlocks `QueueReadCheckDeadlock` reports.
use blobs_db.Base.{
  ◌⊎◌, ℕ, ◌≡◌, refl, ◌∙◌, sym, ap, Bool, true, false, ◌&&◌, ◌||◌, Option, none, some, List, [], ◌∷◌,
  ◌++◌, ◌==◌, inl, inr, map, any, find, contains, contains-append, is_some, All, Distinct,
  append-Distinct, Bool-cases, Option-cases, arith,
}
use blobs_db.BlobLocation.{BlobLocation}
use blobs_db.Lock.{Lock}
use blobs_db.LockUtil.{Directory, for_each_lock_in_message}
use blobs_db.ReadQueue.{
  Read, QueuedMessage, LockConflict, DeadlockInfo, conflicts_on, collect_lock_conflicts,
  find_lock_conflict_with, deadlock_of, check_queued, check_all_queued, queue_read_check_deadlock,
  timeout_time,
}
use blobs_db.ReadQueue.Blocking.{
  locked_by, is_blocked_by, blocks_mutually, any-conflicts_on, is_some-find,
  find_lock_conflict_with_lem,
}

abbrev clients_of : List DeadlockInfo → List ℕ
clients_of ds = map (λ d. d.request1.client) ds

any-clients_of :
    (ds : List DeadlockInfo) (c : ℕ)
    → any (λ d. d.request1.client == c) ds ≡ contains (clients_of ds) c
any-clients_of [] c = refl
any-clients_of (d ∷ ds) c = ground (arith, any-clients_of ds c)

-- What one step of the loop does, for a queued message `q`.
abbrev Steps : List DeadlockInfo → Bool → ℕ → List DeadlockInfo → Type 0
Steps ds both c ds' =
    ((a : ℕ) → contains (clients_of ds') a ≡ (contains (clients_of ds) a || c == a && both))
    × (Distinct (clients_of ds) → Distinct (clients_of ds'))

eq_place : (xs : List ℕ) (c a : ℕ) → contains xs c ≡ true → c == a ≡ true → contains xs a ≡ true
eq_place xs c a h e = ground arith

clients_of-append :
    (ds : List DeadlockInfo) (d : DeadlockInfo)
    → clients_of (ds ++ (d ∷ [])) ≡ clients_of ds ++ (d.request1.client ∷ [])
clients_of-append [] d = refl
clients_of-append (e ∷ ds) d = ap (λ t. e.request1.client ∷ t) (clients_of-append ds d)

Steps-none :
    (ds : List DeadlockInfo) (both : Bool) (c : ℕ)
    → contains (clients_of ds) c ≡ true ⊎ both ≡ false
    → Steps ds both c ds
Steps-none ds true c (inl h) = ((λ a. ground (arith, eq_place (clients_of ds) c a h)), λ d. d)
Steps-none ds true c (inr h) = absurd (ground arith)
Steps-none ds false c h = ((λ a. ground arith), λ d. d)

Steps-added :
    (ds : List DeadlockInfo) (d : DeadlockInfo)
    → contains (clients_of ds) d.request1.client ≡ false
    → Steps ds true d.request1.client (ds ++ (d ∷ []))
Steps-added ds d h = (
  λ a.
      rw (clients_of-append ds d)
        (contains-append (clients_of ds) (d.request1.client ∷ []) a ∙ ground arith),
  λ s. rw (clients_of-append ds d) (append-Distinct (clients_of ds) d.request1.client s h),
)

module _ (can_revoke : ℕ → Bool) (db : Directory) (locks : List Lock) (m : Read) where
  -- The body of the loop.
  check_queued-Steps :
      (conflicts : List LockConflict) (q : Read) (ds : List DeadlockInfo)
      → any (λ k. k.blocked_by == q.client) conflicts ≡ is_blocked_by can_revoke db locks m q.client
      → is_some (for_each_lock_in_message db q.locations) ≡ true
      → (ds' : List DeadlockInfo) × (check_queued can_revoke db locks m conflicts q ds ≡ some ds')
        × Steps ds (blocks_mutually can_revoke db locks m q) q.client ds'
  unfolding check_queued blocks_mutually
  check_queued-Steps conflicts q ds e h =
      elim (Bool-cases (any (λ d. d.request1.client == q.client) ds)) [
        | inl y ↦ (
          ds,
          rw (y, check_queued),
          Steps-none ds _ q.client (inl (ground (arith, any-clients_of ds q.client))),
        )
        | inr n ↦ elim (Option-cases (find (λ c. c.blocked_by == q.client) conflicts)) [
          | inl none_found ↦ (
            ds,
            rw (n, none_found, check_queued),
            Steps-none ds _ q.client (inr (rw (blocked ∙ ap is_some none_found, blocks_mutually))),
          )
          | inr (k, p) ↦
              with_conflict n k p (find_lock_conflict_with_lem can_revoke db locks q m.client h)
        ]
      ]
    where
      blocked :
          is_blocked_by can_revoke db locks m q.client
          ≡ is_some (find (λ c. c.blocked_by == q.client) conflicts)
      blocked = sym e ∙ sym (is_some-find (λ c. c.blocked_by == q.client) conflicts)

      with_conflict :
          any (λ d. d.request1.client == q.client) ds ≡ false
          → (k : LockConflict) → find (λ c. c.blocked_by == q.client) conflicts ≡ some k
          → (found : Option BlobLocation) × (find_lock_conflict_with can_revoke db q m.client locks
              ≡ some found)
            × (is_some found ≡ is_blocked_by can_revoke db locks q m.client)
          → (ds' : List DeadlockInfo) × (check_queued can_revoke db locks m conflicts q ds
              ≡ some ds')
            × Steps ds (blocks_mutually can_revoke db locks m q) q.client ds'
      with_conflict n k p (none, r, b) = (
        ds,
        rw (n, p, r, check_queued),
        Steps-none ds _ q.client (inr (rw (blocked ∙ ap is_some p, sym b, blocks_mutually))),
      )
      with_conflict n k p (some l, r, b) = (
        ds ++ (deadlock_of m q k l ∷ []),
        rw (n, p, r, check_queued),
        rw (blocked ∙ ap is_some p, sym b, blocks_mutually)
            (Steps-added ds (deadlock_of m q k l) (sym (any-clients_of ds q.client) ∙ n)),
      )

  check_all_queued-Steps :
      (conflicts : List LockConflict) (queue : List QueuedMessage) (ds : List DeadlockInfo)
      → ((c : ℕ) → any (λ k. k.blocked_by == c) conflicts ≡ is_blocked_by can_revoke db locks m c)
      → All (λ q. is_some (for_each_lock_in_message db q.message.locations) ≡ true) queue
      → (ds' : List DeadlockInfo) × (check_all_queued can_revoke db locks m conflicts queue ds
          ≡ some ds')
        × ((a : ℕ)
            → contains (clients_of ds') a ≡ (
                contains (clients_of ds) a
                || any
                    (λ q. q.message.client == a && blocks_mutually can_revoke db locks m q.message)
                    queue))
        × (Distinct (clients_of ds) → Distinct (clients_of ds'))
  unfolding check_all_queued
  check_all_queued-Steps conflicts [] ds e h = (ds, refl, (λ a. ground arith), λ d. d)
  check_all_queued-Steps conflicts (q ∷ queue) ds e h =
      let (ds1, p, (step, distinct)) =
        check_queued-Steps conflicts q.message ds (e q.message.client) h.0 in
      let (ds2, p', steps, distinct') = check_all_queued-Steps conflicts queue ds1 e h.1 in
      (
        ds2,
        rw (p, check_all_queued) p',
        λ a. ground (arith, steps a, step a),
        λ d. distinct' (distinct d),
      )

-- For a message whose locations exist, as those of the queued messages do, the check returns a list
-- of deadlocks: a client is in the list exactly if it has a queued message such that each of the
-- two messages is blocked by the client of the other; no client is in the list twice; and the
-- message stands at the end of the queue afterwards.
pub queue_read_reports_deadlocks :
    (can_revoke : ℕ → Bool) (db : Directory) (locks : List Lock) (now : ℕ) (m : Read)
    (queue : List QueuedMessage)
    → is_some (for_each_lock_in_message db m.locations) ≡ true
    → All (λ q. is_some (for_each_lock_in_message db q.message.locations) ≡ true) queue
    → (ds : List DeadlockInfo) × (queue_read_check_deadlock can_revoke db locks now m queue
        ≡ some (ds, queue ++ (record { message = m; lock_timeout_time = timeout_time now m } ∷ [])))
      × ((c : ℕ)
          → any (λ d. d.request1.client == c) ds
            ≡ any
                (λ q. q.message.client == c && blocks_mutually can_revoke db locks m q.message)
                queue)
      × Distinct (map (λ d. d.request1.client) ds)
unfolding queue_read_check_deadlock collect_lock_conflicts is_blocked_by
queue_read_reports_deadlocks can_revoke db locks now m queue h hs =
    elim (Option-cases (for_each_lock_in_message db m.locations)) [
      | inl n ↦ absurd (ground arith)
      | inr (ls, e) ↦
          let (ds, p, exact, distinct) =
            check_all_queued-Steps can_revoke db locks m (conflicts_on can_revoke m locks ls) queue
              [] (λ c. any-conflicts_on can_revoke m locks c ls ∙ rw (e, is_blocked_by, locked_by))
              hs in
          (
            ds,
            rw (e, p, queue_read_check_deadlock, collect_lock_conflicts),
            λ c. any-clients_of ds c ∙ exact c,
            distinct tt,
          )
    ]
