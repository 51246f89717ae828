-- ===== src/ReadQueue/Waiting.antt =====
-- How long a read waits in the queue.
use blobs_db.Base.{
  ℕ, ◌+◌, ◌^◌, ◌≡◌, refl, ◌∙◌, ap, Bool, ◌&&◌, Option, none, some, List, [], ◌∷◌, ◌++◌, inl, inr,
  append-nil, sym, ltb, leb, if◌then◌else◌, Bool-cases, Option-cases, arith,
}
use blobs_db.Lock.{Lock}
use blobs_db.LockUtil.{Directory}
use blobs_db.ReadQueue.{
  Read, QueuedMessage, DeadlockInfo, timeout_time, timed_out, collect_lock_conflicts,
  check_all_queued, queue_read_check_deadlock, check_for_lock_timeouts,
}

-- `check_for_lock_timeouts` goes through the queue message by message.
check_for_lock_timeouts-append :
    (now : ℕ) (xs ys : List QueuedMessage)
    → check_for_lock_timeouts now (xs ++ ys) ≡ (
      (check_for_lock_timeouts now xs).0 ++ (check_for_lock_timeouts now ys).0,
      (check_for_lock_timeouts now xs).1 ++ (check_for_lock_timeouts now ys).1,
    )
unfolding check_for_lock_timeouts
check_for_lock_timeouts-append now [] ys = refl
check_for_lock_timeouts-append now (x ∷ xs) ys = elim (Bool-cases (timed_out now x)) [
  | inl y ↦ rw (y, check_for_lock_timeouts-append now xs ys, check_for_lock_timeouts)
  | inr n ↦ rw (n, check_for_lock_timeouts-append now xs ys, check_for_lock_timeouts)
]

-- The message is due at `t` if it has a positive timeout and has waited for as long.
abbrev pub is_due : ℕ → ℕ → Read → Bool
is_due now t m =
    (ltb 0 m.lock_timeout_ms && ltb m.lock_timeout_ms (2 ^ 31)) && leb (now + m.lock_timeout_ms) t

timed_out-eq-is_due :
    (now t : ℕ) (m : Read)
    → timed_out t (record { message = m; lock_timeout_time = timeout_time now m }) ≡ is_due now t m
unfolding timed_out timeout_time
timed_out-eq-is_due now t m = ground arith

-- A read that is queued at the time `now` is told of by a check for timeouts at the time `t`, and
-- leaves the queue, exactly if it has a positive timeout (as an `int32_t`) and has waited for as
-- long by then; else it stays at the end of the queue. The messages queued before are treated as
-- they were without it.
pub queued_read_times_out :
    (can_revoke : ℕ → Bool) (db : Directory) (locks : List Lock) (now t : ℕ) (m : Read)
    (queue queue' : List QueuedMessage) (ds : List DeadlockInfo)
    → queue_read_check_deadlock can_revoke db locks now m queue ≡ some (ds, queue')
    → check_for_lock_timeouts t queue' ≡ (
        if is_due now t m
        then ((check_for_lock_timeouts t queue).0 ++ (m ∷ []), (check_for_lock_timeouts t queue).1)
        else (
          (check_for_lock_timeouts t queue).0,
          (check_for_lock_timeouts t queue).1
              ++ (record { message = m; lock_timeout_time = timeout_time now m } ∷ []),
        ))
unfolding queue_read_check_deadlock check_for_lock_timeouts
queued_read_times_out can_revoke db locks now t m queue queue' ds e =
    elim (Option-cases (collect_lock_conflicts can_revoke db m locks)) [
      | inl n ↦ absurd (ground arith)
      | inr (conflicts, p) ↦
          elim (Option-cases (check_all_queued can_revoke db locks m conflicts queue [])) [
            | inl n ↦ absurd (ground arith)
            | inr (ds', p') ↦
                ap (check_for_lock_timeouts t)
                  (sym (added ds' queue' (rw (p, p', queue_read_check_deadlock) at e)))
                ∙ check_for_lock_timeouts-append t queue (entry ∷ [])
                ∙ last
          ]
    ]
  where
    entry : QueuedMessage
    entry = record { message = m; lock_timeout_time = timeout_time now m }

    added :
        (ds' : List DeadlockInfo) (q : List QueuedMessage)
        → ◌≡◌ {A = Option (List DeadlockInfo × List QueuedMessage)}
            (some (ds', queue ++ (entry ∷ [])))
            (some (ds, q))
        → queue ++ (entry ∷ []) ≡ q
    added ds' q h = ap (λ o. elim o [ none ↦ [] | some r ↦ r.1 ]) h

    last :
        ◌≡◌ {A = List Read × List QueuedMessage}
          (
            (check_for_lock_timeouts t queue).0 ++ (check_for_lock_timeouts t (entry ∷ [])).0,
            (check_for_lock_timeouts t queue).1 ++ (check_for_lock_timeouts t (entry ∷ [])).1,
          )
          (if is_due now t m
            then (
              (check_for_lock_timeouts t queue).0 ++ (m ∷ []),
              (check_for_lock_timeouts t queue).1,
            )
            else (
              (check_for_lock_timeouts t queue).0,
              (check_for_lock_timeouts t queue).1 ++ (entry ∷ []),
            ))
    last = elim (Bool-cases (timed_out t entry)) [
      | inl y ↦ rw (
        y,
        check_for_lock_timeouts,
        sym (timed_out-eq-is_due now t m) ∙ y,
        append-nil (check_for_lock_timeouts t queue).1,
      )
      | inr n ↦ rw (
        n,
        check_for_lock_timeouts,
        sym (timed_out-eq-is_due now t m) ∙ n,
        append-nil (check_for_lock_timeouts t queue).0,
      )
    ]
