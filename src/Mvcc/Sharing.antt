-- ===== src/Mvcc/Sharing.antt =====
-- While one client is in an MVCC transaction, whatever others do to the database.
use blobs_db.Base.{ℕ, ◌≤◌, ◌<◌, ◌^◌, ◌≡◌, refl, ◌∙◌, none, suc, is_some, true, arith}
use blobs_db.Mvcc.{Mvcc, begin_mvcc, end_mvcc, replace_snapshot}

-- The MVCC snapshot is there as long as it is counted.
pub record IsCounted {A : Type 0} (clients : ℕ) (m : Mvcc A) : Type 0 where
  pub counted : m.mvcc_use_count ≡ clients
  pub held : (clients ≡ 0 → m.mvcc_snapshot ≡ none) × (1 ≤ clients → is_some m.mvcc_snapshot ≡ true)

-- What the other clients do to the database, with the number of them that are in an MVCC
-- transaction.
pub data Others {A : Type 0} : ℕ → Mvcc A → ℕ → Mvcc A → Type 0 where
  begins : (n : ℕ) (m : Mvcc A) → suc (suc n) < 2 ^ 32 → Others n m (suc n) (begin_mvcc m)
  ends : (n : ℕ) (m : Mvcc A) → Others (suc n) m n (end_mvcc m)
  commits : (n : ℕ) (m : Mvcc A) (s : A) → Others n m n (replace_snapshot s m)
  nothing : (n : ℕ) (m : Mvcc A) → Others n m n m
  later : {n k j : ℕ} {m m' m'' : Mvcc A} → Others n m k m' → Others k m' j m'' → Others n m j m''

module _ {A : Type 0} where
  begin_mvcc-IsCounted :
      (n : ℕ) (m : Mvcc A) → suc n < 2 ^ 32 → IsCounted n m → IsCounted (suc n) (begin_mvcc m)
  unfolding begin_mvcc
  begin_mvcc-IsCounted n m small v = record {
    counted = ground (arith, v.counted);
    held = ((λ e. absurd (omega arith)), λ h. ground (arith, v.counted, v.held.1));
  }

  end_mvcc-IsCounted :
      (n : ℕ) (m : Mvcc A) → suc n < 2 ^ 32 → IsCounted (suc n) m → IsCounted n (end_mvcc m)
  unfolding end_mvcc
  end_mvcc-IsCounted n m small v = record {
    counted = ground (arith, v.counted);
    held = ((λ e. ground (arith, v.counted)), λ h. ground (arith, v.counted, v.held.1));
  }

  begin_mvcc-later :
      (n : ℕ) (m : Mvcc A) → IsCounted (suc n) m → (begin_mvcc m).mvcc_snapshot ≡ m.mvcc_snapshot
  unfolding begin_mvcc
  begin_mvcc-later n m v = ground (arith, v.counted)

  end_mvcc-not_last :
      (n : ℕ) (m : Mvcc A)
      → suc (suc n) < 2 ^ 32
      → IsCounted (suc (suc n)) m
      → (end_mvcc m).mvcc_snapshot ≡ m.mvcc_snapshot
  unfolding end_mvcc
  end_mvcc-not_last n m small v = ground (arith, v.counted)

  -- Whatever the other clients do, begin or end MVCC transactions or commit, the MVCC snapshot of
  -- a client that is in an MVCC transaction stays the same one, and stays there.
  pub mvcc_snapshot_stays :
      (n k : ℕ) (m m' : Mvcc A)
      → Others n m k m'
      → suc n < 2 ^ 32
      → IsCounted (suc n) m
      → (m'.mvcc_snapshot ≡ m.mvcc_snapshot) × (suc k < 2 ^ 32) × IsCounted (suc k) m'
  unfolding replace_snapshot
  mvcc_snapshot_stays _ _ _ _ (begins n m small') small v =
      (begin_mvcc-later n m v, small', begin_mvcc-IsCounted (suc n) m small' v)
  mvcc_snapshot_stays _ _ _ _ (ends n m) small v =
      (end_mvcc-not_last n m small v, omega arith, end_mvcc-IsCounted (suc n) m small v)
  mvcc_snapshot_stays _ _ _ _ (commits n m s) small v =
      (refl, small, record { counted = v.counted; held = v.held })
  mvcc_snapshot_stays _ _ _ _ (nothing n m) small v = (refl, small, v)
  mvcc_snapshot_stays n k m m'' (later {k = j} {m' = m'} p q) small v =
      let (same, small', v') = mvcc_snapshot_stays n j m m' p small v in
      let (same', small'', v'') = mvcc_snapshot_stays j k m' m'' q small' v' in
      (same' ∙ same, small'', v'')
