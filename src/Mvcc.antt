-- ===== src/Mvcc.antt =====
-- The counted MVCC snapshot of a database (ServerLib/Database.cpp, `BeginMVCC`, `EndMVCC` and the end
-- of `CommitResult::ApplyToDatabase`). `mvccUseCount` is an `int`: the number modulo 2^32. The
-- snapshots are of any type.
pub mod Sharing
use blobs_db.Base.{ℕ, ◌+◌, ◌-◌, ◌%◌, ◌^◌, Option, none, some, ◌==◌, if◌then◌else◌}

pub record Mvcc (A : Type 0) : Type 0 where
  pub snapshot : A
  pub mvcc_snapshot : Option A
  pub mvcc_use_count : ℕ

module _ {A : Type 0} where
  unfoldable pub begin_mvcc : Mvcc A → Mvcc A
  begin_mvcc m = record m {
    mvcc_snapshot = if m.mvcc_use_count == 0 then some m.snapshot else m.mvcc_snapshot;
    mvcc_use_count = (m.mvcc_use_count + 1) % 2 ^ 32;
  }

  unfoldable pub end_mvcc : Mvcc A → Mvcc A
  end_mvcc m =
      let count = (m.mvcc_use_count + 2 ^ 32 - 1) % 2 ^ 32 in
      record m {
        mvcc_snapshot = if count == 0 then none else m.mvcc_snapshot;
        mvcc_use_count = count;
      }

  -- The new snapshot of a commit takes the place of the current one.
  unfoldable pub replace_snapshot : A → Mvcc A → Mvcc A
  replace_snapshot s m = record m { snapshot = s }
