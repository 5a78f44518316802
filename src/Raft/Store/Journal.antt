-- ===== src/Raft/Store/Journal.antt =====
-- internal/raft/store.go, the interface `journal`: a log of records on a disk that may fail. `Append`
-- stores a record, or fails with or without having stored it; `outcome` says what the n-th write
-- does, so a theorem over every `outcome` covers every disk. internal/simulation/simulation.go
-- (memoryDisk) and internal/storage/wal.go (WAL) are the implementations; only the WAL can compact.
use shard_zero.Prelude.{◌⊎◌, ℕ, ◌+◌, ◌≡◌, arith, Bool, true, false, List, [], ◌∷◌, ◌++◌}
use shard_zero.Raft.Types.{Transaction}

pub data Outcome : Type 0 where
  stored : Outcome
  failed_before : Outcome
  failed_after : Outcome

pub record Wal : Type 0 where
  pub records : List Transaction
  pub writes : ℕ
  pub outcome : ℕ → Outcome
  pub compacts : Bool

write_records : Wal → List Transaction → Outcome → Wal × Bool
write_records w rs stored = (record w { records = rs; writes = w.writes + 1 }, true)
write_records w rs failed_before = (record w { writes = w.writes + 1 }, false)
write_records w rs failed_after = (record w { records = rs; writes = w.writes + 1 }, false)

-- `Append`: the journal, and whether it returned no error
unfoldable pub append_record : Wal → Transaction → Wal × Bool
unfolding write_records
append_record w r = write_records w (w.records ++ (r ∷ [])) (w.outcome w.writes)

-- `Replace`
unfoldable pub replace_records : Wal → List Transaction → Wal × Bool
unfolding write_records
replace_records w rs = write_records w rs (w.outcome w.writes)

-- A write that reports no error has stored what it was given.
pub records-append_record :
    (w : Wal) (r : Transaction)
    → (append_record w r).1 ≡ true
    → (append_record w r).0.records ≡ w.records ++ (r ∷ [])
unfolding append_record
records-append_record w r h = ground arith

pub records-replace_records :
    (w : Wal) (rs : List Transaction)
    → (replace_records w rs).1 ≡ true
    → (replace_records w rs).0.records ≡ rs
unfolding replace_records
records-replace_records w rs h = ground arith

pub records-replace_records_failed :
    (w : Wal) (rs : List Transaction)
    → (replace_records w rs).1 ≡ false
    → ((replace_records w rs).0.records ≡ w.records) ⊎ ((replace_records w rs).0.records ≡ rs)
unfolding replace_records
records-replace_records_failed w rs h = ground arith

-- A write that reports an error has stored nothing, or all that it was given.
pub records-append_record_failed :
    (w : Wal) (r : Transaction)
    → (append_record w r).1 ≡ false
    → ((append_record w r).0.records ≡ w.records)
      ⊎ ((append_record w r).0.records ≡ w.records ++ (r ∷ []))
unfolding append_record
records-append_record_failed w r h = ground arith
