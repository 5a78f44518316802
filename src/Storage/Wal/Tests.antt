-- ===== src/Storage/Wal/Tests.antt =====
-- internal/storage/wal.go: the theorems at work, on a journal of one record.
use shard_zero.Prelude.{
  ℕ, ◌≡◌, ◌≢◌, ◌⊎◌, refl, true, false, none, List, [], ◌∷◌, ◌++◌, Text, bytes, text_eq, Attempt,
  done, arith, All,
}
use shard_zero.Prelude.Dict.{text_key, get, put, read}
use shard_zero.Storage.Disk.{Disk, succeeds, fails, content, create, lock_file, truncate, write}
use shard_zero.Storage.Frames.{frame, frames, checksum, uint32, put_uint32}
use shard_zero.Storage.Frames.Encoding.{IsByte}
use shard_zero.Storage.Wal.{
  Wal, append, replace, open_journal, open_locked, load, check_other, scan, read_record,
  read_payload, replay_record, write_record, lock_name, stuck,
}
use shard_zero.Storage.Wal.Records.{nothing, first}
use shard_zero.Storage.Wal.Opening.{Restores, open_journal-Restores}
use shard_zero.Storage.Wal.Reopening.{IsFree, Opens}
use shard_zero.Storage.Wal.Appending.{reopen_after_append}
use shard_zero.Storage.Wal.Compacting.{Swapped, replace-Swapped}
use shard_zero.Storage.Wal.Locking.{Takes, open_journal-Takes}
use shard_zero.Storage.Wal.Ending.{scan_ends}

-- The callback collects the payloads, and refuses none.
abbrev collect : List Text → Text → Attempt (List Text) ℕ
collect seen p = done (seen ++ (p ∷ []))

abbrev name : Text
name = bytes "raft.wal"

abbrev journal : Wal
journal = record { name = name; is_open = true; broken = false; is_file = true }

-- A disk with the record "ab"; a write fails after nine bytes.
abbrev disk : Disk
disk = record {
  files = (name, frame (bytes "ab")) ∷ [];
  locks = [];
  calls = 0;
  outcome = λ _. fails 9;
}

-- The disk after a crash in the middle of a second record.
abbrev crashed : Disk
crashed = record ((append {E = ℕ} journal (bytes "cde") disk).0) { outcome = λ _. succeeds }

one_record : content disk name ≡ frames (bytes "ab" ∷ [])
unfolding read get text_eq frames frame checksum put_uint32
one_record = refl

crashed-IsFree : IsFree name crashed
unfolding append write_record write text_eq get put frame checksum put_uint32
crashed-IsFree = record { calm = λ k. refl; directory = refl; journal = refl; alone = refl }

reopen_after_append_example :
    (Opens name (bytes "ab" ∷ []) (bytes "ab" ∷ []) (open_journal collect name [] crashed)
      ⊎ Opens name
          (bytes "ab" ∷ bytes "cde" ∷ [])
          (bytes "ab" ∷ bytes "cde" ∷ [])
          (open_journal collect name [] crashed))
    × ((append {E = ℕ} journal (bytes "cde") disk).2 ≡ none
        → Opens name
            (bytes "ab" ∷ bytes "cde" ∷ [])
            (bytes "ab" ∷ bytes "cde" ∷ [])
            (open_journal collect name [] crashed))
unfolding text_eq
reopen_after_append_example =
    reopen_after_append collect journal (bytes "cde") disk crashed [] (bytes "ab" ∷ [])
      (bytes "ab" ∷ bytes "cde" ∷ []) (bytes "ab" ∷ []) refl one_record
      (first (bytes "ab") refl refl (nothing _)) refl refl crashed-IsFree refl

reopened : (open_journal collect name [] crashed).1 ≡ done (journal, bytes "ab" ∷ [])
unfolding open_journal open_locked load check_other scan read_record read_payload replay_record
    create lock_file truncate append write_record write text_eq get put read frame checksum
    put_uint32 uint32
reopened = refl

crashed_bytes : All IsByte (content crashed name)
unfolding append write_record write text_eq get put read frame checksum put_uint32
crashed_bytes = omega arith

returned :
    open_journal collect name [] crashed
    ≡ ((open_journal collect name [] crashed).0, done (journal, bytes "ab" ∷ []))
unfolding open_journal open_locked load check_other scan read_record read_payload replay_record
    create lock_file truncate append write_record write text_eq get put read frame checksum
    put_uint32 uint32
returned = refl

open_journal-Restores_example :
    Restores collect name []
      (bytes "ab" ∷ [])
      (content crashed name)
      (content (open_journal collect name [] crashed).0 name)
open_journal-Restores_example =
    open_journal-Restores collect name [] (bytes "ab" ∷ []) crashed
      (open_journal collect name [] crashed).0 journal crashed_bytes returned

replace-Swapped_example :
    Swapped ℕ name disk (bytes "cde" ∷ []) (replace {E = ℕ} journal (bytes "cde" ∷ []) disk)
replace-Swapped_example = replace-Swapped ℕ journal (bytes "cde" ∷ []) disk

open_journal-Takes_example : Takes (name ∷ lock_name ∷ []) [] (open_journal collect name [] crashed)
unfolding append write_record write
open_journal-Takes_example = open_journal-Takes collect name [] crashed

scan_ends_example : (scan collect 4 disk [] 0 (bytes "abc")).1 ≢ stuck
scan_ends_example = scan_ends collect 4 disk [] 0 (bytes "abc") (omega arith)
