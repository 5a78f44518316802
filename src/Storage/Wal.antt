-- ===== src/Storage/Wal.antt =====
-- internal/storage/wal.go: OpenJournal, Append, Replace and Close. A journal is a file of one
-- directory, which `Wal` holds with two locks.
pub mod Records
pub mod Scanning
pub mod Reading
pub mod Opening
pub mod Reopening
pub mod Appending
pub mod Compacting
pub mod Locking
pub mod Ending
mod Tests
use shard_zero.Prelude.{
  ℕ, zero, suc, ◌+◌, Bool, true, false, ◌&&◌, ◌||◌, not, Option, none, some, List, [], ◌∷◌, ◌++◌,
  Text, bytes, text_eq, length, take, drop, ltb, ◌==◌, if◌then◌else◌, is_none, Attempt, done,
  failed,
}
use shard_zero.Prelude.Dict.{text_key, get}
use shard_zero.Storage.Disk.{
  Disk, WalError, unknown_journal, in_use, incompatible, io_error, invalid_length,
  checksum_mismatch, replay_failed, invalid_size, short_write, unavailable, no_replacement, Io,
  pure, fail, ◌>>=◌, ◌>>◌, on_failure, continue, cleaned, next_call, refused, call, content, create,
  create_empty, lock_file, release, truncate, remove_file, rename, write,
}
use shard_zero.Storage.Frames.{max_record_bytes, checksum, uint32, frame}

-- `name` stands for the path, `is_open` says that the file is not closed, `broken` is the field
-- `failed`, and `is_file` says that the file is an `*os.File`.
pub record Wal : Type 0 where
  pub name : Text
  pub is_open : Bool
  pub broken : Bool
  pub is_file : Bool

abbrev pub lock_name : Text
lock_name = bytes "directory.lock"

abbrev pub other_name : Text → Text
other_name name = if text_eq name (bytes "raft.wal") then bytes "commands.wal" else bytes "raft.wal"

abbrev pub bad_size : ℕ → Bool
bad_size n = n == 0 || ltb max_record_bytes n

-- how the loop of OpenJournal ends: at the end of the file, at an incomplete record, or with an error
pub data Scan (S E : Type 0) : Type 0 where
  ended : S → ℕ → Scan S E
  torn : S → ℕ → Scan S E
  stopped : WalError E → Scan S E
  stuck : Scan S E

-- one round of the loop: it ends, or goes on with the rest of the file
pub data Round (S E : Type 0) : Type 0 where
  over : Scan S E → Round S E
  more : S → ℕ → Text → Round S E

abbrev bad_name : Text → Bool
bad_name name = not (text_eq name (bytes "commands.wal")) && not (text_eq name (bytes "raft.wal"))

module _ {S E : Type 0} (replay : S → Text → Attempt S E) where
  -- the callback on a payload whose checksum is right
  unfoldable pub replay_record : S → ℕ → ℕ → Text → Text → Round S E
  replay_record s offset size payload rest = elim (replay s payload) [
    | done t ↦ more t (offset + (8 + size)) rest
    | failed e ↦ over (stopped (replay_failed offset e))
  ]

  -- a record whose header is read: `rest` is what follows the header
  unfoldable pub read_payload : Disk → S → ℕ → Text → Text → Disk × Round S E
  unfolding replay_record
  read_payload d s offset header rest =
      let size = uint32 header in
      let payload = take size rest in
      if bad_size size
      then (d, over (stopped (invalid_length offset)))
      else if ltb (length rest) size
      then (next_call d, over (if refused d then stopped io_error else torn s offset))
      else if refused d
      then (next_call d, over (stopped io_error))
      else if not (checksum payload == uint32 (drop 4 header))
      then (next_call d, over (stopped (checksum_mismatch offset)))
      else (next_call d, replay_record s offset size payload (drop size rest))

  -- one round
  unfoldable pub read_record : Disk → S → ℕ → Text → Disk × Round S E
  unfolding read_payload
  read_record d s offset rest =
      if refused d
      then (next_call d, over (stopped io_error))
      else if length rest == 0
      then (next_call d, over (ended s offset))
      else if ltb (length rest) 8
      then (next_call d, over (torn s offset))
      else read_payload (next_call d) s offset (take 8 rest) (drop 8 rest)

  -- the loop of OpenJournal; each round takes a byte at least
  unfoldable pub scan : ℕ → Disk → S → ℕ → Text → Disk × Scan S E
  scan zero d s offset rest = (d, stuck)
  scan (suc fuel) d s offset rest =
      let (d, round) = read_record d s offset rest in
      elim round [ over r ↦ (d, r) | more s offset rest ↦ scan fuel d s offset rest ]

  opened : Text → S → Wal × S
  opened name s = (record { name = name; is_open = true; broken = false; is_file = true }, s)

  -- the end of OpenJournal: Seek, Sync, and syncDirectory
  abbrev finish_open : Text → S → Io E (Wal × S)
  finish_open name s = do call; call; call; call; pure (opened name s)

  -- `truncateTail`
  abbrev truncate_tail : Text → ℕ → Io E (Unit {0})
  truncate_tail name offset = do truncate name offset; call

  after_scan : Text → Scan S E → Io E (Wal × S)
  unfolding opened
  after_scan name (ended s offset) = finish_open name s
  after_scan name (torn s offset) = do truncate_tail name offset; finish_open name s
  after_scan name (stopped e) = fail e
  after_scan name stuck = fail io_error

  -- OpenJournal once both locks are held
  unfoldable pub load : Text → S → Io E (Wal × S)
  unfolding after_scan
  load name s d =
      let (d, r) = scan (length (content d name) + 1) d s 0 (content d name) in after_scan name r d

  -- `os.Stat` of the other mode's journal
  unfoldable pub check_other : Text → Io E (Unit {0})
  check_other name d =
      if refused d || not (is_none (get d.files (other_name name)))
      then (next_call d, failed incompatible)
      else (next_call d, done tt)

  -- OpenJournal once the directory is locked
  unfoldable pub open_locked : Text → S → Io E (Wal × S)
  open_locked name s = do
    check_other name
    create name
    lock_file name
    on_failure (release name) (load name s)

  unfoldable pub open_journal : Text → S → Io E (Wal × S)
  open_journal name s = if bad_name name then fail unknown_journal else (do
    call
    create lock_name
    lock_file lock_name
    on_failure (release lock_name) (open_locked name s))

-- `Write` of a record: its error, or a short write
unfoldable pub write_record : {E : Type 0} → Text → Text → Io E (Unit {0})
write_record name payload d =
    let (d, n, error) = write name (frame payload) d in
    if error
    then (d, failed io_error)
    else if not (n == length (frame payload))
    then (d, failed short_write)
    else (d, done tt)

-- `Append` of a record of a good size: a failed write leaves the journal unusable
appended :
    {E : Type 0} → Wal → Disk × Attempt (Unit {0}) (WalError E) → Disk × Wal × Option (WalError E)
appended w (d, done _) = (d, w, none)
appended w (d, failed _) = (d, record w { broken = true }, some unavailable)

unfoldable pub append : {E : Type 0} → Wal → Text → Disk → Disk × Wal × Option (WalError E)
unfolding appended
append w payload d =
    if w.broken
    then (d, w, some unavailable)
    else if bad_size (length payload)
    then (d, w, some invalid_size)
    else if not w.is_open
    then appended w (next_call d, failed io_error)
    else appended w ((do write_record w.name payload; call) d)

abbrev pub compact_name : Text → Text
compact_name name = name ++ bytes ".compact"

-- the loop of `Replace`
unfoldable pub write_all : {E : Type 0} → Text → List Text → Io E (Unit {0})
write_all name [] = pure tt
write_all name (p ∷ ps) =
    let rest = write_all name ps in
    if bad_size (length p) then fail invalid_size else (do write_record name p; rest)

-- `Replace` up to the closing of the new file
unfoldable pub write_compacted : {E : Type 0} → Text → List Text → Io E (Unit {0})
write_compacted tmp ps = do
  create_empty tmp
  on_failure (remove_file tmp) (do write_all tmp ps; call; call)

-- `Replace` from the renaming on: Rename, syncDirectory, OpenFile, lockFile
unfoldable pub install : {E : Type 0} → Text → Io E (Unit {0})
install name = do rename (compact_name name) name; call; call; call; lock_file name

installed :
    {E : Type 0} → Wal → Disk × Attempt (Unit {0}) (WalError E) → Disk × Wal × Option (WalError E)
installed w (d, done _) = (d, record w { is_open = true }, none)
installed w (d, failed e) = (d, w, some e)

-- `Replace` once the new file is complete: the old one is closed first
unfoldable pub swap_files : {E : Type 0} → Wal → Disk → Disk × Wal × Option (WalError E)
unfolding installed
swap_files w d =
    let closed = record w { is_open = false } in
    if refused d || not w.is_open
    then (remove_file (compact_name w.name) (release w.name d), closed, some io_error)
    else installed closed (install w.name (release w.name d))

compacted :
    {E : Type 0} → Wal → Disk × Attempt (Unit {0}) (WalError E) → Disk × Wal × Option (WalError E)
compacted w (d, done _) = swap_files w d
compacted w (d, failed e) = (d, w, some e)

unfoldable pub replace : {E : Type 0} → Wal → List Text → Disk → Disk × Wal × Option (WalError E)
unfolding compacted
replace w ps d =
    if w.broken
    then (d, w, some unavailable)
    else if not w.is_file
    then (d, w, some no_replacement)
    else compacted w (write_compacted (compact_name w.name) ps d)

-- `Close`: the journal's file, then the directory's lock
unfoldable pub close : Wal → Disk → Disk × Wal
close w d = (release lock_name (release w.name d), record w { is_open = false })
