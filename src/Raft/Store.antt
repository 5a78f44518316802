-- ===== src/Raft/Store.antt =====
-- internal/raft/store.go. A `*diskStore` method returns the new store beside its error. The JSON
-- text of a journal record is not modelled: a payload is the record that it encodes.
pub mod Journal
mod Validation
pub mod Shape
pub mod Accept
pub mod Durability
pub mod Recovery
pub mod Recalling
pub mod Reopening
pub mod Compaction
mod Tests
pub use Validation.{
  Durable, Error, bad_checkpoint_record, bad_checkpoint_state, bad_checkpoint_log,
  checkpoint_commit, wrong_identity, regressed, vote_changed, bad_replacement, bad_entry,
  stray_entries, commit_exceeds_log, bad_checkpoint_index, no_compaction, journal_failed,
  bad_command, bad_machine, empty_state, empty_snapshot, entry_at, last_index, is_empty,
  first_entry, command_error,
}
unfoldable pub use Validation.{
  validate_entries, validate_checkpoint, validate_replacement, validate_record, validate,
}
use shard_zero.Prelude.{
  Attempt, done, failed, ℕ, ◌+◌, ◌-◌, Bool, true, false, ◌||◌, not, Option, none, some, List, [],
  ◌∷◌, ◌++◌, Text, take, drop, ltb, leb, ◌==◌, if◌then◌else◌,
}
use shard_zero.StateMachine.{Snapshot}
use shard_zero.Raft.Types.{Entry, Checkpoint, Transaction}
use Journal.{Wal, append_record, replace_records}

-- `diskStore`
pub record Store : Type 0 where
  pub wal : Wal
  pub identity : Text
  pub state : Durable
  pub snapshot : Snapshot

unfoldable pub entry : Store → ℕ → Entry
entry s index = entry_at s.state index

unfoldable pub last : Store → ℕ
last s = last_index s.state

-- `accept`; the copies that `cloneEntries` makes are equal to what they copy.
unfoldable pub accept_checkpoint : Store → Checkpoint → Store
accept_checkpoint s c = record s {
  state = record {
    term = c.raft_term;
    vote = c.vote;
    commit = c.commit;
    base = c.index;
    log = c.log;
  };
  snapshot = c.machine;
}

unfoldable pub accept_record : Durable → Transaction → Durable
accept_record s r = record s {
  term = r.term;
  vote = r.vote;
  commit = r.commit;
  log = if r.from == 0 then s.log else take (r.from - s.base) s.log ++ r.entries;
}

unfoldable pub accept : Store → Transaction → Store
unfolding accept_checkpoint accept_record
accept s r = elim r.checkpoint [
  | some c ↦ accept_checkpoint s c
  | none ↦ record s { state = accept_record s.state r }
]

-- The record that `save` writes.
abbrev pub transaction : Store → ℕ → Text → ℕ → ℕ → List Entry → Transaction
transaction s term vote commit from entries = record {
  identity = s.identity;
  term = term;
  vote = vote;
  commit = commit;
  from = from;
  entries = entries;
  checkpoint = none;
}

-- the part of `save` after its validation
pub write_transaction : Store → Transaction → Store × Option Error
unfolding accept
write_transaction s r =
    let (wal, written) = append_record s.wal r in
    if written
    then (accept (record s { wal = wal }) r, none)
    else (record s { wal = wal }, some journal_failed)

unfoldable pub save : Store → ℕ → Text → ℕ → ℕ → List Entry → Store × Option Error
unfolding write_transaction
save s term vote commit from entries =
    let r = transaction s term vote commit from entries in
    elim (validate s.identity s.state r) [ some e ↦ (s, some e) | none ↦ write_transaction s r ]

-- The record that `checkpoint` writes.
abbrev pub checkpoint_record : Store → Snapshot → ℕ → Transaction
checkpoint_record s machine index = record {
  identity = s.identity;
  term = 0;
  vote = [];
  commit = 0;
  from = 0;
  entries = [];
  checkpoint = some (record {
    index = index;
    term = (entry_at s.state index).term;
    machine = machine;
    raft_term = s.state.term;
    vote = s.state.vote;
    commit = s.state.commit;
    log = drop (index - s.state.base) s.state.log;
  });
}

-- the part of `checkpoint` after its validation
pub write_checkpoint : Store → Transaction → Store × Option Error
unfolding accept
write_checkpoint s r =
    if not s.wal.compacts
    then (s, some no_compaction)
    else (let (wal, written) = replace_records s.wal (r ∷ []) in
        if written
        then (accept (record s { wal = wal }) r, none)
        else (record s { wal = wal }, some journal_failed))

unfoldable pub checkpoint : Store → Snapshot → ℕ → Store × Option Error
unfolding write_checkpoint
checkpoint s machine index =
    if leb index s.state.base || ltb s.state.commit index || ltb (last_index s.state) index
    then (s, some bad_checkpoint_index)
    else (let r = checkpoint_record s machine index in
        elim (validate s.identity s.state r) [ some e ↦ (s, some e) | none ↦ write_checkpoint s r ])

-- the callback of `openStoreUsing`, on every record of the journal
unfoldable pub replay : Store → List Transaction → Attempt Store Error
replay s [] = done s
replay s (r ∷ rs) =
    let rest = replay (accept s r) rs in
    elim (validate s.identity s.state r) [ some e ↦ failed e | none ↦ rest ]

abbrev pub fresh_store : Text → Wal → Store
fresh_store identity wal = record {
  wal = wal;
  identity = identity;
  state = empty_state;
  snapshot = empty_snapshot;
}

abbrev first_save : Store × Option Error → Attempt Store Error
first_save (s, none) = done s
first_save (s, some e) = failed e

-- `openStoreUsing`: an empty journal gets its first record
unfoldable pub open_store : Text → Wal → Attempt Store Error
open_store identity wal = elim (replay (fresh_store identity wal) wal.records) [
  | failed e ↦ failed e
  | done s ↦ if is_empty wal.records then first_save (save s 0 [] 0 0 []) else done s
]
