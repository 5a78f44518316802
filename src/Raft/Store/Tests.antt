-- ===== src/Raft/Store/Tests.antt =====
-- internal/raft/store.go: the theorems at work on a store with two entries, one of them committed.
use shard_zero.Prelude.{
  ℕ, ◌+◌, ◌<◌, ◌≡◌, ◌≢◌, ◌⊎◌, refl, true, none, List, [], ◌∷◌, arith, length, get_or, bytes,
  text_eq, done,
}
use shard_zero.StateMachine
use shard_zero.StateMachine.{restore}
use shard_zero.Raft.Types.{Entry, no_entry}
use shard_zero.Raft.Store.{
  Store, empty_snapshot, entry, validate, validate_record, validate_replacement, validate_entries,
  validate_checkpoint, transaction, accept, save, checkpoint, replay, fresh_store,
}
use shard_zero.Raft.Store.Journal.{Wal, stored, failed_after, replace_records}
use shard_zero.Raft.Store.Shape.{IsLog}
use shard_zero.Raft.Store.Durability.{save_outcome}
use shard_zero.Raft.Store.Recovery.{IsDurable, save_crash}

abbrev barrier : ℕ → ℕ → Entry
barrier index term = record { index = index; term = term; command = none }

abbrev two : List Entry
two = barrier 1 1 ∷ barrier 2 2 ∷ []

abbrev wal : Wal
wal = record {
  records =
      record {
        identity = bytes "id";
        term = 2;
        vote = bytes "a";
        commit = 1;
        from = 1;
        entries = two;
        checkpoint = none;
      }
      ∷ [];
  writes = 1;
  outcome = λ _. stored;
  compacts = true;
}

abbrev here : Store
here = record {
  wal = wal;
  identity = bytes "id";
  state = record { term = 2; vote = bytes "a"; commit = 1; base = 0; log = no_entry ∷ two };
  snapshot = empty_snapshot;
}

-- The same on a disk that reports errors for what it has stored.
abbrev failing : Store
failing = record here { wal = record wal { outcome = λ _. failed_after } }

here-IsLog : IsLog here.state
here-IsLog = record {
  nonempty = omega arith;
  sentinel = refl;
  chain = (
    refl,
    omega arith,
    omega arith,
    omega arith,
    refl,
    (refl, omega arith, omega arith, omega arith, refl, tt),
  );
  base_committed = omega arith;
  commit_in = omega arith;
}

failing-IsDurable : IsDurable failing
unfolding replay validate validate_record text_eq validate_replacement validate_entries accept
failing-IsDurable = record { replays = λ w. refl; started = refl }

abbrev next : List Entry
next = barrier 2 3 ∷ []

compacts : (checkpoint here empty_snapshot 1).1 ≡ none
unfolding checkpoint validate validate_checkpoint text_eq restore validate_entries replace_records
compacts = refl

empty_snapshot_restores : (restore StateMachine.new empty_snapshot).1 ≡ none
unfolding restore
empty_snapshot_restores = refl

passes : validate (bytes "id") here.state (transaction here 3 [] 1 2 next) ≡ none
unfolding validate validate_record text_eq validate_replacement validate_entries
passes = refl

save_outcome_example :
    (((save here 3 [] 1 2 next).1 ≡ none)
      × ((save here 3 [] 1 2 next).0.state.term ≡ 3)
      × ((save here 3 [] 1 2 next).0.state.vote ≡ [])
      × ((save here 3 [] 1 2 next).0.state.commit ≡ 1)
      × ((j : ℕ)
          → j < length next
          → entry (save here 3 [] 1 2 next).0 (2 + j) ≡ get_or next j no_entry))
    ⊎ (((save here 3 [] 1 2 next).1 ≢ none) × ((save here 3 [] 1 2 next).0.state ≡ here.state))
save_outcome_example = save_outcome here 3 [] 1 2 next here-IsLog

save_crash_example :
    ((replay (fresh_store (bytes "id") wal) (save failing 3 [] 1 2 next).0.wal.records
        ≡ done (record failing { wal = wal }))
      ⊎ (replay (fresh_store (bytes "id") wal) (save failing 3 [] 1 2 next).0.wal.records
          ≡ done (record (accept failing (transaction failing 3 [] 1 2 next)) { wal = wal })))
    × ((save failing 3 [] 1 2 next).1 ≡ none
        → replay (fresh_store (bytes "id") wal) (save failing 3 [] 1 2 next).0.wal.records
          ≡ done (record ((save failing 3 [] 1 2 next).0) { wal = wal }))
save_crash_example = save_crash failing 3 [] 1 2 next failing-IsDurable wal
