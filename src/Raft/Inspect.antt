-- ===== src/Raft/Inspect.antt =====
-- internal/raft/runtime.go: Audit and Inspect. The hash of an entry and that of the machine
-- (`EntryHash` and `Digest`, SHA-256 of JSON) are parameters.
pub mod Window
mod Tests
use shard_zero.Prelude.{
  ℕ, zero, suc, ◌+◌, ◌-◌, min, max, Bool, true, false, Option, none, some, List, [], ◌∷◌, Text,
  bytes, ltb, leb, if◌then◌else◌,
}
use shard_zero.Events
use shard_zero.Events.{Event}
use shard_zero.StateMachine.{Command, Machine}
use shard_zero.Raft.Types.{Entry}
use shard_zero.Raft.Node.{Node, last_locked, entry_locked}
use shard_zero.Raft.Client.{Status, status}

pub record Audit : Type 0 where
  pub status : Status
  pub vote : Text
  pub log : List Entry
  pub state_hash : Text

pub record LogMeta : Type 0 where
  pub index : ℕ
  pub term : ℕ
  pub operation : Text
  pub key : Text
  pub hash : Text
  pub committed : Bool
  pub applied : Bool

pub record Inspection : Type 0 where
  pub status : Status
  pub boot_id : Text
  pub state_hash : Text
  pub log : List LogMeta
  pub events : List Event

unfoldable pub operation_name : Option Command → Text
operation_name none = bytes "BARRIER"
operation_name (some c) = c.operation

unfoldable pub key_name : Option Command → Text
key_name none = []
key_name (some c) = c.key

-- The first of at most 100 last indexes.
unfoldable pub first_shown : Node → ℕ
first_shown n = max 1 (last_locked n + 1 - min (last_locked n) 100)

module _ (entry_hash : Entry → Text) (digest : Machine → Text) where
  unfoldable pub audit : Node → Audit
  audit n = record {
    status = status n;
    vote = n.store.state.vote;
    log = n.store.state.log;
    state_hash = digest n.machine;
  }

  unfoldable pub log_meta : Node → ℕ → LogMeta
  unfolding operation_name key_name
  log_meta n index =
      let e = entry_locked n index in
      record {
        index = index;
        term = e.term;
        operation = operation_name e.command;
        key = key_name e.command;
        hash = entry_hash e;
        committed = leb index n.store.state.commit;
        applied = leb index n.applied;
      }

  -- The loop over the indexes from `index` on; `none` where a read below the base ends the process.
  unfoldable pub log_metas : Node → ℕ → ℕ → Option (List LogMeta)
  log_metas n index zero = some []
  log_metas n index (suc count) =
      let rest = log_metas n (index + 1) count in
      if ltb index n.store.state.base
      then none
      else elim rest [ none ↦ none | some metas ↦ some (log_meta n index ∷ metas) ]

  unfoldable pub inspect : Node → ℕ → Option Inspection
  inspect n after =
      let first = first_shown n in
      elim (log_metas n first (last_locked n + 1 - first)) [
        | none ↦ none
        | some metas ↦ some (record {
          status = status n;
          boot_id = n.boot_id;
          state_hash = digest n.machine;
          log = metas;
          events = Events.after n.events after;
        })
      ]
