-- ===== src/Raft/Inspect/Tests.antt =====
-- internal/raft/runtime.go, Inspect: the theorems at work, with short texts for the hashes.
use shard_zero.Prelude.{◌<◌, ◌≤◌, ◌≡◌, ◌⊎◌, none, some, [], ◌∷◌, Text}
use shard_zero.StateMachine.{Machine}
use shard_zero.Raft.Types.{Entry}
use shard_zero.Raft.Node.{Node, last_locked}
use shard_zero.Raft.Samples.{state, leader_a}
use shard_zero.Raft.Inspect.{Inspection, inspect}
use shard_zero.Raft.Inspect.Window.{Shows, inspect_window}

abbrev entry_hash : Entry → Text
entry_hash e = e.index ∷ e.term ∷ []

abbrev digest : Machine → Text
digest m = m.count ∷ []

-- A leader that has compacted to 5.
abbrev compacted : Node
compacted = record leader_a {
  store = record (leader_a.store) {
    state = record state {
      base = 5;
      commit = 5;
      log = record { index = 5; term = 1; command = none } ∷ [];
    };
  };
}

inspect_window_example :
    ((1 < 5) × (last_locked compacted < 104) × (inspect entry_hash digest compacted 0 ≡ none))
    ⊎ (((5 ≤ 1) ⊎ (104 ≤ last_locked compacted))
        × (shown : Inspection) × (inspect entry_hash digest compacted 0 ≡ some shown)
        × Shows entry_hash digest compacted shown.log)
inspect_window_example = inspect_window entry_hash digest compacted 0
