-- ===== src/Raft/Open/Tests.antt =====
-- internal/raft/node.go, OpenWithRuntime: the theorem at work on a cluster of two.
use shard_zero.Prelude.{◌≡◌, refl, true, none, [], ◌∷◌, bytes, text_eq, Attempt, done, failed}
use shard_zero.Prelude.Dict.{get, put, read}
use shard_zero.Raft.Types.{Config}
use shard_zero.Raft.Store.{
  open_store, replay, validate, validate_record, validate_replacement, validate_entries, accept,
}
use shard_zero.Raft.Commit.{apply_locked, maybe_snapshot, apply_entries, apply_entry}
use shard_zero.Raft.Store.Journal.{Wal, stored}
use shard_zero.Raft.Node.{Node, Runtime}
use shard_zero.Raft.Node.Effects.{IsSound}
use shard_zero.Raft.Samples.{config, member_a}
use shard_zero.Raft.Open.{OpenError, open_node, add_addresses}
use shard_zero.Raft.Open.Soundness.{open_node-IsSound}

abbrev two_members : Config
two_members = record config {
  peers =
      record { id = bytes "a"; peer_url = bytes "a1"; client_url = bytes "a2" }
      ∷ record { id = bytes "b"; peer_url = bytes "b1"; client_url = bytes "b2" }
      ∷ [];
}

abbrev runtime : Runtime
runtime = record { manual = true; now = 0; random = λ _ _. 3 }

-- A journal with one entry that is committed.
abbrev wal : Wal
wal = record {
  records =
      record {
        identity = bytes "id";
        term = 1;
        vote = [];
        commit = 1;
        from = 1;
        entries = record { index = 1; term = 1; command = none } ∷ [];
        checkpoint = none;
      }
      ∷ [];
  writes = 1;
  outcome = λ _. stored;
  compacts = true;
}

abbrev attempt : Attempt Node OpenError
attempt = open_node (λ _. true) (λ _ _ _ _. bytes "id") two_members true runtime wal

abbrev opened_node : Attempt Node OpenError → Node
opened_node (done n) = n
opened_node (failed e) = member_a

opens : attempt ≡ done (opened_node attempt)
unfolding open_node text_eq get add_addresses read put open_store replay validate validate_record
    validate_replacement validate_entries accept apply_locked maybe_snapshot apply_entries
    apply_entry
opens = refl

open_node-IsSound_example : IsSound (opened_node attempt)
open_node-IsSound_example =
    open_node-IsSound (λ _. true) (λ _ _ _ _. bytes "id") two_members true runtime wal
      (opened_node attempt) opens
