-- ===== src/Raft/Tests.antt =====
-- internal/raft: theorems on single handlers at work.
use shard_zero.Prelude.{◌+◌, ◌<◌, ◌≡◌, refl, true, some, arith, bytes, text_eq}
use shard_zero.Prelude.Dict.{get, read}
use shard_zero.Raft.Types.{AppendRequest}
use shard_zero.Raft.Store.{save, validate, validate_record, validate_replacement, validate_entries}
use shard_zero.Raft.Store.Journal.{append_record}
use shard_zero.Raft.Node.{step_down, persist}
use shard_zero.Raft.Replication.{first_to_send, prepare_request}
use shard_zero.Raft.Replication.Batches.{Sends, prepare_request-Sends}
use shard_zero.Raft.Commit.{advance_commit}
use shard_zero.Raft.Commit.Quorum.{Advances, advance_commit-Advances}
use shard_zero.Raft.Rpc.{append_entries, conflict_from}
use shard_zero.Raft.Rpc.Matching.{Agrees, success-append_entries}
use shard_zero.Raft.Rpc.Conflicts.{BeginsRun, conflict_from-BeginsRun}
use shard_zero.Raft.Samples.{
  peer, state, state-IsLog, member_a, member_a-IsSound, leader_a, leader_a-IsSound, replace,
}

advance_commit-Advances_example : Advances leader_a (advance_commit leader_a)
advance_commit-Advances_example = advance_commit-Advances leader_a leader_a-IsSound

accepted : (append_entries member_a replace).1.success ≡ true
unfolding append_entries get text_eq step_down persist save validate validate_record
    validate_replacement append_record validate_entries
accepted = refl

success-append_entries_example :
    Agrees (append_entries member_a replace).0.store.state replace
    × ((append_entries member_a replace).0.store.state.term ≡ 4)
success-append_entries_example = success-append_entries member_a replace member_a-IsSound accepted

conflict_from-BeginsRun_example : BeginsRun state 1 (0 + 2) (conflict_from state 1 2)
conflict_from-BeginsRun_example = conflict_from-BeginsRun state 1 2

above_base : 0 < first_to_send leader_a (peer (bytes "c"))
unfolding first_to_send read text_eq
above_base = omega arith

prepare_request-Sends_example :
    (req : AppendRequest) × (prepare_request leader_a (peer (bytes "c")) ≡ some req)
    × Sends leader_a (first_to_send leader_a (peer (bytes "c"))) req
prepare_request-Sends_example =
    prepare_request-Sends leader_a (peer (bytes "c")) state-IsLog above_base
