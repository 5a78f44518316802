-- ===== src/Raft/Steps/Tests.antt =====
-- internal/raft: the theorems at work on a follower of a cluster of three.
use shard_zero.Prelude.{ℕ, ◌<◌, ◌≡◌, ◌≢◌, ◌≤◌, refl, true, [], arith, bytes, text_eq}
use shard_zero.Prelude.Dict.{get}
use shard_zero.Raft.Store.{
  entry_at, save, validate, validate_record, validate_replacement, validate_entries,
}
use shard_zero.Raft.Store.Journal.{append_record}
use shard_zero.Raft.Node.{Node, step_down, persist}
use shard_zero.Raft.Node.Effects.{IsSound}
use shard_zero.Raft.Election.{request_vote}
use shard_zero.Raft.Election.Votes.{granted-request_vote, HasVote, IsUpToDate}
use shard_zero.Raft.Commit.{apply_locked, maybe_snapshot, apply_entries, apply_entry}
use shard_zero.Raft.Rpc.{append_entries}
use shard_zero.Raft.Steps.{Reaches, here, step, voted, appended}
use shard_zero.Raft.Steps.Safety.{
  reached-IsSound, reached_order, one_vote_a_term, committed_entries_stay, same_logs_same_machines,
}
use shard_zero.Raft.Samples.{state, member_a, member_a-IsSound, ask, replace}

abbrev after_vote : Node
after_vote = (request_vote member_a (ask (bytes "b"))).0

abbrev after_second : Node
after_second = (request_vote after_vote (ask (bytes "c"))).0

abbrev after_append : Node
after_append = (append_entries after_vote replace).0

granted : (request_vote member_a (ask (bytes "b"))).1.granted ≡ true
unfolding request_vote get text_eq step_down persist save validate validate_record
    validate_replacement append_record
granted = refl

given : after_vote.store.state.vote ≢ []
unfolding request_vote get text_eq step_down persist save validate validate_record
    validate_replacement append_record
given e = cc e

same_term : after_second.store.state.term ≡ after_vote.store.state.term
unfolding request_vote get text_eq step_down persist save validate validate_record
    validate_replacement append_record
same_term = refl

base_is_low : after_append.store.state.base ≤ 1
unfolding request_vote get text_eq step_down persist save validate validate_record
    validate_replacement append_record append_entries validate_entries apply_locked maybe_snapshot
    apply_entries apply_entry
base_is_low = omega arith

-- A vote, a second candidate that is refused, and a new leader.
run : Reaches member_a after_append
run = step (step (here member_a) (voted member_a (ask (bytes "b")))) (appended after_vote replace)

reached-IsSound_example : IsSound after_append
reached-IsSound_example = reached-IsSound member_a after_append run member_a-IsSound

committed_entries_stay_example : entry_at after_append.store.state 1 ≡ entry_at state 1
committed_entries_stay_example =
    committed_entries_stay member_a after_append run member_a-IsSound 1 base_is_low (omega arith)

reached_order_example :
    (2 ≤ after_append.store.state.term)
    × (1 ≤ after_append.store.state.commit)
    × (0 ≤ after_append.store.state.base)
    × (1 ≤ after_append.applied)
reached_order_example = reached_order member_a after_append run member_a-IsSound

after_vote-IsSound : IsSound after_vote
after_vote-IsSound =
    reached-IsSound member_a after_vote (step (here member_a) (voted member_a (ask (bytes "b"))))
      member_a-IsSound

one_vote_a_term_example : after_second.store.state.vote ≡ after_vote.store.state.vote
one_vote_a_term_example =
    one_vote_a_term after_vote after_second
      (step (here after_vote) (voted after_vote (ask (bytes "c")))) after_vote-IsSound given
      same_term

granted-request_vote_example :
    HasVote (ask (bytes "b")) (request_vote member_a (ask (bytes "b"))).0
    × IsUpToDate (ask (bytes "b")) member_a
granted-request_vote_example =
    granted-request_vote member_a (ask (bytes "b")) member_a-IsSound granted

-- The same new leader, without the vote before.
abbrev after_direct : Node
after_direct = (append_entries member_a replace).0

same_base : after_direct.store.state.base ≡ after_append.store.state.base
unfolding request_vote get text_eq step_down persist save validate validate_record
    validate_replacement append_record append_entries validate_entries apply_locked maybe_snapshot
    apply_entries apply_entry
same_base = refl

same_snapshot : after_direct.store.snapshot ≡ after_append.store.snapshot
unfolding request_vote get text_eq step_down persist save validate validate_record
    validate_replacement append_record append_entries validate_entries apply_locked maybe_snapshot
    apply_entries apply_entry
same_snapshot = refl

same_applied : after_direct.applied ≡ after_append.applied
unfolding request_vote get text_eq step_down persist save validate validate_record
    validate_replacement append_record append_entries validate_entries apply_locked maybe_snapshot
    apply_entries apply_entry
same_applied = refl

same_log :
    (i : ℕ)
    → after_append.store.state.base < i
    → i ≤ after_append.applied
    → entry_at after_direct.store.state i ≡ entry_at after_append.store.state i
unfolding request_vote get text_eq step_down persist save validate validate_record
    validate_replacement append_record append_entries validate_entries apply_locked maybe_snapshot
    apply_entries apply_entry
same_log i lo hi = refl

same_logs_same_machines_example : after_direct.machine ≡ after_append.machine
same_logs_same_machines_example =
    same_logs_same_machines member_a member_a after_append after_direct run
      (step (here member_a) (appended member_a replace)) member_a-IsSound member_a-IsSound same_base
      same_snapshot same_applied same_log
