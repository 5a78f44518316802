-- ===== src/Raft/Steps/Tickets.antt =====
-- internal/raft: a proposal to the only member of a cluster, from the call to its outcome.
use shard_zero.Prelude.{◌≡◌, refl, true, none, some, done, bytes, text_eq, valid_utf8}
use shard_zero.Prelude.Dict.{get, put, remove}
use shard_zero.StateMachine
use shard_zero.StateMachine.{Command, no_result}
use shard_zero.Raft.Store.{save, validate, validate_record, validate_replacement, validate_entries}
use shard_zero.Raft.Store.Journal.{append_record}
use shard_zero.Raft.Node.{Node, Outcome, persist}
use shard_zero.Raft.Commit.{
  apply_locked, maybe_snapshot, apply_entries, apply_entry, advance_commit, commit_candidate, acks,
}
use shard_zero.Raft.Commit.Answers.{IsAnswer}
use shard_zero.Raft.Replication.{kick, queue_all}
use shard_zero.Raft.Client.{Ticket, submit, poll, receive}
use shard_zero.Raft.Client.Registering.{claim_proposed}
use shard_zero.Raft.Steps.{here}
use shard_zero.Raft.Steps.Outcomes.{ticket_outcome}
use shard_zero.Raft.Samples.{set_x, only_a, only_a-IsSound}

abbrev set_y : Command
set_y = record set_x { request_id = 2; key = bytes "y" }

abbrev ticket : Ticket
ticket = record { index = 3; done = 0 }

abbrev after_submit : Node
after_submit = (submit only_a (some set_y) none).0

given : (submit only_a (some set_y) none).1 ≡ done ticket
unfolding submit StateMachine.validate valid_utf8 text_eq persist save validate validate_record
    validate_replacement validate_entries append_record
given = refl

abbrev written : Outcome
written = record {
  result = record no_result { value = bytes "1"; found = true; applied = true };
  error = none;
}

sent : (poll after_submit ticket).1 ≡ some written
unfolding submit StateMachine.validate valid_utf8 text_eq persist save validate validate_record
    validate_replacement validate_entries append_record poll receive advance_commit commit_candidate
    acks apply_locked apply_entries apply_entry maybe_snapshot kick queue_all get put remove
    StateMachine.apply StateMachine.check
sent = refl

ticket_outcome_example :
    IsAnswer (claim_proposed only_a (some set_y) none) after_submit.store.state written
ticket_outcome_example =
    ticket_outcome only_a only_a after_submit (some set_y) none ticket written only_a-IsSound refl
      refl (here only_a) given (here after_submit) sent
