-- ===== src/Api/ClusterTests.antt =====
-- internal/api/http.go, ClusterHandler: the theorems at work on a cluster of one.
use shard_zero.Prelude.{
  ◌≡◌, refl, Bool, true, false, Option, none, some, [], Text, bytes, text_eq, Attempt, done, failed,
  valid_utf8,
}
use shard_zero.Prelude.Dict.{get, put, remove}
use shard_zero.StateMachine
use shard_zero.StateMachine.{Command, no_result, bad_key}
use shard_zero.Raft.Store.{save, validate, validate_record, validate_replacement, validate_entries}
use shard_zero.Raft.Store.Journal.{append_record}
use shard_zero.Raft.Node.{Node, NodeError, Outcome, persist, no_quorum, refused}
use shard_zero.Raft.Commit.{
  apply_locked, maybe_snapshot, apply_entries, apply_entry, advance_commit, commit_candidate, acks,
}
use shard_zero.Raft.Replication.{kick, queue_all}
use shard_zero.Raft.Client.{Ticket, submit, poll, cancel, receive}
use shard_zero.Raft.Client.Registering.{claim_proposed}
use shard_zero.Raft.Steps.{here}
use shard_zero.Raft.Proposing.{
  Proposes, turned_down, received, gave_up, Executes, not_valid, executes, is_bad_key,
}
use shard_zero.Raft.Samples.{only_a, only_a-IsSound}
use shard_zero.Api.{result_of}
use shard_zero.Api.Handlers.{
  WriteRequest, decoded, command_of, write, write_decoded, answer_write, read_key, answer_read,
}
use shard_zero.Api.Cluster.{Execute, Get, IsExecute, write_cluster, read_cluster}
use shard_zero.Api.Committing.{Commits, write_committed}

-- A caller that looks for its outcome at once, and waits no longer.
taken : Node → Ticket → Option Outcome → Node × StateMachine.Result × Option NodeError
taken n t (some out) = ((poll n t).0, out.result, out.error)
taken n t none = (cancel n t, no_result, some no_quorum)

waited : Node → Attempt Ticket NodeError → Node × StateMachine.Result × Option NodeError
waited n (failed e) = (n, no_result, some e)
waited n (done t) = taken n t (poll n t).1

module _ (n : Node) (command : Option Command) (key : Option Text) where
  at_once : Node × StateMachine.Result × Option NodeError
  unfolding waited
  at_once = waited (submit n command key).0 (submit n command key).1

  taken-Proposes :
      (t : Ticket) (o : Option Outcome)
      → (submit n command key).1 ≡ done t
      → (poll (submit n command key).0 t).1 ≡ o
      → Proposes n command key
          (taken (submit n command key).0 t o).0
          ((taken (submit n command key).0 t o).1, (taken (submit n command key).0 t o).2)
  unfolding taken
  taken-Proposes t (some out) given sent =
      received (submit n command key).0 t out given (here _) sent
  taken-Proposes t none given sent = gave_up (submit n command key).0 t given (here _)

  waited-Proposes :
      (a : Attempt Ticket NodeError)
      → (submit n command key).1 ≡ a
      → Proposes n command key
          (waited (submit n command key).0 a).0
          ((waited (submit n command key).0 a).1, (waited (submit n command key).0 a).2)
  unfolding waited
  waited-Proposes (failed e) given = turned_down e given
  waited-Proposes (done t) given = taken-Proposes t _ given refl

  at_once-Proposes : Proposes n command key at_once.0 (at_once.1, at_once.2)
  unfolding at_once
  at_once-Proposes = waited-Proposes (submit n command key).1 refl

execute_checked :
    Node → Command → Option StateMachine.Error → Node × StateMachine.Result × Option NodeError
unfolding at_once
execute_checked n c (some e) = (n, no_result, some (refused e))
execute_checked n c none = at_once n (some c) none

execute_now : Execute
unfolding execute_checked
execute_now n c = execute_checked n c (StateMachine.validate c)

execute_now-IsExecute : IsExecute execute_now
unfolding execute_now
execute_now-IsExecute n c = go (StateMachine.validate c) refl
  where
    go :
        (o : Option StateMachine.Error)
        → StateMachine.validate c ≡ o
        → Executes n c
            (execute_checked n c o).0
            ((execute_checked n c o).1, (execute_checked n c o).2)
    go (some e) bad = not_valid e bad
    go none fits = executes _ _ fits (at_once-Proposes n (some c) none)

get_checked : Node → Text → Bool → Node × (Text × Bool) × Option NodeError
unfolding at_once
get_checked n key true = (n, ([], false), some (refused (StateMachine.invalid bad_key)))
get_checked n key false = let (m, r, e) = at_once n none (some key) in (m, (r.value, r.found), e)

get_now : Get
unfolding get_checked
get_now n key = get_checked n key (is_bad_key key)

abbrev put_y : WriteRequest
put_y = record {
  client_id = bytes "client";
  request_id = 2;
  value = some (bytes "1");
  expected = none;
}

written :
    (write_cluster execute_now [] (bytes "SET") (bytes "y") (decoded put_y) only_a).1.status ≡ 200
unfolding write write_decoded answer_write execute_now execute_checked at_once waited taken submit
    StateMachine.validate valid_utf8 text_eq persist save validate validate_record
    validate_replacement validate_entries append_record poll receive advance_commit commit_candidate
    acks apply_locked apply_entries apply_entry maybe_snapshot kick queue_all get put remove
    StateMachine.apply StateMachine.check
written = refl

write_committed_example :
    (result : StateMachine.Result) × ((write_cluster execute_now []
        (bytes "SET")
        (bytes "y")
        (decoded put_y)
        only_a).1.body
      ≡ result_of result)
    × Commits
        (claim_proposed only_a (some (command_of (bytes "SET") (bytes "y") put_y)) none)
        (write_cluster execute_now []
          (bytes "SET")
          (bytes "y")
          (decoded put_y)
          only_a).0.store.state
        (record { result = result; error = none })
write_committed_example =
    write_committed execute_now [] (bytes "SET") (bytes "y") put_y only_a only_a
      execute_now-IsExecute only_a-IsSound refl refl (here only_a) written

-- The key that the entry of the samples sets, which the barrier commits.
found : (read_cluster get_now [] (bytes "x") only_a).1.status ≡ 200
unfolding read_key answer_read get_now get_checked at_once waited taken submit StateMachine.validate
    valid_utf8 text_eq persist save validate validate_record validate_replacement validate_entries
    append_record poll receive advance_commit commit_candidate acks apply_locked apply_entries
    apply_entry maybe_snapshot kick queue_all get put remove StateMachine.apply StateMachine.check
    StateMachine.get_value
found = refl
