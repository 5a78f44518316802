-- ===== src/Database/Tests.antt =====
-- internal/database/database.go: the theorems at work.
use shard_zero.Prelude.{refl, false, [], bytes}
use shard_zero.StateMachine
use shard_zero.StateMachine.{Command, check, apply, validate}
use shard_zero.Raft.Store.Journal.{stored, failed_after}
use shard_zero.Database.{Database, replay_commands}
use shard_zero.Database.Durability.{IsDurable, Executed, execute_outcome}

abbrev set_x : Command
set_x = record {
  client_id = bytes "alice";
  request_id = 1;
  operation = bytes "SET";
  key = bytes "x";
  value = bytes "1";
  expected = [];
}

abbrev empty : Database
empty = record {
  machine = StateMachine.new;
  wal = record { commands = []; writes = 0; outcome = λ _. stored };
  broken = false;
  closed = false;
}

abbrev failing : Database
failing = record empty { wal = record (empty.wal) { outcome = λ _. failed_after } }

failing-IsDurable : IsDurable failing
unfolding replay_commands
failing-IsDurable = refl

execute_outcome_example : Executed failing set_x
execute_outcome_example = execute_outcome failing set_x failing-IsDurable
