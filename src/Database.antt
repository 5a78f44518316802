-- ===== src/Database.antt =====
-- internal/database/database.go: one machine over a write-ahead log. The log is the list of the
-- commands that it holds, with an outcome for each write, as for the journal of Raft; the JSON text
-- of a command is not modelled.
pub mod Durability
mod Tests
use shard_zero.Prelude.{
  ℕ, ◌+◌, Bool, true, false, ◌&&◌, ◌||◌, not, Option, none, some, List, [], ◌∷◌, ◌++◌, Text,
  if◌then◌else◌, Attempt, done, failed,
}
use shard_zero.StateMachine
use shard_zero.StateMachine.{Command, Machine, no_result, check, apply, get_value, stats}
use shard_zero.Raft.Store.Journal.{Outcome, stored, failed_before, failed_after}

pub record CommandLog : Type 0 where
  pub commands : List Command
  pub writes : ℕ
  pub outcome : ℕ → Outcome

-- `broken` is the field `failed`.
pub record Database : Type 0 where
  pub machine : Machine
  pub wal : CommandLog
  pub broken : Bool
  pub closed : Bool

-- `ErrUnavailable`, and the errors of the state machine
pub data Error : Type 0 where
  unavailable : Error
  refused : StateMachine.Error → Error

-- the callback of `Open`, on every command of the log
unfoldable pub replay_commands : Machine → List Command → Attempt Machine StateMachine.Error
replay_commands m [] = done m
replay_commands m (c ∷ cs) =
    let rest = replay_commands (apply m c).0 cs in
    elim (apply m c).2 [ none ↦ rest | some e ↦ failed e ]

opened : CommandLog → Attempt Machine StateMachine.Error → Attempt Database StateMachine.Error
opened w (failed e) = failed e
opened w (done m) = done (record { machine = m; wal = w; broken = false; closed = false })

unfoldable pub open_database : CommandLog → Attempt Database StateMachine.Error
unfolding opened replay_commands
open_database w = opened w (replay_commands StateMachine.new w.commands)

write_outcome : CommandLog → Command → Outcome → CommandLog × Bool
write_outcome w c stored =
    (record w { commands = w.commands ++ (c ∷ []); writes = w.writes + 1 }, true)
write_outcome w c failed_before = (record w { writes = w.writes + 1 }, false)
write_outcome w c failed_after =
    (record w { commands = w.commands ++ (c ∷ []); writes = w.writes + 1 }, false)

unfoldable pub append_command : CommandLog → Command → CommandLog × Bool
unfolding write_outcome
append_command w c = write_outcome w c (w.outcome w.writes)

pub refusal_of : Option StateMachine.Error → Option Error
refusal_of none = none
refusal_of (some e) = some (refused e)

-- `Execute` after the write of the command
unfoldable pub run_written :
    Database → Command → CommandLog × Bool → Database × StateMachine.Result × Option Error
unfolding refusal_of
run_written d c (w, true) = (
  record d { machine = (apply d.machine c).0; wal = w },
  (apply d.machine c).1,
  refusal_of (apply d.machine c).2,
)
run_written d c (w, false) = (record d { wal = w; broken = true }, no_result, some unavailable)

-- `Execute` after its check
unfoldable pub run_checked :
    Database
    → Command
    → StateMachine.Result × Bool × Option StateMachine.Error
    → Database × StateMachine.Result × Option Error
unfolding run_written append_command
run_checked d c (result, true, error) = (d, result, refusal_of error)
run_checked d c (result, false, some e) = (d, result, some (refused e))
run_checked d c (result, false, none) = run_written d c (append_command d.wal c)

unfoldable pub execute : Database → Command → Database × StateMachine.Result × Option Error
unfolding run_checked
execute d c =
    if d.closed || d.broken
    then (d, no_result, some unavailable)
    else run_checked d c (check d.machine c)

unfoldable pub get_stored : Database → Text → (Text × Bool) × Option Error
get_stored d key =
    if d.closed || d.broken
    then (([], false), some unavailable)
    else (get_value d.machine key, none)

pub record Stats : Type 0 where
  pub keys : ℕ
  pub applied_operations : ℕ
  pub healthy : Bool

unfoldable pub database_stats : Database → Stats
database_stats d =
    let (keys, operations) = stats d.machine in
    record { keys = keys; applied_operations = operations; healthy = not d.closed && not d.broken }

-- `Close`; the error of closing the file is not modelled.
unfoldable pub close_database : Database → Database
close_database d = record d { closed = true }
