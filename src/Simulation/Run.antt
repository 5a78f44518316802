-- ===== src/Simulation/Run.antt =====
-- internal/simulation/simulation.go, Run: a scenario from its start to its result. That `Run` closes the
-- nodes at its end is not modelled.
pub mod Accounts
pub mod Convergence
pub mod Soundness
mod Tests
use shard_zero.Prelude.{
  ℕ, zero, suc, ◌+◌, ◌-◌, ◌*◌, ◌%◌, max, Bool, true, false, not, ◌&&◌, ◌||◌, Option, none, some,
  List, [], ◌∷◌, ◌++◌, Text, bytes, decimal, ltb, ◌==◌, is_none, if◌then◌else◌, map,
}
use shard_zero.StateMachine.{Command}
use shard_zero.Raft.Store.{fresh_store}
use shard_zero.Raft.Node.{Node}
use shard_zero.Raft.Open.{fresh_node}
use shard_zero.Raft.Steps.{at_time}
use shard_zero.Simulation.{Fault, Scenario, ScenarioError, validate}
use shard_zero.Simulation.Checker.{Trace, Ledger, Checked, check, converged}
use shard_zero.Simulation.Schedule.{
  Item, Task, injects, submits, expires, recovers, ticks, times_out, delivers, duplicates, responds,
  kind_of,
}
use shard_zero.Simulation.Runner.{
  World, Runner, Operation, RunError, bad_state, context_ended, count_of, node_count,
  operation_count, log_event, schedule, each,
}
use shard_zero.Simulation.Runner.Places.{empty_disk, config_of, start, fault, recover_all}
use shard_zero.Simulation.Runner.Clients.{first_try, expire, collect_from, tick_all}
use shard_zero.Simulation.Runner.Network.{no_reply, finish, deliver, respond, drain}

-- What the closure of an item does.
unfoldable pub run_task : World → Runner → Task → Runner
unfolding fault recover_all first_try expire tick_all finish deliver respond
run_task w r (injects f) = fault w r f
run_task w r (submits j) = first_try r j
run_task w r (expires j h best) = expire r j h best
run_task w r recovers = recover_all w r
run_task w r ticks = tick_all r
run_task w r (times_out c) = finish r c no_reply
run_task w r (delivers c) = deliver w r c
run_task w r (duplicates c) = deliver w r c
run_task w r (responds c v) = respond r c v

-- The nodes of the members, from the i-th on, k of them.
unfoldable pub members_from : Runner → ℕ → ℕ → List (Option Node)
members_from r i zero = []
members_from r i (suc k) =
    elim (r.place i) [ none ↦ none | some p ↦ some (r.heap p) ] ∷ members_from r (suc i) k

abbrev pub members : Runner → List (Option Node)
members r = members_from r 0 (node_count r)

-- the error of `check`, if it has one
unfoldable pub judged : Runner → Checked → Runner
judged r (l, none) = record r { ledger = l }
judged r (l, some e) = record r { ledger = l; err = some (bad_state e) }

-- `Now` of every node shows the time of the item.
unfoldable pub begin_turn : Runner → Item → List Item → Runner
unfolding kind_of
begin_turn r item rest =
    log_event
      (record r {
        queue = rest;
        steps = r.steps + 1;
        ledger = record (r.ledger) { now = item.at };
        heap = λ p. at_time (r.heap p) (item.at * 1000000);
      })
      (bytes "SCHEDULE") [] (decimal item.seq ++ (bytes ":" ++ kind_of item.task))

-- the body of the loop
unfoldable pub turn : World → ℕ → Runner → Item → List Item → Runner
unfolding begin_turn run_task collect_from drain judged members_from
turn w recover_at r item rest =
    let r = run_task w (begin_turn r item rest) item.task in
    let r = drain w (collect_from 0 (operation_count r) r) in
    let r = judged r (check w.entry_hash w.chain_hash r.ledger 0 (members r)) in
    if ltb (recover_at + 1500) r.ledger.now
      && r.acknowledged == operation_count r
      && converged w.digest (members r)
    then record r { converged = true }
    else r

-- How the loop goes on.
pub data Next : Type 0 where
  stops : Runner → Next
  takes : Item → List Item → Next

unfoldable pub next_item : World → ℕ → Runner → List Item → Next
next_item w limit r [] = stops r
next_item w limit r (item ∷ rest) =
    if w.cancelled r.steps
    then stops (record r { err = some context_ended })
    else if ltb limit item.at
    then stops (record r { queue = rest })
    else takes item rest

unfoldable pub next_of : World → ℕ → Runner → Next
unfolding next_item
next_of w limit r =
    if r.converged || not (is_none r.err) then stops r else next_item w limit r r.queue

-- the loop, for a number of items
unfoldable pub loop : World → ℕ → ℕ → ℕ → Runner → Runner
unfolding next_of turn
loop w recover_at limit zero r = r
loop w recover_at limit (suc k) r = elim (next_of w limit r) [
  | stops r' ↦ r'
  | takes item rest ↦ loop w recover_at limit k (turn w recover_at r item rest)
]

-- `recoverAt`
unfoldable pub recovery_of : ℕ → List Fault → ℕ
recovery_of at [] = at
recovery_of at (f ∷ faults) = recovery_of (max at (count_of f.at_ms + 1000)) faults

unfoldable pub schedule_faults : List Fault → Runner → Runner
schedule_faults [] r = r
schedule_faults (f ∷ faults) r = schedule_faults faults (schedule r (count_of f.at_ms) (injects f))

pub operation_of : ℕ → Operation
operation_of i = record {
  command = record {
    client_id = bytes "client-" ++ decimal i;
    request_id = 1;
    operation = bytes "SET";
    key = bytes "key-" ++ decimal (i % 7);
    value = bytes "value-" ++ decimal i;
    expected = [];
  };
  ticket = none;
  is_done = false;
  retry_at = 800 + i * 60;
}

unfoldable pub schedule_client : Runner → ℕ → Runner
schedule_client r i = schedule r (800 + i * 60) (submits i)

pub zeros : ℕ → List ℕ
zeros zero = []
zeros (suc k) = 0 ∷ zeros k

-- What stands at an address that no node has yet.
abbrev pub unused : Node
unused =
    fresh_node (config_of 0 0) [] (record { manual = true; now = 0; random = λ _ _. 0 })
      (fresh_store [] empty_disk)

-- The runner before any node is started.
abbrev pub first_runner : Scenario → Runner
first_runner s = record {
  s = s;
  ledger = record {
    now = 0;
    trace = [];
    hashed = [];
    leaders = [];
    votes = [];
    committed = [];
    committed_terms = [];
    log_matching = [];
    previous_commit = zeros (count_of s.nodes);
    previous_applied = zeros (count_of s.nodes);
    event_cursor = zeros (count_of s.nodes);
  };
  seq = 0;
  queue = [];
  draws = 0;
  heap = λ _. unused;
  next = 0;
  place = λ _. none;
  disks = λ _. empty_disk;
  isolated = λ _. false;
  drop = count_of s.drop_percent;
  delay = count_of s.max_delay_ms;
  completed = λ _. false;
  err = none;
  ops = operation_of;
  steps = 0;
  acknowledged = 0;
  converged = false;
}

unfoldable pub recover_at : Scenario → ℕ
unfolding recovery_of
recover_at s = recovery_of (count_of s.operations * 60 + 1800) s.faults

unfoldable pub limit_of : Scenario → ℕ
unfolding recover_at
limit_of s = recover_at s + max 12000 (count_of s.operations * 10)

-- The runner when its loop begins.
unfoldable pub prepared : World → Scenario → Runner
unfolding start each schedule_faults schedule_client recover_at
prepared w s =
    let r = each (start w) 0 (count_of s.nodes) (first_runner s) in
    let r = each schedule_client 0 (count_of s.operations) (schedule_faults s.faults r) in
    schedule (schedule r (recover_at s) recovers) 50 ticks

pub data Failure : Type 0 where
  bad_scenario : ScenarioError → Failure
  run_failed : RunError → Failure
  not_finished : Failure

-- `Result`, with what its hash was given
pub record Result : Type 0 where
  pub passed : Bool
  pub error : Option Failure
  pub steps : ℕ
  pub virtual_ms : ℕ
  pub acknowledged : ℕ
  pub pending : ℕ
  pub is_converged : Bool
  pub hashed : List Trace
  pub trace : List Trace

unfoldable pub failure_of : Option RunError → Bool → Option Failure
failure_of (some e) passed = some (run_failed e)
failure_of none true = none
failure_of none false = some not_finished

-- the end of `Run`
unfoldable pub result_of : Runner → Result
unfolding failure_of
result_of r =
    let pending = operation_count r - r.acknowledged in
    let passed = is_none r.err && r.converged && pending == 0 in
    record {
      passed = passed;
      error = failure_of r.err passed;
      steps = r.steps;
      virtual_ms = r.ledger.now;
      acknowledged = r.acknowledged;
      pending = pending;
      is_converged = r.converged;
      hashed = r.ledger.hashed;
      trace = r.ledger.trace;
    }

-- The runner when its loop has ended.
unfoldable pub final : World → Scenario → Runner
unfolding loop prepared recover_at limit_of
final w s = loop w (recover_at s) (limit_of s) 2000000 (prepared w s)

unfoldable pub refused_result : ScenarioError → Result
refused_result e = record {
  passed = false;
  error = some (bad_scenario e);
  steps = 0;
  virtual_ms = 0;
  acknowledged = 0;
  pending = 0;
  is_converged = false;
  hashed = [];
  trace = [];
}

-- `Run`
unfoldable pub run : World → Scenario → Result
unfolding final result_of refused_result
run w s = elim (validate s) [ some e ↦ refused_result e | none ↦ result_of (final w s) ]
