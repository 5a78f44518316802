-- ===== src/Simulation/Runner/Places.antt =====
-- internal/simulation/simulation.go, start, fault and the recovery of all: members that stop, start
-- again from their disks, pause, and are cut off.
use shard_zero.Prelude.{
  ℕ, ◌+◌, ◌*◌, true, false, not, none, some, [], Text, bytes, text_eq, if◌then◌else◌, Attempt, done,
  failed,
}
use shard_zero.Raft.Types.{Config}
use shard_zero.Raft.Store.Journal
use shard_zero.Raft.Store.Journal.{Wal, stored, failed_before, failed_after}
use shard_zero.Raft.Node.{Node, Runtime}
use shard_zero.Raft.Client.{close, set_paused, status}
use shard_zero.Raft.Open.{OpenError, open_node}
use shard_zero.Simulation.{Fault}
use shard_zero.Simulation.Checker.{set_at}
use shard_zero.Simulation.Runner.{
  World, Runner, not_open, count_of, update, name_of, peers_from, node_count, put_node, log_event,
  each,
}

-- `memoryDisk`: `failure` decides what each `Append` does; it cannot compact.
abbrev with_failure : Wal → Journal.Outcome → Wal
with_failure w failure = record w { outcome = λ _. failure; compacts = false }

abbrev pub empty_disk : Wal
empty_disk = record { records = []; writes = 0; outcome = λ _. stored; compacts = false }

abbrev pub break_disk : Node → Journal.Outcome → Node
break_disk n failure = record n {
  store = record (n.store) { wal = with_failure n.store.wal failure };
}

-- What becomes of the member's node, if it has one.
unfoldable pub on_place : Runner → ℕ → (Node → Node) → Runner
on_place r i f = elim (r.place i) [ none ↦ r | some p ↦ put_node r p (f (r.heap p)) ]

disk_at : Runner → ℕ → Wal
disk_at r i = elim (r.place i) [ none ↦ r.disks i | some p ↦ (r.heap p).store.wal ]

pub config_of : ℕ → ℕ → Config
unfolding name_of peers_from
config_of count i = record {
  id = name_of i;
  cluster_id = bytes "simulation";
  peers = peers_from 0 count;
  fixed_leader = [];
  election_min = 400000000;
  election_max = 800000000;
  heartbeat = 50000000;
  rpc_timeout = 300000000;
  request_timeout = 0;
  snapshot_every = 0;
}

-- `start` once the node is open, or is not
unfoldable pub opened : Runner → ℕ → Attempt Node OpenError → Runner
unfolding name_of
opened r i (failed e) = record r { err = some (not_open e) }
opened r i (done n) =
    let r = record r {
      heap = update r.heap r.next n;
      next = r.next + 1;
      place = update r.place i (some r.next);
      ledger = record (r.ledger) { event_cursor = set_at r.ledger.event_cursor i 0 };
    } in
    log_event r (bytes "RESTART") (name_of i) []

-- A disk that is not of a node stays as it is until the next start, which clears its failure first.
unfoldable pub start : World → Runner → ℕ → Runner
unfolding on_place disk_at config_of opened
start w r i =
    let r = on_place r i close in
    let disk = with_failure (disk_at r i) stored in
    let runtime : Runtime = record {
      manual = true;
      now = r.ledger.now * 1000000;
      random = w.pcg (w.uint64 r.draws) i;
    } in
    opened (record r { draws = r.draws + 1 }) i
      (open_node w.is_origin w.identity (config_of (node_count r) i) false runtime disk)

unfoldable pub crash : Runner → ℕ → Runner
unfolding on_place disk_at
crash r i = record (on_place r i close) {
  disks = update r.disks i (disk_at r i);
  place = update r.place i none;
}

-- the switch of `fault`
unfoldable pub strike : World → Runner → Text → ℕ → Runner
unfolding start crash on_place
strike w r kind i =
    if text_eq kind (bytes "crash")
    then crash r i
    else if text_eq kind (bytes "restart")
    then start w r i
    else if text_eq kind (bytes "pause")
    then on_place r i (λ n. set_paused n true)
    else if text_eq kind (bytes "resume")
    then on_place r i (λ n. set_paused n false)
    else if text_eq kind (bytes "partition")
    then record r { isolated = update r.isolated i true }
    else if text_eq kind (bytes "heal")
    then record r { isolated = λ _. false }
    else if text_eq kind (bytes "disk-before")
    then on_place r i (λ n. break_disk n failed_before)
    else if text_eq kind (bytes "disk-after")
    then on_place r i (λ n. break_disk n failed_after)
    else r

-- `fault`
unfoldable pub fault : World → Runner → Fault → Runner
unfolding name_of strike
fault w r f =
    let i = count_of f.node in strike w (log_event r (bytes "FAULT") (name_of i) f.kind) f.kind i

-- the body of the loop over the members when all recover: a pause ends before the health is asked
unfoldable pub revive_node : World → Runner → ℕ → ℕ → Runner
unfolding start
revive_node w r i p =
    let n = break_disk (r.heap p) stored in
    let was_paused = (status n).is_paused in
    let n = if was_paused then set_paused n false else n in
    let r = put_node r p n in
    if not (status n).healthy
    then start w r i
    else if not was_paused
    then put_node r p (set_paused n false)
    else r

unfoldable pub revive : World → Runner → ℕ → Runner
unfolding start revive_node
revive w r i = elim (r.place i) [ none ↦ start w r i | some p ↦ revive_node w r i p ]

-- the closure of "recover-all"
unfoldable pub recover_all : World → Runner → Runner
unfolding revive each
recover_all w r =
    let r = record r { isolated = λ _. false; drop = 0; delay = 5 } in
    log_event (each (revive w) 0 (node_count r) r) (bytes "HEAL_ALL") [] []
