-- ===== src/Simulation/Runner.antt =====
-- internal/simulation/simulation.go, runner: the state of a run and the ways to change it. The nodes
-- are objects at addresses, so that a ticket, a call and a place in the cluster may share one. A time
-- is in milliseconds.
pub mod Asking
pub mod Carrying
pub mod Clients
pub mod Fine
pub mod Network
pub mod Places
pub mod Reviving
use shard_zero.Prelude.{
  ℕ, zero, suc, ◌+◌, Bool, true, false, Option, none, some, List, [], ◌∷◌, ◌++◌, Text, bytes,
  decimal, text_eq, ◌==◌, if◌then◌else◌, inc64,
}
use shard_zero.StateMachine.{Machine, Command}
use shard_zero.Raft.Types.{Peer, Entry}
use shard_zero.Raft.Store.Journal.{Wal}
use shard_zero.Raft.Node.{Node}
use shard_zero.Raft.Open.{OpenError}
use shard_zero.Simulation.{Scenario}
use shard_zero.Simulation.Integers.{ℤ, pos, negsuc}
use shard_zero.Simulation.Checker.{Ledger, CheckError, note}
use shard_zero.Simulation.Schedule.{Handle, Task, Item, push}

-- What the runner takes from other packages: the test for a URL, the hashes (SHA-256), the generators
-- of math/rand/v2 and the context. `uint64 k` and `int_n k n` are the k-th draw of the scenario's
-- generator, as `Uint64` and as `IntN(n)`; `pcg seed i k n` is the k-th draw, as `Int64N(n)`, of the
-- generator of the member i, whose seeds are `seed` and `seed^uint64(i+1)`; `cancelled k` says whether
-- the context has ended after k items.
pub record World : Type 0 where
  pub is_origin : Text → Bool
  pub identity : Text → Text → List Text → Text → Text
  pub entry_hash : Entry → Text
  pub chain_hash : Text → Text
  pub digest : Machine → Text
  pub uint64 : ℕ → ℕ
  pub int_n : ℕ → ℕ → ℕ
  pub pcg : ℕ → ℕ → ℕ → ℕ → ℕ
  pub cancelled : ℕ → Bool

pub data RunError : Type 0 where
  not_open : OpenError → RunError
  bad_acknowledgement context_ended : RunError
  bad_state : CheckError → RunError

-- A ticket holds its node (`source`).
pub record Operation : Type 0 where
  pub command : Command
  pub ticket : Option Handle
  pub is_done : Bool
  pub retry_at : ℕ

-- `heap` holds the nodes by their addresses, the next of which is `next`; `place` says which of them is
-- the i-th member now. The disk of a member is the journal of its node, and, while it has none, its
-- entry of `disks`. `completed` says which calls have been answered.
pub record Runner : Type 0 where
  pub s : Scenario
  pub ledger : Ledger
  pub seq : ℕ
  pub queue : List Item
  pub draws : ℕ
  pub heap : ℕ → Node
  pub next : ℕ
  pub place : ℕ → Option ℕ
  pub disks : ℕ → Wal
  pub isolated : ℕ → Bool
  pub drop : ℕ
  pub delay : ℕ
  pub completed : ℕ → Bool
  pub err : Option RunError
  pub ops : ℕ → Operation
  pub steps : ℕ
  pub acknowledged : ℕ
  pub converged : Bool

-- The value of an `int` that Validate has found not to be below 0.
unfoldable pub count_of : ℤ → ℕ
count_of (pos n) = n
count_of (negsuc n) = 0

-- `f[k] = x`
abbrev pub update : {A : Type 0} → (ℕ → A) → ℕ → A → ℕ → A
update f k x j = if k == j then x else f j

unfoldable pub name_of : ℕ → Text
name_of i = bytes "node-" ++ decimal (i + 1)

pub peer_of : ℕ → Peer
unfolding name_of
peer_of i = record {
  id = name_of i;
  peer_url = bytes "http://peer:" ++ decimal (8000 + i);
  client_url = bytes "http://client:" ++ decimal (7000 + i);
}

-- The members from the i-th on, k of them.
unfoldable pub peers_from : ℕ → ℕ → List Peer
unfolding peer_of
peers_from i zero = []
peers_from i (suc k) = peer_of i ∷ peers_from (suc i) k

abbrev pub node_count : Runner → ℕ
node_count r = count_of r.s.nodes

abbrev pub operation_count : Runner → ℕ
operation_count r = count_of r.s.operations

-- A method of the node at an address.
abbrev pub put_node : Runner → ℕ → Node → Runner
put_node r p n = record r { heap = update r.heap p n }

-- `record`
abbrev pub log_event : Runner → Text → Text → Text → Runner
log_event r kind node detail = record r { ledger = note r.ledger kind node detail }

-- `schedule`
abbrev pub schedule : Runner → ℕ → Task → Runner
schedule r at task = record r {
  seq = inc64 r.seq;
  queue = push (record { at = at; seq = inc64 r.seq; task = task }) r.queue;
}

-- A draw of `IntN`.
abbrev pub drawn : Runner → Runner
drawn r = record r { draws = r.draws + 1 }

-- The loops over the members, from the i-th on, k of them.
unfoldable pub each : (Runner → ℕ → Runner) → ℕ → ℕ → Runner → Runner
each f i zero r = r
each f i (suc k) r = each f (suc i) k (f r i)
