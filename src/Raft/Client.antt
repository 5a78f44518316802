-- ===== src/Raft/Client.antt =====
-- internal/raft/runtime.go and node.go: proposals, tickets, the clock, pausing and closing.
pub mod Effects
pub mod Registering
pub mod Roles
use shard_zero.Prelude.{
  ℕ, ◌+◌, ◌-◌, Bool, true, false, ◌&&◌, ◌||◌, not, Option, none, some, List, [], ◌∷◌, Text, bytes,
  text_eq, length, ltb, leb, ◌==◌, if◌then◌else◌, Attempt, done, failed,
}
use shard_zero.Prelude.Dict.{text_key, nat_key, get, put, remove, read}
use shard_zero.StateMachine
use shard_zero.StateMachine.{Command, validate, stats, bad_key}
use shard_zero.Raft.Types.{Peer, Entry, VoteRequest, VoteResponse}
use shard_zero.Raft.Node.{
  Node, Role, Message, Waiter, Outcome, NodeError, unavailable, no_quorum, refused, available,
  is_leader, last_locked, emit, reset_timer, persist, leader_error, fail_pending, no_peer,
}
use shard_zero.Raft.Replication.{kick}
use shard_zero.Raft.Commit.{advance_commit}
use shard_zero.Raft.Election.{start_election, vote_response}

pub record Ticket : Type 0 where
  pub index : ℕ
  pub done : ℕ

-- `submitLocked` once the entry is durable
unfoldable pub register : Node → Entry → Option Text → Node
unfolding emit
register n e read_key =
    let n = record n {
      channels = n.channels + 1;
      pending = put n.pending e.index (record { read_key = read_key; done = n.channels });
      match = put n.match n.cfg.id e.index;
    } in
    kick (advance_commit (emit n (bytes "PROPOSED") e.index [] []))

abbrev pub proposed : Node → Option Command → Entry
proposed n command = record {
  index = last_locked n + 1;
  term = n.store.state.term;
  command = command;
}

-- `submitLocked` once the proposal is valid
unfoldable pub propose_entry : Node → Option Command → Option Text → Node × Attempt Ticket NodeError
unfolding register
propose_entry n command read_key =
    let e = proposed n command in
    let (n, durable) =
      persist n n.store.state.term n.store.state.vote n.store.state.commit e.index (e ∷ []) in
    if durable
    then (register n e read_key, done (record { index = e.index; done = n.channels }))
    else (n, failed unavailable)

abbrev pub command_refusal : Option Command → Option StateMachine.Error
command_refusal none = none
command_refusal (some c) = validate c

-- `submitLocked` once the node is known to lead
unfoldable pub submit_checked :
    Node
    → Option Command
    → Option Text
    → Option StateMachine.Error
    → Node × Attempt Ticket NodeError
unfolding propose_entry
submit_checked n command read_key (some e) = (n, failed (refused e))
submit_checked n command read_key none =
    if leb 256 (last_locked n - n.store.state.commit)
    then (n, failed no_quorum)
    else propose_entry n command read_key

-- `Submit` and `submitLocked`
unfoldable pub submit : Node → Option Command → Option Text → Node × Attempt Ticket NodeError
unfolding available leader_error submit_checked
submit n command read_key =
    if not (available n)
    then (n, failed unavailable)
    else if not (is_leader n.role)
    then (n, failed (leader_error n))
    else submit_checked n command read_key (command_refusal command)

-- The outcome sent on a channel, and the outcomes without it.
unfoldable pub receive : ℕ → List (ℕ × Outcome) → Option Outcome × List (ℕ × Outcome)
receive channel [] = (none, [])
receive channel ((c, out) ∷ rest) =
    let (found, others) = receive channel rest in
    if c == channel then (some out, rest) else (found, (c, out) ∷ others)

-- `Poll`
unfoldable pub poll : Node → Ticket → Node × Option Outcome
unfolding receive
poll n t = let (out, rest) = receive t.done n.outcomes in (record n { outcomes = rest }, out)

pub same_channel : Option Waiter → ℕ → Bool
same_channel none channel = false
same_channel (some w) channel = w.done == channel

-- `Cancel`
unfoldable pub cancel : Node → Ticket → Node
unfolding same_channel
cancel n t =
    if same_channel (get n.pending t.index) t.done
    then record n { pending = remove n.pending t.index }
    else n

-- `Execute` up to its wait for the ticket
unfoldable pub execute : Node → Command → Node × Attempt Ticket NodeError
execute n c = elim (validate c) [ some e ↦ (n, failed (refused e)) | none ↦ submit n (some c) none ]

-- `Get` up to its wait for the ticket
unfoldable pub get_key : Node → Text → Node × Attempt Ticket NodeError
get_key n key =
    if text_eq key [] || ltb 1024 (length key)
    then (n, failed (refused (StateMachine.invalid bad_key)))
    else submit n none (some key)

-- `Tick`
unfoldable pub tick : Node → Node
unfolding available
tick n =
    if not (available n)
    then n
    else if is_leader n.role
    then kick n
    else if text_eq n.cfg.fixed_leader [] && leb n.deadline n.runtime.now
    then start_election n
    else n

-- `DrainMessages`
unfoldable pub drain_messages : Node → Node × List Message
drain_messages n = (record n { outbox = [] }, n.outbox)

pub deliver_ballot : Node → Message → Option VoteRequest → VoteResponse → Bool → Node
deliver_ballot n m none resp error = n
deliver_ballot n m (some req) resp error =
    vote_response n (read n.peers m.to no_peer) req resp error

-- `DeliverVote`
unfoldable pub deliver_vote : Node → Message → VoteResponse → Bool → Node
unfolding deliver_ballot
deliver_vote n m resp error = deliver_ballot n m m.vote resp error

-- `SetPaused`
unfoldable pub set_paused : Node → Bool → Node
unfolding fail_pending reset_timer emit
set_paused n paused =
    let n = record n { paused = paused } in
    let n = if paused then fail_pending n unavailable else kick (reset_timer n) in
    emit n (if paused then bytes "PAUSED" else bytes "RESUMED") 0 [] []

-- `Close`, but for the journal's own
unfoldable pub close : Node → Node
unfolding fail_pending
close n = if n.closed then n else fail_pending (record n { closed = true }) unavailable

pub record Status : Type 0 where
  pub node_id : Text
  pub mode : Text
  pub role : Role
  pub term : ℕ
  pub leader_id : Text
  pub leader_url : Text
  pub last_log_index : ℕ
  pub commit_index : ℕ
  pub last_applied : ℕ
  pub keys : ℕ
  pub applied_operations : ℕ
  pub snapshot_index : ℕ
  pub healthy : Bool
  pub is_paused : Bool
  pub peers : List Peer

-- `statusLocked`
unfoldable pub status : Node → Status
unfolding available
status n =
    let (keys, operations) = stats n.machine in
    record {
      node_id = n.cfg.id;
      mode = if text_eq n.cfg.fixed_leader [] then bytes "raft" else bytes "fixed-leader";
      role = n.role;
      term = n.store.state.term;
      leader_id = n.leader;
      leader_url = (read n.peers n.leader no_peer).client_url;
      last_log_index = last_locked n;
      commit_index = n.store.state.commit;
      last_applied = n.applied;
      keys = keys;
      applied_operations = operations;
      snapshot_index = n.store.state.base;
      healthy = available n;
      is_paused = n.paused;
      peers = n.cfg.peers;
    }
