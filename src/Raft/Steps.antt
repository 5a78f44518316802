-- ===== src/Raft/Steps.antt =====
-- internal/raft: a node as a state machine whose steps are its handlers.
pub mod Safety
pub mod Outcomes
mod Tests
mod Tickets
use shard_zero.Prelude.{ℕ, ◌≡◌, Bool, Option, Text}
use shard_zero.StateMachine.{Command}
use shard_zero.Raft.Types.{Peer, VoteRequest, VoteResponse, AppendRequest, AppendResponse}
use shard_zero.Raft.Node.{Node, Message}
use shard_zero.Raft.Election.{request_vote, vote_response}
use shard_zero.Raft.Replication.{start_replication}
use shard_zero.Raft.Rpc.{append_entries, accept_append, deliver_append}
use shard_zero.Raft.Client.{
  Ticket, submit, execute, get_key, poll, cancel, tick, drain_messages, deliver_vote, set_paused,
  close,
}

-- The clock of a node shows another time.
abbrev pub at_time : Node → ℕ → Node
at_time n now = record n { runtime = record (n.runtime) { now = now } }

-- One call of an exported method, or one critical section of a goroutine: the two of `replicateOnce`,
-- around its call of the network, and that of the goroutine which asks for a vote. What the network delivers is any request and any answer; the
-- journal decides the outcome of its own writes, and so which of them fail.
pub data Step : Node → Node → Type 0 where
  clock : (n : Node) (now : ℕ) → Step n (at_time n now)
  ticked : (n : Node) → Step n (tick n)
  submitted :
      (n : Node) (command : Option Command) (read_key : Option Text)
      → Step n (submit n command read_key).0
  executed : (n : Node) (c : Command) → Step n (execute n c).0
  got : (n : Node) (key : Text) → Step n (get_key n key).0
  polled : (n : Node) (t : Ticket) → Step n (poll n t).0
  cancelled : (n : Node) (t : Ticket) → Step n (cancel n t)
  drained : (n : Node) → Step n (drain_messages n).0
  voted : (n : Node) (req : VoteRequest) → Step n (request_vote n req).0
  appended : (n : Node) (req : AppendRequest) → Step n (append_entries n req).0
  vote_answered :
      (n : Node) (m : Message) (resp : VoteResponse) (error : Bool)
      → Step n (deliver_vote n m resp error)
  append_answered :
      (n : Node) (m : Message) (resp : AppendResponse) (error : Bool)
      → Step n (deliver_append n m resp error)
  sending : (n : Node) (peer : Peer) → Step n (start_replication n peer).0
  append_called :
      (n : Node) (peer : Peer) (req : AppendRequest) (resp : AppendResponse) (error : Bool)
      → Step n (accept_append n peer req resp error).0
  vote_called :
      (n : Node) (peer : Peer) (req : VoteRequest) (resp : VoteResponse) (error : Bool)
      → Step n (vote_response n peer req resp error)
  paused : (n : Node) (value : Bool) → Step n (set_paused n value)
  closed : (n : Node) → Step n (close n)

-- Any number of steps.
pub data Reaches : Node → Node → Type 0 where
  here : (n : Node) → Reaches n n
  step : {n m k : Node} → Reaches n m → Step m k → Reaches n k
