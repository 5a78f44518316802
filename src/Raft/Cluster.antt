-- ===== src/Raft/Cluster.antt =====
-- internal/raft: the nodes of a cluster and their elections. The network delivers any request to any
-- member, and an answer to the candidate that it is for, as a message or as what a call returns; it
-- may lose, repeat and reorder both. A member may stop and start again from its journal.
pub mod Ballots
pub mod Keeping
pub mod Quorums
pub mod Restarts
pub mod Safety
mod Tests
pub mod Voting
use shard_zero.Prelude.{
  ◌≡◌, ◌≢◌, Bool, true, false, Option, some, List, [], ◌∷◌, Text, text_eq, Includes, if◌then◌else◌,
  Attempt, done,
}
use shard_zero.Prelude.Dict.{read, text_key}
use shard_zero.Raft.Types.{VoteRequest, VoteResponse}
use shard_zero.Raft.Node.{Node, Runtime, Message, no_peer}
use shard_zero.Raft.Election.{request_vote, vote_response}
use shard_zero.Raft.Client.{deliver_vote}
use shard_zero.Raft.Types.{Config}
use shard_zero.Raft.Store.Journal.{Wal}
use shard_zero.Raft.Open.{OpenError, open_node}
use shard_zero.Raft.Steps.{
  Step, clock, ticked, submitted, executed, got, polled, cancelled, drained, voted, appended,
  vote_answered, append_answered, sending, append_called, vote_called, paused, closed,
}

-- What a member answered to a request for its vote.
pub record Answer : Type 0 where
  pub voter : Text
  pub request : VoteRequest
  pub response : VoteResponse

-- The nodes by their names, and every answer that was given.
pub record Cluster : Type 0 where
  pub nodes : Text → Node
  pub answers : List Answer

abbrev pub set_node : (Text → Node) → Text → Node → Text → Node
set_node nodes i n j = if text_eq i j then n else nodes j

-- A step that hears no answer to a request for a vote: a call that returned an error has none.
abbrev pub IsAlone : {n m : Node} → Step n m → Type 0
IsAlone (vote_answered n m resp error) = error ≡ true
IsAlone (vote_called n peer req resp error) = error ≡ true
IsAlone _ = Unit

-- `OpenWithRuntime` on the records of a node that has stopped, under its name, with its members and
-- without a fixed leader. What else was in memory is gone.
pub record Reopens (n m : Node) : Type 0 where
  pub is_origin : Text → Bool
  pub identity : Text → Text → List Text → Text → Text
  pub given : Config
  pub has_transport : Bool
  pub runtime : Runtime
  pub wal : Wal
  pub journal : wal.records ≡ n.store.wal.records
  pub opened : open_node is_origin identity given has_transport runtime wal ≡ done m
  pub free : m.cfg.fixed_leader ≡ []
  pub named : m.cfg.id ≡ n.cfg.id
  pub members : m.peers ≡ n.peers

-- One step of one member.
pub data Move (ids : List Text) : Cluster → Cluster → Type 0 where
  handles :
      (c : Cluster) (i : Text) (m : Node)
      → Includes ids i
      → (s : Step (c.nodes i) m) → IsAlone s
      → Move ids c (record c { nodes = set_node c.nodes i m })
  votes :
      (c : Cluster) (i : Text) (req : VoteRequest)
      → Includes ids i
      → Move ids c (record {
        nodes = set_node c.nodes i (request_vote (c.nodes i) req).0;
        answers =
            record { voter = i; request = req; response = (request_vote (c.nodes i) req).1 }
            ∷ c.answers;
      })
  hears :
      (c : Cluster) (i : Text) (m : Message) (a : Answer)
      → Includes ids i
      → Includes c.answers a
      → m.to ≡ a.voter
      → m.vote ≡ some a.request
      → a.request.candidate_id ≡ i
      → Move ids c
          (record c { nodes = set_node c.nodes i (deliver_vote (c.nodes i) m a.response false) })
  hears_call :
      (c : Cluster) (i : Text) (a : Answer)
      → Includes ids i
      → Includes c.answers a
      → a.request.candidate_id ≡ i
      → Move ids c (record c {
        nodes = set_node c.nodes i (
            vote_response
              (c.nodes i)
              (read (c.nodes i).peers a.voter no_peer)
              a.request
              a.response
              false);
      })
  restarts :
      (c : Cluster) (i : Text) (m : Node)
      → Includes ids i
      → Reopens (c.nodes i) m
      → Move ids c (record c { nodes = set_node c.nodes i m })

-- Any number of steps.
pub data Runs (ids : List Text) : Cluster → Cluster → Type 0 where
  start : (c : Cluster) → Runs ids c c
  next : {c d e : Cluster} → Runs ids c d → Move ids d e → Runs ids c e
