-- ===== src/Raft/Types.antt =====
-- internal/raft/types.go and the data of node.go, runtime.go and store.go. A duration, a time and a
-- channel are numbers; a `json` tag has no model.
use Prim.Native.Nat.{ℕ}
use shard_zero.Prelude.{
  Bool, true, false, ◌&&◌, Option, none, some, List, Text, ◌==◌, ◌≡◌, refl, ap, arith,
}
use shard_zero.StateMachine.Checks.{command_eq_iff}
use shard_zero.StateMachine.{Command, Snapshot, command_eq}

pub record Peer : Type 0 where
  pub id : Text
  pub peer_url : Text
  pub client_url : Text

pub record Config : Type 0 where
  pub id : Text
  pub cluster_id : Text
  pub peers : List Peer
  pub fixed_leader : Text
  pub election_min : ℕ
  pub election_max : ℕ
  pub heartbeat : ℕ
  pub rpc_timeout : ℕ
  pub request_timeout : ℕ
  pub snapshot_every : ℕ

-- `command` is `none` for a barrier.
pub record Entry : Type 0 where
  pub index : ℕ
  pub term : ℕ
  pub command : Option Command

-- `Entry{}`
abbrev pub no_entry : Entry
no_entry = record { index = 0; term = 0; command = none }

pub record VoteRequest : Type 0 where
  pub message_id : Text
  pub cluster_id : Text
  pub term : ℕ
  pub candidate_id : Text
  pub last_log_index : ℕ
  pub last_log_term : ℕ

pub record VoteResponse : Type 0 where
  pub term : ℕ
  pub granted : Bool

pub record AppendRequest : Type 0 where
  pub message_id : Text
  pub cluster_id : Text
  pub term : ℕ
  pub leader_id : Text
  pub prev_log_index : ℕ
  pub prev_log_term : ℕ
  pub entries : List Entry
  pub leader_commit : ℕ

pub record AppendResponse : Type 0 where
  pub term : ℕ
  pub success : Bool
  pub match_index : ℕ
  pub conflict_index : ℕ

same_command : Option Command → Option Command → Bool
same_command none none = true
same_command (some a) (some b) = command_eq a b
same_command _ _ = false

-- `reflect.DeepEqual` on two entries
unfoldable pub entry_eq : Entry → Entry → Bool
unfolding same_command
entry_eq a b = a.index == b.index && (a.term == b.term) && same_command a.command b.command

same_command-eq : (a b : Option Command) → same_command a b ≡ true → a ≡ b
unfolding same_command
same_command-eq none none h = refl
same_command-eq (some a) (some b) h = ap some ((command_eq_iff a b).0 h)
same_command-eq none (some b) h = cc
same_command-eq (some a) none h = cc

pub entry_eq_eq : (a b : Entry) → entry_eq a b ≡ true → a ≡ b
unfolding entry_eq
entry_eq_eq a b h = ground (arith, same_command-eq a.command b.command)

-- `checkpoint` and `record` of store.go
pub record Checkpoint : Type 0 where
  pub index : ℕ
  pub term : ℕ
  pub machine : Snapshot
  pub raft_term : ℕ
  pub vote : Text
  pub commit : ℕ
  pub log : List Entry

pub record Transaction : Type 0 where
  pub identity : Text
  pub term : ℕ
  pub vote : Text
  pub commit : ℕ
  pub from : ℕ
  pub entries : List Entry
  pub checkpoint : Option Checkpoint
