-- ===== src/Raft/Samples.antt =====
-- internal/raft: a follower of a cluster of three, and requests to it, for the tests.
use shard_zero.Prelude.{
  refl, true, false, none, some, [], ◌∷◌, ◌++◌, arith, Text, bytes, text_eq, valid_utf8,
}
use shard_zero.StateMachine
use shard_zero.StateMachine.Invariant
use shard_zero.StateMachine.{Command, restore}
use shard_zero.Raft.Commit.{run_entry}
use shard_zero.Raft.Commit.Replay.{replay_log}
use shard_zero.Raft.Types.{Peer, Config, no_entry, VoteRequest, AppendRequest}
use shard_zero.Raft.Store.{Durable, empty_snapshot}
use shard_zero.Raft.Store.Journal.{stored}
use shard_zero.Raft.Store.Shape.{IsLog}
use shard_zero.Raft.Node.{Node, follower, leader}
use shard_zero.Raft.Node.Effects.{IsSound}

abbrev pub set_x : Command
set_x = record {
  client_id = bytes "client";
  request_id = 1;
  operation = bytes "SET";
  key = bytes "x";
  value = bytes "1";
  expected = [];
}

abbrev pub peer : Text → Peer
peer id = record { id = id; peer_url = bytes "p" ++ id; client_url = bytes "c" ++ id }

abbrev pub config : Config
config = record {
  id = bytes "a";
  cluster_id = bytes "lab";
  peers = peer (bytes "a") ∷ peer (bytes "b") ∷ peer (bytes "c") ∷ [];
  fixed_leader = [];
  election_min = 10;
  election_max = 20;
  heartbeat = 2;
  rpc_timeout = 5;
  request_timeout = 50;
  snapshot_every = 0;
}

-- A barrier that is committed, and a command that is not.
abbrev pub state : Durable
state = record {
  term = 2;
  vote = [];
  commit = 1;
  base = 0;
  log =
      no_entry
      ∷ record { index = 1; term = 1; command = none }
      ∷ record { index = 2; term = 2; command = some set_x }
      ∷ [];
}

abbrev pub member_a : Node
member_a = record {
  cfg = config;
  peers =
      (bytes "a", peer (bytes "a"))
      ∷ (bytes "b", peer (bytes "b"))
      ∷ (bytes "c", peer (bytes "c"))
      ∷ [];
  store = record {
    wal = record { records = []; writes = 0; outcome = λ _. stored; compacts = true };
    identity = [];
    state = state;
    snapshot = empty_snapshot;
  };
  machine = StateMachine.new;
  role = follower;
  leader = [];
  applied = 1;
  next = [];
  match = [];
  wake = [];
  pending = [];
  deadline = 15;
  failed = none;
  closed = false;
  runtime = record { manual = true; now = 0; random = λ _ _. 3 };
  draws = 0;
  outbox = [];
  busy = [];
  votes = [];
  sequence = 0;
  paused = false;
  events = record { next = 0; items = []; capacity = 256 };
  boot_id = [];
  channels = 0;
  outcomes = [];
  panicked = false;
}

pub state-IsLog : IsLog state
unfolding StateMachine.validate valid_utf8 text_eq
state-IsLog = record {
  nonempty = omega arith;
  sentinel = refl;
  chain = (
    refl,
    omega arith,
    omega arith,
    omega arith,
    refl,
    (refl, omega arith, omega arith, omega arith, refl, tt),
  );
  base_committed = omega arith;
  commit_in = omega arith;
}

pub member_a-IsSound : IsSound member_a
unfolding replay_log run_entry restore
member_a-IsSound = record {
  ready = record {
    log = state-IsLog;
    above_base = omega arith;
    committed = omega arith;
    machine = Invariant.new-IsValid;
    replayed = refl;
  };
  caught_up = refl;
}

abbrev pub ask : Text → VoteRequest
ask id = record {
  message_id = [];
  cluster_id = bytes "lab";
  term = 3;
  candidate_id = id;
  last_log_index = 2;
  last_log_term = 2;
}

-- Leader c of term 4 replaces entry 2 and commits its own.
abbrev pub replace : AppendRequest
replace = record {
  message_id = [];
  cluster_id = bytes "lab";
  term = 4;
  leader_id = bytes "c";
  prev_log_index = 1;
  prev_log_term = 1;
  entries = record { index = 2; term = 4; command = none } ∷ [];
  leader_commit = 2;
}

-- The same as a leader of the term of its last entry, which b has and c has not.
abbrev pub leader_a : Node
leader_a = record member_a {
  role = leader;
  leader = bytes "a";
  match = (bytes "a", 2) ∷ (bytes "b", 2) ∷ (bytes "c", 0) ∷ [];
  next = (bytes "a", 3) ∷ (bytes "b", 3) ∷ (bytes "c", 1) ∷ [];
}

pub leader_a-IsSound : IsSound leader_a
unfolding replay_log run_entry restore
leader_a-IsSound = record {
  ready = record {
    log = state-IsLog;
    above_base = omega arith;
    committed = omega arith;
    machine = Invariant.new-IsValid;
    replayed = refl;
  };
  caught_up = refl;
}

-- The leader of a cluster of one.
abbrev pub only_a : Node
only_a = record leader_a {
  cfg = record config { peers = peer (bytes "a") ∷ [] };
  peers = (bytes "a", peer (bytes "a")) ∷ [];
}

pub only_a-IsSound : IsSound only_a
only_a-IsSound = record {
  ready = record {
    log = leader_a-IsSound.ready.log;
    above_base = leader_a-IsSound.ready.above_base;
    committed = leader_a-IsSound.ready.committed;
    machine = leader_a-IsSound.ready.machine;
    replayed = leader_a-IsSound.ready.replayed;
  };
  caught_up = leader_a-IsSound.caught_up;
}
