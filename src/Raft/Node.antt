-- ===== src/Raft/Node.antt =====
-- internal/raft/node.go and runtime.go: the state of a node, and the helpers that every handler
-- calls. A method that changes `*Node` returns the new node; the mutex makes each handler one step.
-- `slog` lines are not modelled.
pub mod Effects
pub mod Persisting
pub mod Stepping
pub mod Roles
use shard_zero.Prelude.{
  ℕ, ◌+◌, ◌-◌, Bool, true, false, ◌&&◌, ◌||◌, not, Option, none, some, List, [], ◌∷◌, ◌++◌, Text,
  bytes, text_eq, ltb, ◌==◌, if◌then◌else◌, is_none,
}
use shard_zero.Prelude.Dict.{Dict, text_key, nat_key, get, read}
use shard_zero.Events
use shard_zero.Events.{Buffer, publish}
use shard_zero.StateMachine
use shard_zero.StateMachine.{Machine, no_result}
use shard_zero.Raft.Types.{Peer, Config, Entry, VoteRequest, AppendRequest}
use shard_zero.Raft.Store
use shard_zero.Raft.Store.{Store, save, entry, last}

pub data Role : Type 0 where
  follower candidate leader : Role

-- `ErrUnavailable`, `ErrNoQuorum`, the error of a context, `NotLeaderError` and the errors of rpc.go;
-- `refused` passes on an error of the state machine.
pub data NodeError : Type 0 where
  unavailable no_quorum context_ended : NodeError
  not_leader : Text → Text → NodeError
  unknown_leader unknown_candidate malformed_entry conflicting_entry overwrites_committed :
      NodeError
  refused : StateMachine.Error → NodeError

pub record Outcome : Type 0 where
  pub result : StateMachine.Result
  pub error : Option NodeError

-- `done` numbers the channel of the waiter's ticket.
pub record Waiter : Type 0 where
  pub read_key : Option Text
  pub done : ℕ

pub record Message : Type 0 where
  pub sequence : ℕ
  pub from : Text
  pub to : Text
  pub vote : Option VoteRequest
  pub append : Option AppendRequest

-- `random k n` is the k-th draw of `Int64N(n)`. The fields `Now` and `Int64N` are functions in the
-- source; `now` is the time that the clock shows while a handler runs.
pub record Runtime : Type 0 where
  pub manual : Bool
  pub now : ℕ
  pub random : ℕ → ℕ → ℕ

-- `channels` counts the channels made, `outcomes` holds what was sent on them and not yet read,
-- `draws` counts the random numbers drawn, and `panicked` says that a read out of range has ended
-- the process, after which the other fields mean nothing. The context, the wait group and the
-- transport are not modelled; `wake` says which replicators have been woken.
pub record Node : Type 0 where
  pub cfg : Config
  pub peers : Dict Text Peer
  pub store : Store
  pub machine : Machine
  pub role : Role
  pub leader : Text
  pub applied : ℕ
  pub next : Dict Text ℕ
  pub match : Dict Text ℕ
  pub wake : Dict Text Bool
  pub pending : Dict ℕ Waiter
  pub deadline : ℕ
  pub failed : Option Store.Error
  pub closed : Bool
  pub runtime : Runtime
  pub draws : ℕ
  pub outbox : List Message
  pub busy : Dict Text ℕ
  pub votes : Dict Text Bool
  pub sequence : ℕ
  pub paused : Bool
  pub events : Buffer
  pub boot_id : Text
  pub channels : ℕ
  pub outcomes : List (ℕ × Outcome)
  pub panicked : Bool

abbrev pub is_leader : Role → Bool
is_leader leader = true
is_leader _ = false

abbrev pub is_follower : Role → Bool
is_follower follower = true
is_follower _ = false

abbrev pub is_candidate : Role → Bool
is_candidate candidate = true
is_candidate _ = false

abbrev pub no_peer : Peer
no_peer = record { id = []; peer_url = []; client_url = [] }

abbrev pub last_locked : Node → ℕ
last_locked n = Store.last_index n.store.state

abbrev pub entry_locked : Node → ℕ → Entry
entry_locked n index = Store.entry_at n.store.state index

unfoldable pub available : Node → Bool
available n = not n.closed && not n.paused && is_none n.failed

unfoldable pub member : Node → Text → Text → Bool
member n id cluster =
    not (is_none (get n.peers id)) && not (text_eq id n.cfg.id) && text_eq cluster n.cfg.cluster_id

unfoldable pub reset_timer : Node → Node
reset_timer n = record n {
  deadline =
      n.runtime.now
      + (n.cfg.election_min + n.runtime.random n.draws (n.cfg.election_max - n.cfg.election_min));
  draws = n.draws + 1;
}

unfoldable pub emit : Node → Text → ℕ → Text → Text → Node
emit n kind index peer message = record n {
  events = publish n.events (record {
    id = 0;
    time = n.runtime.now;
    node_id = n.cfg.id;
    kind = kind;
    term = n.store.state.term;
    index = index;
    peer = peer;
    message_id = message;
    detail = [];
  });
}

unfoldable pub leader_error : Node → NodeError
leader_error n = not_leader n.leader (read n.peers n.leader no_peer).client_url

unfoldable pub failures : NodeError → Dict ℕ Waiter → List (ℕ × Outcome)
failures error [] = []
failures error ((index, w) ∷ rest) =
    (w.done, record { result = no_result; error = some error }) ∷ failures error rest

unfoldable pub fail_pending : Node → NodeError → Node
unfolding failures
fail_pending n error = record n { outcomes = n.outcomes ++ failures error n.pending; pending = [] }

-- the error branch of `persistLocked`
unfoldable pub fail_storage : Node → Store.Error → Node
unfolding emit fail_pending
fail_storage n e =
    let n = emit (record n { failed = some e }) (bytes "DISK_ERROR") 0 [] [] in
    fail_pending (record n { role = follower; leader = [] }) unavailable

-- `persistLocked`
unfoldable pub persist : Node → ℕ → Text → ℕ → ℕ → List Entry → Node × Bool
unfolding fail_storage
persist n term vote commit from entries =
    let (store, error) = save n.store term vote commit from entries in
    elim error [
      | none ↦ (record n { store = store }, true)
      | some e ↦ (fail_storage (record n { store = store }) e, false)
    ]

-- the rest of `stepDownLocked`, once the term is durable
pub become_follower : Node → Bool → Text → Node
unfolding emit fail_pending leader_error
become_follower n changed id =
    let n = record n { role = follower; leader = id } in
    let n = if changed then emit n (bytes "STEPPED_DOWN") 0 id [] else n in
    fail_pending n (leader_error n)

unfoldable pub step_down : Node → ℕ → Text → Node × Bool
unfolding become_follower
step_down n term id =
    let changed = not (is_follower n.role) || ltb n.store.state.term term in
    let (n, durable) =
      if ltb n.store.state.term term
      then persist n term [] n.store.state.commit 0 []
      else (n, true) in
    if durable then (become_follower n changed id, true) else (n, false)
