-- ===== src/Raft/Open.antt =====
-- internal/raft/node.go, OpenWithRuntime: checking a configuration and starting a node. What
-- `url.Parse` says of an address and the hash of the identity are parameters; a duration is not
-- negative. What the journal's opener finds is a `Wal`; that it may fail to open is not modelled.
pub mod Beginning
pub mod Restoring
pub mod Soundness
mod Tests
use shard_zero.Prelude.{
  ℕ, ◌+◌, ◌*◌, Bool, true, false, ◌&&◌, ◌||◌, not, Option, none, some, List, [], ◌∷◌, ◌++◌, Text,
  bytes, decimal, text_eq, ltb, leb, ◌==◌, if◌then◌else◌, is_none, inc64, Attempt, done, failed,
}
use shard_zero.Prelude.Dict.{Dict, text_key, get, put, read}
use shard_zero.Events
use shard_zero.StateMachine
use shard_zero.StateMachine.{Machine, restore}
use shard_zero.Raft.Types.{Peer, Config}
use shard_zero.Raft.Store
use shard_zero.Raft.Store.{Store, open_store}
use shard_zero.Raft.Store.Journal.{Wal}
use shard_zero.Raft.Node.{Node, Runtime, follower, reset_timer, persist}
use shard_zero.Raft.Commit.{apply_locked}
use shard_zero.Raft.Election.{become_leader}

pub data OpenError : Type 0 where
  missing_names bad_timeouts empty_peer duplicate_peer bad_address duplicate_address : OpenError
  not_a_member bad_fixed_leader : OpenError
  bad_store : Store.Error → OpenError
  bad_snapshot : StateMachine.Error → OpenError

or_default : ℕ → ℕ → ℕ
or_default value otherwise = if value == 0 then otherwise else value

-- The defaults, in nanoseconds.
unfoldable pub with_defaults : Config → Config
unfolding or_default
with_defaults cfg = record cfg {
  heartbeat = or_default cfg.heartbeat 100000000;
  election_min = or_default cfg.election_min 600000000;
  election_max = or_default cfg.election_max 1100000000;
  rpc_timeout = or_default cfg.rpc_timeout 300000000;
  request_timeout = or_default cfg.request_timeout 3000000000;
}

unfoldable pub timeouts_ok : Config → Bool
timeouts_ok cfg = not (
    cfg.heartbeat == 0
    || leb cfg.election_min (2 * cfg.heartbeat)
    || leb cfg.election_max cfg.election_min
    || cfg.rpc_timeout == 0
    || cfg.request_timeout == 0)

-- the loop over the two addresses of a peer
unfoldable pub add_addresses :
    (Text → Bool) → Dict Text Bool → List Text → Attempt (Dict Text Bool) OpenError
add_addresses is_origin seen [] = done seen
add_addresses is_origin seen (a ∷ rest) =
    let next = add_addresses is_origin (put seen a true) rest in
    if not (is_origin a)
    then failed bad_address
    else if read seen a false
    then failed duplicate_address
    else next

-- the loop over the peers
unfoldable pub add_peers :
    (Text → Bool) → Dict Text Peer → Dict Text Bool → List Peer → Attempt (Dict Text Peer) OpenError
add_peers is_origin peers seen [] = done peers
add_peers is_origin peers seen (p ∷ rest) =
    if text_eq p.id []
    then failed empty_peer
    else if not (is_none (get peers p.id))
    then failed duplicate_peer
    else elim (add_addresses is_origin seen (p.peer_url ∷ p.client_url ∷ [])) [
      | failed e ↦ failed e
      | done seen' ↦ add_peers is_origin (put peers p.id p) seen' rest
    ]

-- The order of strings, and `sort.Strings`.
unfoldable pub text_leb : Text → Text → Bool
text_leb [] ys = true
text_leb (x ∷ xs) [] = false
text_leb (x ∷ xs) (y ∷ ys) = ltb x y || (x == y && text_leb xs ys)

insert_text : Text → List Text → List Text
unfolding text_leb
insert_text t [] = t ∷ []
insert_text t (u ∷ us) =
    let rest = insert_text t us in if text_leb t u then t ∷ u ∷ us else u ∷ rest

unfoldable pub sorted_ids : List Peer → List Text
unfolding insert_text
sorted_ids [] = []
sorted_ids (p ∷ peers) = insert_text p.id (sorted_ids peers)

-- The node before anything is applied.
abbrev pub fresh_node : Config → Dict Text Peer → Runtime → Store → Node
fresh_node cfg peers runtime store = record {
  cfg = cfg;
  peers = peers;
  store = store;
  machine = StateMachine.new;
  role = follower;
  leader = [];
  applied = 0;
  next = [];
  match = [];
  wake = [];
  pending = [];
  deadline = 0;
  failed = none;
  closed = false;
  runtime = runtime;
  draws = 0;
  outbox = [];
  busy = [];
  votes = [];
  sequence = 0;
  paused = false;
  events = Events.new 512;
  boot_id = cfg.id ++ (bytes "-" ++ decimal runtime.now);
  channels = 0;
  outcomes = [];
  panicked = false;
}

-- the loop that makes a channel for each other peer
unfoldable pub add_wakes : Text → Dict Text Bool → List Peer → Dict Text Bool
add_wakes id wakes [] = wakes
add_wakes id wakes (p ∷ peers) =
    add_wakes id (if text_eq p.id id then wakes else put wakes p.id false) peers

-- the end: a failure of the disk closes the node again
pub finish_with : Node → Option Store.Error → Attempt Node OpenError
unfolding add_wakes
finish_with n (some e) = failed (bad_store e)
finish_with n none =
    done (if n.runtime.manual then n else record n { wake = add_wakes n.cfg.id n.wake n.cfg.peers })

unfoldable pub finish_open : Node → Attempt Node OpenError
unfolding finish_with
finish_open n = finish_with n n.failed

pub lead_fixed : Node → Bool → Node
lead_fixed n durable = if durable then become_leader n else n

-- The fixed leader starts a term. Where its term cannot be stored `failed` is set, which
-- `finish_open` reports.
unfoldable pub start_fixed : Node → Node
unfolding lead_fixed
start_fixed n =
    let (m, durable) = persist n (inc64 n.store.state.term) n.cfg.id n.store.state.commit 0 [] in
    if text_eq n.cfg.fixed_leader n.cfg.id then lead_fixed m durable else n

-- From the replay of the committed entries on.
unfoldable pub begin : Node → Attempt Node OpenError
unfolding finish_open start_fixed reset_timer
begin n = finish_open (start_fixed (reset_timer (apply_locked n)))

unfoldable pub begin_restored : Node → Machine × Option StateMachine.Error → Attempt Node OpenError
unfolding begin
begin_restored n (m, some e) = failed (bad_snapshot e)
begin_restored n (m, none) = begin (record n { machine = m; applied = n.store.state.base })

unfoldable pub start_node : Node → Attempt Node OpenError
unfolding begin_restored
start_node n =
    if n.store.state.base == 0
    then begin n
    else begin_restored n (restore n.machine n.store.snapshot)

unfoldable pub open_members :
    Config → Runtime → Attempt Store Store.Error → Dict Text Peer → Attempt Node OpenError
unfolding start_node
open_members cfg runtime (failed e) peers = failed (bad_store e)
open_members cfg runtime (done store) peers = start_node (fresh_node cfg peers runtime store)

-- the checks on the members
unfoldable pub open_checked :
    Config
    → Runtime
    → Attempt Store Store.Error
    → Attempt (Dict Text Peer) OpenError
    → Attempt Node OpenError
unfolding open_members
open_checked cfg runtime store (failed e) = failed e
open_checked cfg runtime store (done peers) =
    if is_none (get peers cfg.id)
    then failed not_a_member
    else if not (text_eq cfg.fixed_leader []) && is_none (get peers cfg.fixed_leader)
    then failed bad_fixed_leader
    else open_members cfg runtime store peers

-- `OpenWithRuntime`
module _ (is_origin : Text → Bool) (identity : Text → Text → List Text → Text → Text) where
  unfoldable pub open_node : Config → Bool → Runtime → Wal → Attempt Node OpenError
  unfolding with_defaults timeouts_ok add_peers open_checked
  open_node given has_transport runtime wal =
      let cfg = with_defaults given in
      let store =
        open_store (identity cfg.cluster_id cfg.id (sorted_ids cfg.peers) cfg.fixed_leader) wal in
      if text_eq given.id []
        || text_eq given.cluster_id []
        || (not has_transport && not runtime.manual)
      then failed missing_names
      else if not (timeouts_ok cfg)
      then failed bad_timeouts
      else open_checked cfg runtime store (add_peers is_origin [] [] cfg.peers)
