-- ===== src/Raft/Replication.antt =====
-- internal/raft/rpc.go and runtime.go: what a leader sends.
pub mod Effects
pub mod Roles
pub mod Batches
use shard_zero.Prelude.{
  ℕ, zero, suc, ◌+◌, ◌-◌, ◌*◌, min, max, Bool, true, ◌&&◌, ◌||◌, not, Option, none, some, List, [],
  ◌∷◌, ◌++◌, Text, bytes, decimal, text_eq, length, ltb, leb, ◌==◌, if◌then◌else◌, inc64,
}
use shard_zero.Prelude.Dict.{Dict, text_key, put, read}
use shard_zero.StateMachine.{Command}
use shard_zero.Raft.Types.{Peer, Entry, AppendRequest}
use shard_zero.Raft.Store.{Durable, entry_at, last_index}
use shard_zero.Raft.Node.{Node, available, is_leader, last_locked, emit}

-- The size that a command counts for: 1024, and six bytes for each byte of text.
abbrev entry_size : Option Command → ℕ
entry_size none = 1024
entry_size (some c) =
    1024 + 6 * (length c.key + length c.value + length c.expected + length c.client_id)

-- The batching loop of `prepareAppendLocked`: the end of the batch, or `none` where a read below the
-- base ends the process. It makes at most 32 rounds.
unfoldable pub batch_end : ℕ → Durable → ℕ → ℕ → ℕ → Option ℕ
batch_end zero s next end size = some end
batch_end (suc fuel) s next end size =
    let size' = size + entry_size (entry_at s end).command in
    let rest = batch_end fuel s next (end + 1) size' in
    if leb end (last_index s) && ltb (end - next) 32
    then (if ltb end s.base then none else if ltb 15728640 size' then some end else rest)
    else some end

-- Entries `next`, `next + 1`, ...
unfoldable pub entries_from : Durable → ℕ → ℕ → List Entry
entries_from s next zero = []
entries_from s next (suc count) = entry_at s next ∷ entries_from s (next + 1) count

-- The index to send from, before the clamp to the base.
unfoldable pub first_to_send : Node → Peer → ℕ
first_to_send n peer = min (max 1 (read n.next peer.id 0)) (last_locked n + 1)

-- The batch `next` to `end`; the clamp comes after the batching loop, and a batch that ends before
-- it starts is a slice of negative capacity, which ends the process.
pub append_request : Node → ℕ → ℕ → Option AppendRequest
unfolding entries_from
append_request n next end =
    let s = n.store.state in
    let prev = if ltb (next - 1) s.base then s.base else next - 1 in
    let next = if ltb (next - 1) s.base then s.base + 1 else next in
    if ltb end next
    then none
    else some (record {
      message_id = n.boot_id ++ (bytes "/" ++ decimal (inc64 n.sequence));
      cluster_id = n.cfg.cluster_id;
      term = s.term;
      leader_id = n.cfg.id;
      prev_log_index = prev;
      prev_log_term = (entry_at s prev).term;
      entries = entries_from s next (end - next);
      leader_commit = s.commit;
    })

unfoldable pub prepare_request : Node → Peer → Option AppendRequest
unfolding append_request first_to_send
prepare_request n peer =
    let next = first_to_send n peer in
    elim (batch_end 33 n.store.state next next 1024) [
      | none ↦ none
      | some end ↦ append_request n next end
    ]

-- `prepareAppendLocked`; `none` where it panics
unfoldable pub prepare_append : Node → Peer → Option (Node × AppendRequest)
unfolding emit
prepare_append n peer = elim (prepare_request n peer) [
  | none ↦ none
  | some req ↦ some (
    emit (record n { sequence = inc64 n.sequence }) (bytes "APPEND_SENT")
        (req.prev_log_index + length req.entries) peer.id req.message_id,
    req,
  )
]

pub started : Node → Option (Node × AppendRequest) → Node × Option AppendRequest
started n none = (record n { panicked = true }, none)
started n (some (m, req)) = (m, some req)

-- `replicateOnce` up to its call of the network; `acceptAppendLocked` follows the call.
unfoldable pub start_replication : Node → Peer → Node × Option AppendRequest
unfolding available started
start_replication n peer =
    if not (available n) || not (is_leader n.role)
    then (n, none)
    else started n (prepare_append n peer)

unfoldable pub queue_append : Node → Peer → Node
unfolding available
queue_append n peer =
    if not (read n.busy peer.id 0 == 0) || not (available n) || not (is_leader n.role)
    then n
    else elim (prepare_append n peer) [
      | none ↦ record n { panicked = true }
      | some (n, req) ↦ record n {
        busy = put n.busy peer.id n.sequence;
        outbox =
            n.outbox
            ++ (record {
              sequence = n.sequence;
              from = n.cfg.id;
              to = peer.id;
              vote = none;
              append = some req;
            }
                ∷ []);
      }
    ]

unfoldable pub queue_all : Node → List Peer → Node
queue_all n [] = n
queue_all n (p ∷ peers) =
    let rest = queue_all (if text_eq p.id n.cfg.id then n else queue_append n p) peers in rest

wake_all : Dict Text Bool → Dict Text Bool
wake_all [] = []
wake_all ((id, _) ∷ rest) = (id, true) ∷ wake_all rest

-- `kickLocked`
unfoldable pub kick : Node → Node
unfolding wake_all
kick n = if n.runtime.manual then queue_all n n.cfg.peers else record n { wake = wake_all n.wake }
