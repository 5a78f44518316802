-- ===== src/Raft/Open/Soundness.antt =====
-- internal/raft/node.go, OpenWithRuntime: a node that opens is sound.
use shard_zero.Prelude.{
  ◌≡◌, refl, subst, Bool, ◌&&◌, ◌||◌, not, List, [], arith, Text, text_eq, is_none, Attempt, done,
  failed,
}
use shard_zero.Prelude.Dict.{Dict, text_key, get}
use shard_zero.Raft.Types.{Peer, Config}
use shard_zero.Raft.Store
use shard_zero.Raft.Store.{Durable, Store, open_store, empty_state}
use shard_zero.Raft.Store.Recalling.{RecallsOn}
use shard_zero.Raft.Store.Reopening.{open_store-Recalls}
use shard_zero.Raft.Store.Journal.{Wal}
use shard_zero.Raft.Store.Recovery.{open_store-IsLog}
use shard_zero.Raft.Node.{Node, Runtime}
use shard_zero.Raft.Node.Effects.{IsSound}
use shard_zero.Raft.Open.{
  OpenError, missing_names, bad_timeouts, not_a_member, bad_fixed_leader, open_checked, open_node,
  with_defaults, timeouts_ok, add_peers, sorted_ids,
}
use shard_zero.Raft.Open.Beginning.{Begins, Opens, refuses, opens, guard-Opens}
use shard_zero.Raft.Open.Restoring.{Restores, open_members-Opens}

open_checked-Opens :
    {before : Durable} (cfg : Config) (runtime : Runtime) (a : Attempt Store Store.Error)
    (p : Attempt (Dict Text Peer) OpenError)
    → ((s : Store) → a ≡ done s → Restores before s)
    → Opens before (open_checked cfg runtime a p)
unfolding open_checked
open_checked-Opens cfg runtime a (failed e) h = refuses e
open_checked-Opens cfg runtime a (done peers) h =
    guard-Opens (is_none (get peers cfg.id)) not_a_member _ (
      guard-Opens (not (text_eq cfg.fixed_leader []) && is_none (get peers cfg.fixed_leader))
        bad_fixed_leader _ (open_members-Opens cfg peers runtime a h))

Opens-done :
    {before : Durable} (a : Attempt Node OpenError) (n : Node)
    → a ≡ done n
    → Opens before a
    → Begins before n
Opens-done _ n h (refuses e) = cc
Opens-done {before} _ n h (opens m s) = subst (Begins before) (done-injective m n h) s
  where
    done-injective : (m n : Node) → ◌≡◌ {A = Attempt Node OpenError} (done m) (done n) → m ≡ n
    done-injective m n h = cc

module _ (is_origin : Text → Bool) (identity : Text → Text → List Text → Text → Text) (cfg : Config)
    (has_transport : Bool) (runtime : Runtime) (wal : Wal) where
  -- A node that opens from a journal has begun from it.
  pub open_node-Begins :
      (before : Durable) (n : Node)
      → RecallsOn wal.records before
      → open_node is_origin identity cfg has_transport runtime wal ≡ done n
      → Begins before n
  unfolding open_node
  open_node-Begins before n h k =
      let full = with_defaults cfg in
      let name = identity full.cluster_id full.id (sorted_ids full.peers) full.fixed_leader in
      Opens-done _ n k (
        guard-Opens
          (text_eq cfg.id []
            || text_eq cfg.cluster_id []
            || (not has_transport && not runtime.manual))
          missing_names _
          (guard-Opens (not (timeouts_ok full)) bad_timeouts _ (
            open_checked-Opens full runtime (open_store name wal)
              (add_peers is_origin [] [] full.peers)
              (λ s e.
                let (remembers, recalls) = open_store-Recalls before name wal s h e in
                record {
                  log = open_store-IsLog name wal s e;
                  remembers = remembers;
                  recalls = recalls;
                }))))

  -- Whatever the configuration, the address test, the identity and the records in the journal, a node
  -- that `OpenWithRuntime` returns without an error is sound.
  pub open_node-IsSound :
      (n : Node) → open_node is_origin identity cfg has_transport runtime wal ≡ done n → IsSound n
  open_node-IsSound n h = (open_node-Begins empty_state n nothing h).sound
    where
      -- Every state remembers the empty one.
      nothing : RecallsOn wal.records empty_state
      nothing _ _ t _ = record { term_up = omega arith; one_vote = λ _ voted. absurd (voted refl) }
