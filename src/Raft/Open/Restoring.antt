-- ===== src/Raft/Open/Restoring.antt =====
-- internal/raft/node.go, OpenWithRuntime: a node takes the state and the snapshot of its store.
use shard_zero.Prelude.{
  ◌-◌, ◌≡◌, refl, sym, ap, ◌∙◌, true, false, Option, none, some, arith, Text, ◌==◌, Attempt, done,
  failed, Bool-cases, inl, inr,
}
use shard_zero.Prelude.Dict.{Dict, text_key}
use shard_zero.StateMachine
use shard_zero.StateMachine.{Machine, Snapshot, restore}
use shard_zero.StateMachine.Invariant
use shard_zero.StateMachine.Snapshots.{restore-IsValid}
use shard_zero.Raft.Types.{Peer, Config}
use shard_zero.Raft.Store
use shard_zero.Raft.Store.{Durable, Store, open_store, empty_state}
use shard_zero.Raft.Store.Recalling.{Remembers, Recalls}
use shard_zero.Raft.Store.Shape.{IsLog}
use shard_zero.Raft.Node.{Node, Runtime}
use shard_zero.Raft.Node.Effects.{IsReady}
use shard_zero.Raft.Commit.Replay.{base_machine, replay_log}
use shard_zero.Raft.Open.{fresh_node, begin_restored, start_node, open_members}
use shard_zero.Raft.Open.Beginning.{Opens, refuses, Prepared, begin-Opens}

-- A machine restored from the snapshot of the store is ready at the base.
restored-IsReady :
    (n : Node)
    → IsLog n.store.state
    → (n.store.state.base == 0) ≡ false
    → (restore StateMachine.new n.store.snapshot).1 ≡ none
    → IsReady (record n {
      machine = (restore StateMachine.new n.store.snapshot).0;
      applied = n.store.state.base;
    })
unfolding replay_log
restored-IsReady n l moved ok = record {
  log = l;
  above_base = omega arith;
  committed = l.base_committed;
  machine = elim (restore-IsValid StateMachine.new n.store.snapshot) [
    | inl (_, v) ↦ v
    | inr (bad, _) ↦ absurd (bad ok)
  ];
  replayed =
      let nothing_applied : n.store.state.base - n.store.state.base ≡ 0 = omega arith in
      sym (
        ap (replay_log (base_machine n.store.state.base n.store.snapshot) n.store.state)
          nothing_applied
        ∙ rw moved);
}

begin_restored-Opens :
    {before : Durable} (n : Node) (p : Machine × Option StateMachine.Error)
    → (p.1 ≡ none → Prepared before (record n { machine = p.0; applied = n.store.state.base }))
    → Opens before (begin_restored n p)
unfolding begin_restored
begin_restored-Opens n (m, some e) r = refuses _
begin_restored-Opens n (m, none) r = begin-Opens _ (r refl)

pub new-IsReady :
    (n : Node)
    → IsLog n.store.state
    → (n.store.state.base == 0) ≡ true
    → n.machine ≡ StateMachine.new
    → n.applied ≡ 0
    → IsReady n
unfolding replay_log
new-IsReady n l at_zero fresh start = record {
  log = l;
  above_base = ground (arith, at_zero);
  committed = omega (arith, start);
  machine = rw fresh Invariant.new-IsValid;
  replayed =
      let nothing_applied : n.applied - n.store.state.base ≡ 0 = omega (arith, start) in
      fresh
      ∙ sym (
          ap (replay_log (base_machine n.store.state.base n.store.snapshot) n.store.state)
            nothing_applied
          ∙ rw at_zero);
}

-- A store that opens: its log has its shape, it remembers, and its journal recalls it.
pub record Restores (before : Durable) (s : Store) : Type 0 where
  pub log : IsLog s.state
  pub remembers : Remembers before s.state
  pub recalls : Recalls s

module _ {before : Durable} (cfg : Config) (peers : Dict Text Peer) (runtime : Runtime) where
  start_node-Opens :
      (store : Store)
      → Restores before store
      → Opens before (start_node (fresh_node cfg peers runtime store))
  unfolding start_node
  start_node-Opens store h = elim (Bool-cases (store.state.base == 0)) [
    | inl at_zero ↦ rw at_zero (
        begin-Opens (fresh_node cfg peers runtime store) (record {
          ready = new-IsReady (fresh_node cfg peers runtime store) h.log at_zero refl refl;
          following = refl;
          remembers = h.remembers;
          recalls = h.recalls;
        }))
    | inr moved ↦ rw moved (
        begin_restored-Opens (fresh_node cfg peers runtime store)
          (restore StateMachine.new store.snapshot)
          (λ ok. record {
            ready = restored-IsReady (fresh_node cfg peers runtime store) h.log moved ok;
            following = refl;
            remembers = h.remembers;
            recalls = h.recalls;
          }))
  ]

  pub open_members-Opens :
      (a : Attempt Store Store.Error)
      → ((s : Store) → a ≡ done s → Restores before s)
      → Opens before (open_members cfg runtime a peers)
  unfolding open_members
  open_members-Opens (failed e) h = refuses _
  open_members-Opens (done store) h = start_node-Opens store (h store refl)
