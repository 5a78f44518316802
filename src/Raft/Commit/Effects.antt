-- ===== src/Raft/Commit/Effects.antt =====
-- internal/raft/node.go: applying and committing keep a node sound.
use shard_zero.Prelude.{
  sym, ◌∙◌, ap, subst, ℕ, zero, suc, ◌+◌, ◌-◌, ◌≡◌, refl, Bool, true, false, Option, none, some, [],
  arith, bytes, inl, if◌then◌else◌,
}
use shard_zero.Prelude.Dict.{get, nat_key}
use shard_zero.StateMachine.{Machine, Command}
use shard_zero.StateMachine.Invariant
use shard_zero.Raft.Commit.Replay.{base_machine, replay_log-suc}
use shard_zero.Raft.Store
use shard_zero.Raft.Store.{Store, checkpoint, last_index}
use shard_zero.Raft.Store.Durability.{Extends-refl}
use shard_zero.Raft.Commit.Applying.{Answering-apply_entry}
use shard_zero.Raft.Node.{Node, Outcome, Waiter, emit}
use shard_zero.Raft.Store.Recalling.{Recalls}
use shard_zero.Raft.Node.Effects.{
  Good-if, IsReady, IsSound, Evolves, Evolves-trans, Good, Good-refl, Same-refl, Same-emit,
  Same-Evolves, Same-IsReady,
}
use shard_zero.Raft.Node.Persisting.{persist-Evolves, persist-IsReady, unstored-IsSound}
use shard_zero.Raft.Replication.{kick}
use shard_zero.Raft.Replication.Effects.{kick-Good}
use shard_zero.Raft.Commit.{
  run_entry, answer_waiter, apply_entry, apply_entries, apply_locked, commit_found, commit_to,
  advance_commit,
}
use shard_zero.Raft.Commit.Compacting.{maybe_snapshot-Good}

run_entry-IsValid :
    (m : Machine) (c : Option Command) → Invariant.IsValid m → Invariant.IsValid (run_entry m c).0
unfolding run_entry
run_entry-IsValid m none v = v
run_entry-IsValid m (some c) v = Invariant.apply-IsValid m c v

-- What an answer leaves.
record Answered (n m : Node) : Type 0 where
  pub role : m.role ≡ n.role
  pub cfg : m.cfg ≡ n.cfg
  pub peers : m.peers ≡ n.peers
  pub store : m.store ≡ n.store
  pub machine : m.machine ≡ n.machine
  pub applied : m.applied ≡ n.applied

Answered-answer_waiter :
    (n : Node) (index : ℕ) (w : Option Waiter) (out : Outcome)
    → Answered n (answer_waiter n index w out)
unfolding answer_waiter
Answered-answer_waiter n index none out = record {
  role = refl;
  cfg = refl;
  peers = refl;
  store = refl;
  machine = refl;
  applied = refl;
}
Answered-answer_waiter n index (some w) out = record {
  role = refl;
  cfg = refl;
  peers = refl;
  store = refl;
  machine = refl;
  applied = refl;
}

-- What one round of the loop changes.
pub record Applies (n m : Node) : Type 0 where
  pub role : m.role ≡ n.role
  pub cfg : m.cfg ≡ n.cfg
  pub peers : m.peers ≡ n.peers
  pub state : m.store.state ≡ n.store.state
  pub applied : m.applied ≡ n.applied + 1
  pub store : m.store ≡ n.store
  pub snapshot : m.store.snapshot ≡ n.store.snapshot
  pub machine :
      m.machine ≡ (run_entry n.machine (Store.entry_at n.store.state (n.applied + 1)).command).0

pub apply_entry-Applies : (n : Node) → Applies n (apply_entry n)
unfolding apply_entry
apply_entry-Applies n =
    let w = Answered-answer_waiter _ _ (get n.pending (n.applied + 1)) _ in
    record {
      role = w.role;
      cfg = w.cfg;
      peers = w.peers;
      state = ap (λ (t : Store). t.state) w.store;
      applied = w.applied;
      store = w.store;
      snapshot = ap (λ (t : Store). t.snapshot) w.store;
      machine = w.machine;
    }

pub apply_entries-step :
    (rounds : ℕ) (n : Node)
    → n.applied + rounds ≡ n.store.state.commit
    → IsReady n
    → Evolves n (apply_entries rounds n) × IsSound (apply_entries rounds n)
unfolding apply_entries
apply_entries-step zero n e r =
    (Same-Evolves (Same-refl n), record { ready = r; caught_up = omega arith })
apply_entries-step (suc rounds) n e r =
    let a = apply_entry-Applies n in
    let now : IsReady (apply_entry n) = record {
      log = rw a.state r.log;
      above_base = rw (a.state, a.applied) (omega (arith, r.above_base));
      committed = rw (a.state, a.applied) (omega arith);
      machine = rw a.machine (run_entry-IsValid n.machine _ r.machine);
      replayed =
          a.machine
          ∙ ap (λ k. (run_entry k (Store.entry_at n.store.state (n.applied + 1)).command).0)
              r.replayed
          ∙ sym (
              replay_log-suc (base_machine n.store.state.base n.store.snapshot) n.store.state
                n.applied r.above_base)
          ∙ sym (rw (a.snapshot, a.state, a.applied));
    } in
    let (x, sound) =
      apply_entries-step rounds (apply_entry n) (rw (a.state, a.applied) (omega arith)) now in
    (
      Evolves-trans
          (record {
            cfg = a.cfg;
            peers = a.peers;
            state = rw a.state (Extends-refl n.store.state);
            applied = rw a.applied (omega arith);
            answering = Answering-apply_entry n (omega (arith, e)) r.replayed;
            recalls = λ h. subst Recalls (sym a.store) h;
          })
          x,
      sound,
    )

-- `applyLocked` takes a ready node to a sound one: it applies all that is committed.
pub apply_locked-IsSound :
    (n : Node) → IsReady n → Evolves n (apply_locked n) × IsSound (apply_locked n)
unfolding apply_locked
apply_locked-IsSound n r =
    let (x, sound) =
      apply_entries-step (n.store.state.commit - n.applied) n (omega (arith, r.committed)) r in
    let (y, sound') =
      maybe_snapshot-Good (apply_entries (n.store.state.commit - n.applied) n) sound in
    (Evolves-trans x y, sound')

committed-Good :
    (n m : Node) (index : ℕ)
    → Evolves n m × IsReady m
    → Evolves n (kick (apply_locked (emit m (bytes "COMMITTED") index [] [])))
      × IsSound (kick (apply_locked (emit m (bytes "COMMITTED") index [] [])))
committed-Good n m index (x, r) =
    let w = Same-emit m (bytes "COMMITTED") index [] [] in
    let (y, sound) = apply_locked-IsSound _ (Same-IsReady w r) in
    let (z, sound') = kick-Good _ sound in
    (Evolves-trans x (Evolves-trans (Same-Evolves w) (Evolves-trans y z)), sound')

commit_branch :
    (n m : Node) (index : ℕ) (durable : Bool)
    → Evolves n m × IsReady m
    → (durable ≡ false → IsSound m)
    → Evolves n
        (if durable then kick (apply_locked (emit m (bytes "COMMITTED") index [] [])) else m)
      × IsSound
          (if durable then kick (apply_locked (emit m (bytes "COMMITTED") index [] [])) else m)
commit_branch n m index true h kept = committed-Good n m index h
commit_branch n m index false h kept = (h.0, kept refl)

commit_to-Good : (n : Node) (index : ℕ) → Good n (commit_to n index)
unfolding commit_to
commit_to-Good n index s =
    commit_branch n _ index _
      (
        persist-Evolves n _ _ index 0 [] s.ready (inl refl),
        persist-IsReady n _ _ index 0 [] s.ready,
      )
      (unstored-IsSound n n.store.state.term n.store.state.vote index 0 [] s)

commit_found-Good : (n : Node) (o : Option ℕ) → Good n (commit_found n o)
unfolding commit_found
commit_found-Good n none = Good-refl n
commit_found-Good n (some index) = commit_to-Good n index

pub advance_commit-Good : (n : Node) → Good n (advance_commit n)
unfolding advance_commit
advance_commit-Good n = Good-if _ (Good-refl n) (commit_found-Good n _)
