-- ===== src/Raft/Commit/Keeping.antt =====
-- internal/raft/node.go: applying and compacting keep the commit index and the role.
use shard_zero.Prelude.{
  ◌∙◌, ap, ℕ, zero, suc, ◌-◌, ◌≡◌, refl, Bool, true, false, Option, none, some, arith, inl, inr,
  if◌then◌else◌,
}
use shard_zero.Prelude.Dict.{nat_key}
use shard_zero.StateMachine.{snapshot}
use shard_zero.Raft.Store
use shard_zero.Raft.Store.{Store, checkpoint, last_index}
use shard_zero.Raft.Store.Compaction.{checkpoint_outcome}
use shard_zero.Raft.Node.{is_leader, Node}
use shard_zero.Raft.Node.Effects.{IsReady, IsSound}
use shard_zero.Raft.Commit.{
  apply_entry, apply_entries, finish_snapshot, maybe_snapshot, apply_locked,
}
use shard_zero.Raft.Commit.Compacting.{snapshot_store, Same-fail_snapshot}
use shard_zero.Raft.Commit.Effects.{apply_entry-Applies, apply_entries-step}

state-apply_entries : (rounds : ℕ) (n : Node) → (apply_entries rounds n).store.state ≡ n.store.state
unfolding apply_entries
state-apply_entries zero n = refl
state-apply_entries (suc rounds) n =
    state-apply_entries rounds (apply_entry n) ∙ (apply_entry-Applies n).state

state-finish_snapshot :
    (n : Node) (store : Store) (error : Option Store.Error)
    → (finish_snapshot n (store, error)).store.state ≡ store.state
unfolding finish_snapshot
state-finish_snapshot n store none = refl
state-finish_snapshot n store (some e) = (Same-fail_snapshot (record n { store = store }) e).state

commit-snapshot_store :
    (n : Node) → IsSound n → (snapshot_store n).0.state.commit ≡ n.store.state.commit
commit-snapshot_store n s =
    elim (checkpoint_outcome n.store (snapshot n.machine) n.store.state.commit s.ready.log) [
      | inl (ok, c, l, kept) ↦ c.commit
      | inr (bad, same, kept) ↦ rw same
    ]

record SameCommit (n m : Node) : Type 0 where
  commit : m.store.state.commit ≡ n.store.state.commit

SameCommit-if :
    {n m k : Node} (b : Bool) → SameCommit n m → SameCommit n k → SameCommit n (if b then m else k)
SameCommit-if true p q = p
SameCommit-if false p q = q

SameCommit-refl : (n : Node) → SameCommit n n
SameCommit-refl n = record { commit = refl }

SameCommit-finish_snapshot :
    (n : Node) → IsSound n → SameCommit n (finish_snapshot n (snapshot_store n))
SameCommit-finish_snapshot n s = record {
  commit =
      ap (λ (d : Store.Durable). d.commit)
        (state-finish_snapshot n (snapshot_store n).0 (snapshot_store n).1)
      ∙ commit-snapshot_store n s;
}

SameCommit-maybe_snapshot : (n : Node) → IsSound n → SameCommit n (maybe_snapshot n)
unfolding maybe_snapshot
SameCommit-maybe_snapshot n s =
    SameCommit-if _ (SameCommit-refl n)
      (SameCommit-if _ (SameCommit-refl n) (SameCommit-finish_snapshot n s))

-- Applying what is committed commits nothing more.
pub commit-apply_locked :
    (n : Node) → IsReady n → (apply_locked n).store.state.commit ≡ n.store.state.commit
unfolding apply_locked
commit-apply_locked n r =
    let rounds = n.store.state.commit - n.applied in
    let (x, sound) = apply_entries-step rounds n (omega (arith, r.committed)) r in
    (SameCommit-maybe_snapshot (apply_entries rounds n) sound).commit
    ∙ ap (λ (d : Store.Durable). d.commit) (state-apply_entries rounds n)

role-apply_entries : (rounds : ℕ) (n : Node) → (apply_entries rounds n).role ≡ n.role
unfolding apply_entries
role-apply_entries zero n = refl
role-apply_entries (suc rounds) n =
    role-apply_entries rounds (apply_entry n) ∙ (apply_entry-Applies n).role

maybe_snapshot_follower : (n : Node) → is_leader n.role ≡ false → maybe_snapshot n ≡ n
unfolding maybe_snapshot
maybe_snapshot_follower n f = ground (arith, f)

-- A follower that applies what is committed keeps its durable state.
pub state-apply_locked_follower :
    (n : Node) → is_leader n.role ≡ false → (apply_locked n).store.state ≡ n.store.state
unfolding apply_locked
state-apply_locked_follower n f =
    let rounds = n.store.state.commit - n.applied in
    ap (λ (m : Node). m.store.state)
      (maybe_snapshot_follower (apply_entries rounds n)
        (ap is_leader (role-apply_entries rounds n) ∙ f))
    ∙ state-apply_entries rounds n
