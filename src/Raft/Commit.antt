-- ===== src/Raft/Commit.antt =====
-- internal/raft/node.go: applying committed entries, compaction and the commit index.
pub mod Replay
pub mod Answers
pub mod Applying
pub mod Compacting
pub mod Effects
pub mod Roles
pub mod Keeping
pub mod Holding
pub mod Quorum
use shard_zero.Prelude.{
  ℕ, zero, suc, ◌+◌, ◌-◌, ◌/◌, Bool, true, ◌&&◌, ◌||◌, not, Option, none, some, [], ◌∷◌, ◌++◌, Text,
  bytes, text_eq, length, ltb, leb, ◌==◌, if◌then◌else◌,
}
use shard_zero.Prelude.Dict.{Dict, text_key, nat_key, get, remove, read}
use shard_zero.StateMachine.{Command, Machine, no_result, apply, get_value, snapshot}
use shard_zero.Raft.Types.{Peer}
use shard_zero.Raft.Store
use shard_zero.Raft.Store.{Durable, entry_at, last_index, checkpoint}
use shard_zero.Raft.Node.{
  Node, Outcome, Waiter, follower, unavailable, refused, available, is_leader, last_locked,
  entry_locked, emit, fail_pending, persist,
}
use shard_zero.Raft.Replication.{kick}

-- `machine.Apply` on the command of an entry; a barrier leaves the zero outcome.
unfoldable pub run_entry : Machine → Option Command → Machine × Outcome
run_entry m none = (m, record { result = no_result; error = none })
run_entry m (some c) =
    let (m', result, error) = apply m c in
    (m', record { result = result; error = elim error [ none ↦ none | some e ↦ some (refused e) ] })

-- A waiting read gets the value of its key as the entry leaves it.
unfoldable pub with_read : Machine → Option Text → Outcome → Outcome
with_read m none out = out
with_read m (some key) out =
    let (value, found) = get_value m key in
    record out { result = record (out.result) { value = value; found = found } }

unfoldable pub answer_waiter : Node → ℕ → Option Waiter → Outcome → Node
unfolding with_read
answer_waiter n index none out = n
answer_waiter n index (some w) out = record n {
  outcomes = n.outcomes ++ ((w.done, with_read n.machine w.read_key out) ∷ []);
  pending = remove n.pending index;
}

-- One round of the loop of `applyLocked`.
unfoldable pub apply_entry : Node → Node
unfolding run_entry answer_waiter emit
apply_entry n =
    let n = record n { applied = n.applied + 1 } in
    let e = entry_locked n n.applied in
    let n = emit n (bytes "APPLIED") n.applied [] [] in
    let (m, out) = run_entry n.machine e.command in
    answer_waiter (record n { machine = m }) n.applied (get n.pending n.applied) out

-- The loop: `commit - applied` rounds.
unfoldable pub apply_entries : ℕ → Node → Node
apply_entries zero n = n
apply_entries (suc rounds) n = apply_entries rounds (apply_entry n)

-- Every other member has acknowledged what is committed.
pub others_have : Dict Text Peer → Text → Dict Text ℕ → ℕ → Bool
others_have [] id matched commit = true
others_have ((p, _) ∷ peers) id matched commit =
    (text_eq p id || leb commit (read matched p 0)) && others_have peers id matched commit

-- the error branch of `maybeSnapshotLocked`
pub fail_snapshot : Node → Store.Error → Node
unfolding emit fail_pending
fail_snapshot n e =
    let n = fail_pending (record n { failed = some e; role = follower; leader = [] }) unavailable in
    emit n (bytes "DISK_ERROR") 0 [] []

-- the end of `maybeSnapshotLocked`
pub finish_snapshot : Node → Store.Store × Option Store.Error → Node
unfolding fail_snapshot emit
finish_snapshot n (store, some e) = fail_snapshot (record n { store = store }) e
finish_snapshot n (store, none) =
    emit (record n { store = store }) (bytes "SNAPSHOT_CREATED") store.state.base [] []

unfoldable pub maybe_snapshot : Node → Node
unfolding others_have finish_snapshot
maybe_snapshot n =
    let s = n.store.state in
    if n.cfg.snapshot_every == 0
      || ltb (s.commit - s.base) n.cfg.snapshot_every
      || not (is_leader n.role)
    then n
    else if not (others_have n.peers n.cfg.id n.match s.commit)
    then n
    else finish_snapshot n (checkpoint n.store (snapshot n.machine) s.commit)

-- `applyLocked`
unfoldable pub apply_locked : Node → Node
apply_locked n = maybe_snapshot (apply_entries (n.store.state.commit - n.applied) n)

-- The other members that have acknowledged `index`.
unfoldable pub acks : Dict Text Peer → Text → Dict Text ℕ → ℕ → ℕ
acks [] id matched index = 0
acks ((p, _) ∷ peers) id matched index =
    let rest = acks peers id matched index in
    if not (text_eq p id) && leb index (read matched p 0) then suc rest else rest

-- More than half of the members have acknowledged `index`, the leader included.
unfoldable pub has_quorum : Node → ℕ → Bool
has_quorum n index = ltb (length n.peers / 2) (1 + acks n.peers n.cfg.id n.match index)

-- The loop of `advanceCommitLocked` over the `count` indexes above the commit index, the last first.
unfoldable pub commit_candidate : Node → ℕ → Option ℕ
unfolding has_quorum
commit_candidate n zero = none
commit_candidate n (suc count) =
    let index = n.store.state.commit + suc count in
    let rest = commit_candidate n count in
    if not ((entry_locked n index).term == n.store.state.term)
    then rest
    else if has_quorum n index
    then some index
    else rest

pub commit_to : Node → ℕ → Node
unfolding emit
commit_to n index =
    let (n, durable) = persist n n.store.state.term n.store.state.vote index 0 [] in
    if durable then kick (apply_locked (emit n (bytes "COMMITTED") index [] [])) else n

pub commit_found : Node → Option ℕ → Node
unfolding commit_to
commit_found n none = n
commit_found n (some index) = commit_to n index

-- `advanceCommitLocked`
unfoldable pub advance_commit : Node → Node
unfolding commit_found available
advance_commit n =
    if not (is_leader n.role) || not (available n)
    then n
    else commit_found n (commit_candidate n (last_locked n - n.store.state.commit))
