-- ===== src/Raft/Commit/Roles.antt =====
-- internal/raft/node.go: committing and applying elect nobody.
use shard_zero.Prelude.{
  ℕ, zero, suc, ◌+◌, ◌-◌, ◌≡◌, refl, not, ◌||◌, Option, none, some, [], ◌∷◌, leb, ltb, inl, inr,
  Bool-cases, Option-cases,
}
use shard_zero.Prelude.Dict.{nat_key, get}
use shard_zero.StateMachine.{Snapshot, snapshot}
use shard_zero.Raft.Store
use shard_zero.Raft.Store.{Store, checkpoint, checkpoint_record, validate, last_index, accept}
use shard_zero.Raft.Store.Journal.{replace_records}
use shard_zero.Raft.Node.{Node, Waiter, Outcome, emit, fail_pending, last_locked}
use shard_zero.Raft.Node.Roles.{
  Humble, follows, as_before, Humble-refl, Humble-trans, Humble-if, persist-Humble,
}
use shard_zero.Raft.Replication.Roles.{kick-Humble}
use shard_zero.Raft.Commit.{
  answer_waiter, apply_entry, apply_entries, finish_snapshot, fail_snapshot, maybe_snapshot,
  apply_locked, commit_to, commit_found, commit_candidate, advance_commit,
}

answer_waiter-Humble :
    (n : Node) (index : ℕ) (w : Option Waiter) (out : Outcome)
    → Humble n (answer_waiter n index w out)
unfolding answer_waiter
answer_waiter-Humble n index none out = Humble-refl n
answer_waiter-Humble n index (some w) out = as_before refl refl refl

apply_entry-Humble : (n : Node) → Humble n (apply_entry n)
unfolding apply_entry
apply_entry-Humble n =
    Humble-trans (as_before refl refl refl)
      (answer_waiter-Humble _ _ (get n.pending (n.applied + 1)) _)

apply_entries-Humble : (rounds : ℕ) (n : Node) → Humble n (apply_entries rounds n)
unfolding apply_entries
apply_entries-Humble zero n = Humble-refl n
apply_entries-Humble (suc rounds) n =
    Humble-trans (apply_entry-Humble n) (apply_entries-Humble rounds (apply_entry n))

-- A checkpoint has the term of the store.
term-checkpoint :
    (s : Store) (machine : Snapshot) (index : ℕ)
    → (checkpoint s machine index).0.state.term ≡ s.state.term
unfolding checkpoint accept
term-checkpoint s machine index =
    elim (Bool-cases
      (leb index s.state.base || ltb s.state.commit index || ltb (last_index s.state) index)) [
        | inl bad ↦ rw bad refl
        | inr good ↦
            rw good
              (elim (Option-cases
                (validate s.identity s.state (checkpoint_record s machine index))) [
                  | inr (e, bad) ↦ rw (bad, checkpoint) refl
                  | inl valid ↦
                      rw (valid, checkpoint)
                        (elim (Bool-cases (not s.wal.compacts)) [
                          | inl fixed ↦ rw fixed refl
                          | inr can ↦
                              rw can
                                (elim (Bool-cases
                                  (replace_records s.wal
                                    (checkpoint_record s machine index ∷ [])).1) [
                                      | inl stored ↦ rw stored refl
                                      | inr lost ↦ rw lost refl
                                    ])
                        ])
                ])
      ]

finish_snapshot-Humble :
    (n : Node) (r : Store × Option Store.Error)
    → r.0.state.term ≡ n.store.state.term
    → Humble n (finish_snapshot n r)
unfolding finish_snapshot fail_snapshot emit fail_pending
finish_snapshot-Humble n (store, some e) h = follows refl
finish_snapshot-Humble n (store, none) h = as_before refl refl h

pub maybe_snapshot-Humble : (n : Node) → Humble n (maybe_snapshot n)
unfolding maybe_snapshot
maybe_snapshot-Humble n = Humble-if _ (Humble-refl n) (
    Humble-if _ (Humble-refl n) (
      finish_snapshot-Humble n (checkpoint n.store (snapshot n.machine) n.store.state.commit)
        (term-checkpoint n.store (snapshot n.machine) n.store.state.commit)))

pub apply_locked-Humble : (n : Node) → Humble n (apply_locked n)
unfolding apply_locked
apply_locked-Humble n =
    Humble-trans (apply_entries-Humble (n.store.state.commit - n.applied) n)
      (maybe_snapshot-Humble _)

commit_to-Humble : (n : Node) (index : ℕ) → Humble n (commit_to n index)
unfolding commit_to
commit_to-Humble n index =
    Humble-if _
      (Humble-trans (persist-Humble n _ n.store.state.vote index 0 [] refl) (
        Humble-trans (as_before refl refl refl)
          (Humble-trans (apply_locked-Humble _) (kick-Humble _))))
      (persist-Humble n _ n.store.state.vote index 0 [] refl)

commit_found-Humble : (n : Node) (o : Option ℕ) → Humble n (commit_found n o)
unfolding commit_found
commit_found-Humble n none = Humble-refl n
commit_found-Humble n (some index) = commit_to-Humble n index

pub advance_commit-Humble : (n : Node) → Humble n (advance_commit n)
unfolding advance_commit
advance_commit-Humble n =
    Humble-if _ (Humble-refl n)
      (commit_found-Humble n (commit_candidate n (last_locked n - n.store.state.commit)))
