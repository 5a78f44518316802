-- ===== src/Raft/Commit/Compacting.antt =====
-- internal/raft/node.go, maybeSnapshotLocked: compacting keeps a node sound.
use shard_zero.Prelude.{
  ◌==◌, ◌<◌, sym, ◌∙◌, ap, subst, ℕ, ◌+◌, ◌-◌, ◌≤◌, ◌≡◌, refl, false, Option, none, some, arith,
  inl, inr,
}
use shard_zero.Prelude.Dict.{nat_key}
use shard_zero.StateMachine.{Machine, Command, snapshot}
use shard_zero.StateMachine
use shard_zero.StateMachine.{Snapshot, restore}
use shard_zero.StateMachine.Invariant
use shard_zero.StateMachine.Snapshots.{restore-snapshot}
use shard_zero.Raft.Commit.Replay.{base_machine, replay_log, replayed, replayed_onward}
use shard_zero.Raft.Store
use shard_zero.Raft.Store.{Store, checkpoint, last_index}
use shard_zero.Raft.Store.Compaction.{Compacts, checkpoint_outcome}
use shard_zero.Raft.Store.Durability.{Extends}
use shard_zero.Raft.Commit.Answers.{Answering-kept, Answering-lapse, Answering-still}
use shard_zero.Raft.Node.{Node, unavailable}
use shard_zero.Raft.Store.Recalling.{checkpoint-Recalls}
use shard_zero.Raft.Node.Effects.{
  Same-kept, Good-if, IsSound, Good, Good-trans, Good-refl, Same, Same-Good,
}
use shard_zero.Raft.Commit.{fail_snapshot, finish_snapshot, maybe_snapshot}

pub Same-fail_snapshot : (n : Node) (e : Store.Error) → Same n (fail_snapshot n e)
unfolding fail_snapshot
Same-fail_snapshot n e = record {
  cfg = refl;
  peers = refl;
  state = refl;
  snapshot = refl;
  machine = refl;
  applied = refl;
  answering = Answering-lapse unavailable (inl refl) refl refl refl refl;
  recalls = λ h. h;
}

-- Compaction keeps the durable state but for the entries that it drops.
Compacts-Extends :
    (s t : Store.Durable) (index : ℕ) → s.base ≤ index → Compacts s index t → Extends s t
Compacts-Extends s t index lo c = record {
  term_up = omega (arith, c.term);
  commit_up = omega (arith, c.commit);
  one_vote = λ _ _. c.vote;
  base_up = omega (arith, c.base);
  committed_kept = λ i lo hi. c.entries i (omega (arith, c.base));
}

abbrev pub snapshot_store : Node → Store × Option Store.Error
snapshot_store n = checkpoint n.store (snapshot n.machine) n.store.state.commit

-- A store whose base is what has been applied, with a snapshot of the machine, gives the machine.
replayed_snapshot :
    (n : Node) (store : Store)
    → Invariant.IsValid n.machine
    → store.snapshot ≡ snapshot n.machine
    → n.applied ≡ store.state.base
    → 0 < store.state.base
    → n.machine ≡ replayed store n.applied
unfolding replay_log
replayed_snapshot n store v kept at_base positive =
    let nothing_applied : n.applied - store.state.base ≡ 0 = omega (arith, at_base) in
    let moved : (store.state.base == 0) ≡ false = ground (arith, positive) in
    sym (
      ap (replay_log (base_machine store.state.base store.snapshot) store.state) nothing_applied
      ∙ rw moved (
          ap (λ (p : Snapshot). (restore StateMachine.new p).0) kept
          ∙ ap (λ (p : Machine × Option StateMachine.Error). p.0)
              (restore-snapshot n.machine StateMachine.new v)))

module _ (n : Node) (s : IsSound n)
    (c : Compacts n.store.state n.store.state.commit (snapshot_store n).0.state)
    (kept : (snapshot_store n).0.snapshot ≡ snapshot n.machine) where
  replayed_checkpoint : n.machine ≡ replayed (snapshot_store n).0 n.applied
  replayed_checkpoint =
      replayed_snapshot n (snapshot_store n).0 s.ready.machine kept
        (omega (arith, c.base, s.caught_up)) (omega (arith, c.base, c.above))

  -- The log gives the same machines as before.
  replayed_compacted :
      (j : ℕ) → n.applied < j → replayed (snapshot_store n).0 (j - 1) ≡ replayed n.store (j - 1)
  replayed_compacted j lo =
      let e : n.applied + (j - 1 - n.applied) ≡ j - 1 = omega (arith, lo) in
      subst (λ k. replayed (snapshot_store n).0 k ≡ replayed n.store k) e
        (replayed_onward n.store (snapshot_store n).0 n.applied (j - 1 - n.applied)
          s.ready.above_base (omega (arith, c.base, s.caught_up))
          (sym replayed_checkpoint ∙ s.ready.replayed)
          (λ i lo hi. c.entries i (omega (arith, lo, s.caught_up))))

snapshot-Good : (n : Node) → Good n (record n { store = (snapshot_store n).0 })
snapshot-Good n s =
    elim (checkpoint_outcome n.store (snapshot n.machine) n.store.state.commit s.ready.log) [
      | inl (ok, c, l, kept) ↦ (
        record {
          cfg = refl;
          peers = refl;
          state = Compacts-Extends _ _ _ s.ready.log.base_committed c;
          applied = omega arith;
          answering =
              Answering-kept refl refl refl refl
                (Compacts-Extends _ _ _ s.ready.log.base_committed c)
                (λ j w h lo hi. (
                  c.entries j (omega (arith, lo, s.caught_up)),
                  omega (arith, hi, c.last),
                  replayed_compacted n s c kept j lo,
                ));
          recalls = checkpoint-Recalls n.store (snapshot n.machine) n.store.state.commit;
        },
        record {
          ready = record {
            log = l;
            above_base = omega (arith, c.base, s.caught_up);
            committed = omega (arith, c.commit, s.caught_up);
            machine = s.ready.machine;
            replayed = replayed_checkpoint n s c kept;
          };
          caught_up = omega (arith, c.commit, s.caught_up);
        },
      )
      | inr (bad, same, kept) ↦
          Same-Good {n = n} {m = record n { store = (snapshot_store n).0 }}
            (record {
              cfg = refl;
              peers = refl;
              state = same;
              snapshot = kept;
              machine = refl;
              applied = refl;
              answering = Answering-still refl refl refl refl same kept;
              recalls = checkpoint-Recalls n.store (snapshot n.machine) n.store.state.commit;
            })
            s
    ]

finish_snapshot-Good :
    (n m : Node) (store : Store) (error : Option Store.Error)
    → Good n (record m { store = store })
    → Good n (finish_snapshot m (store, error))
unfolding finish_snapshot
finish_snapshot-Good n m store none h =
    Good-trans h (Same-Good (Same-kept refl refl refl refl refl refl refl refl))
finish_snapshot-Good n m store (some e) h = Good-trans h (Same-Good (Same-fail_snapshot _ e))

pub maybe_snapshot-Good : (n : Node) → Good n (maybe_snapshot n)
unfolding maybe_snapshot
maybe_snapshot-Good n = Good-if _ (Good-refl n) (
    Good-if _ (Good-refl n)
      (finish_snapshot-Good n n (snapshot_store n).0 (snapshot_store n).1 (snapshot-Good n)))
