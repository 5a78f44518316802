-- ===== src/Raft/Commit/Applying.antt =====
-- internal/raft/node.go, applyLocked: whoever waits for the entry that is applied gets its answer.
use shard_zero.Prelude.{
  ℕ, ◌+◌, ◌-◌, ◌<◌, ◌≤◌, ◌≡◌, ◌≢◌, ◌⊎◌, inl, inr, refl, sym, ap, ◌∙◌, Option, none, some, [], ◌∷◌,
  Includes, Includes-append, arith, Option-cases, bytes, Text, subst,
}
use shard_zero.Prelude.Dict.{nat_key, get, Includes-get, Includes-absent, Includes-remove}
use shard_zero.StateMachine.{Machine}
use shard_zero.Raft.Types.{Entry}
use shard_zero.Raft.Store.{entry_at}
use shard_zero.Raft.Store.Durability.{Extends-refl}
use shard_zero.Raft.Node.{Node, Outcome, Waiter, emit}
use shard_zero.Raft.Commit.{run_entry, with_read, answer_waiter, apply_entry}
use shard_zero.Raft.Commit.Replay.{replayed}
use shard_zero.Raft.Commit.Answers.{
  Claim, Waits, Answering, Answering-step, IsAnswer, replies, answer_of,
}

-- The waiter of the entry that is applied is gone.
waiters-answer_waiter :
    (n : Node) (index : ℕ) (out : Outcome) (j : ℕ) (w : Waiter)
    → Includes (answer_waiter n index (get n.pending index) out).pending (j, w)
    → Includes n.pending (j, w) × (j ≢ index)
unfolding answer_waiter
waiters-answer_waiter n index out j w h = elim (Option-cases (get n.pending index)) [
  | inl e ↦
      let here : Includes n.pending (j, w) = rw e at h in
      (here, Includes-absent n.pending index j w e here)
  | inr (v, e) ↦ Includes-remove n.pending index j w (rw e at h)
]

-- It has got the answer.
outcomes-answer_waiter :
    (n : Node) (index : ℕ) (out : Outcome) (d : ℕ) (o : Outcome)
    → Includes (answer_waiter n index (get n.pending index) out).outcomes (d, o)
    → Includes n.outcomes (d, o)
      ⊎ ((w : Waiter) × Includes n.pending (index, w)
          × (w.done ≡ d)
          × (o ≡ with_read n.machine w.read_key out))
unfolding answer_waiter
outcomes-answer_waiter n index out d o h = elim (Option-cases (get n.pending index)) [
  | inl e ↦ inl (rw e at h)
  | inr (w, e) ↦
      elim (Includes-append n.outcomes ((w.done, with_read n.machine w.read_key out) ∷ []) (d, o)
        (rw e at h)) [
          | inl old ↦ inl old
          | inr (inl new) ↦ inr (
            w,
            Includes-get n.pending index w e,
            ap (λ (p : ℕ × Outcome). p.0) new,
            sym (ap (λ (p : ℕ × Outcome). p.1) new),
          )
          | inr (inr none_left) ↦ absurd none_left
        ]
]

state-answer_waiter :
    (n : Node) (index : ℕ) (w : Option Waiter) (out : Outcome)
    → ((answer_waiter n index w out).channels ≡ n.channels)
      × ((answer_waiter n index w out).store ≡ n.store)
      × ((answer_waiter n index w out).applied ≡ n.applied)
unfolding answer_waiter
state-answer_waiter n index none out = (refl, refl, refl)
state-answer_waiter n index (some w) out = (refl, refl, refl)

-- A node that has run the next entry of its log, before it answers.
running : Node → Node
unfolding emit
running n =
    record (emit (record n { applied = n.applied + 1 }) (bytes "APPLIED") (n.applied + 1) [] []) {
      machine = (run_entry n.machine (entry_at n.store.state (n.applied + 1)).command).0;
    }

-- What the entry of the log answers is what its waiter's claim answers.
IsAnswer-running :
    (n : Node) (claims : ℕ → Claim) (w : Waiter)
    → n.applied + 1 ≤ n.store.state.commit
    → n.machine ≡ replayed n.store n.applied
    → Waits claims n (n.applied + 1) w
    → IsAnswer (claims w.done) n.store.state (
        with_read
          (running n).machine
          w.read_key
          (run_entry n.machine (entry_at n.store.state (n.applied + 1)).command).1)
unfolding running
IsAnswer-running n claims w inside current waits =
    let c = claims w.done in
    let before : n.applied ≡ n.applied + 1 - 1 = omega arith in
    let machine : n.machine ≡ c.meets =
      current ∙ ap (λ k. replayed n.store k) before ∙ waits.meets in
    replies (omega (arith, waits.index, inside))
      (λ _. ap (entry_at n.store.state) waits.index ∙ waits.entry)
      (ap
          (λ (e : Entry).
            with_read (run_entry n.machine e.command).0 w.read_key
              (run_entry n.machine e.command).1)
          waits.entry
        ∙ ap
            (λ (key : Option Text).
              with_read (run_entry n.machine c.entry.command).0 key
                (run_entry n.machine c.entry.command).1)
            (sym waits.read_key)
        ∙ ap (λ (m : Machine). answer_of m c) machine)

-- What one round sends is the answer of the entry that was proposed with the waiter.
pub Answering-apply_entry :
    (n : Node)
    → n.applied + 1 ≤ n.store.state.commit
    → n.machine ≡ replayed n.store n.applied
    → Answering n (apply_entry n)
unfolding apply_entry running
Answering-apply_entry n inside current =
    let next = n.applied + 1 in
    let out = (run_entry n.machine (entry_at n.store.state next).command).1 in
    let (channels, store, applied) =
      state-answer_waiter (running n) next (get n.pending next) out in
    Answering-step (sym channels) (rw store (Extends-refl n.store.state))
      (λ j w h. (waiters-answer_waiter (running n) next out j w h).0)
      (λ j w h lo hi.
        let other : j ≢ next = (waiters-answer_waiter (running n) next out j w h).1 in
        (omega (arith, applied, other), rw store refl, rw store hi, rw store refl))
      (λ claims d o a h. elim (outcomes-answer_waiter (running n) next out d o h) [
        | inl old ↦ inl old
        | inr (w, here, same, sent) ↦
            let waits = a.waiting next w here in
            inr (
              subst (λ k. k < n.channels) same waits.made,
              subst (λ k. IsAnswer (claims k) (apply_entry n).store.state o) same
                  (subst (IsAnswer (claims w.done) (apply_entry n).store.state) (sym sent)
                    (rw store (IsAnswer-running n claims w inside current waits))),
            )
      ])
