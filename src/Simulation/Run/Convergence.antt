-- ===== src/Simulation/Run/Convergence.antt =====
-- internal/simulation/simulation.go, Run and converged: how a run that passes ends.
use shard_zero.Prelude.{
  ℕ, zero, suc, ◌+◌, ◌<◌, ◌≤◌, ◌≡◌, inl, inr, ◌⊎◌, refl, sym, ◌∙◌, true, false, none, some, [],
  Text, text_eq_iff, arith, ◌==◌, Option-cases, Bool-cases, subst,
}
use shard_zero.StateMachine.{Machine}
use shard_zero.Raft.Node.{Node, available, last_locked}
use shard_zero.Raft.Node.Effects.{IsSound}
use shard_zero.Raft.Client.{status}
use shard_zero.Simulation.{Scenario, validate}
use shard_zero.Simulation.Checker.{agree, converged}
use shard_zero.Simulation.Runner.{World, Runner, count_of}
use shard_zero.Simulation.Run.{members_from, result_of, final, run}
use shard_zero.Simulation.Run.Soundness.{Whole-final, run-IsSound}

-- A node that serves, whose log ends at an index, with all of it committed and applied, and whose
-- machine has a hash.
pub record Stands (digest : Machine → Text) (index : ℕ) (hash : Text) (n : Node) : Type 0 where
  pub up : available n ≡ true
  pub last : last_locked n ≡ index
  pub committed : n.store.state.commit ≡ index
  pub applied : n.applied ≡ index
  pub hashed : digest n.machine ≡ hash

-- A member that has such a node.
abbrev pub Settled : World → Runner → ℕ → Text → ℕ → Type 0
Settled w r index hash i = (p : ℕ) × (r.place i ≡ some p) × Stands w.digest index hash (r.heap p)

module _ (w : World) (r : Runner) (sound : (p : ℕ) → IsSound (r.heap p)) where
  agree-Settled :
      (index : ℕ) (hash : Text) (i k : ℕ)
      → agree w.digest hash index (members_from r i k) ≡ true
      → (j : ℕ) → i ≤ j
      → j < i + k
      → Settled w r index hash j
  unfolding agree members_from status
  agree-Settled index hash i zero h j lo hi = absurd (omega (arith, lo, hi))
  agree-Settled index hash i (suc k) h j lo hi = elim (Option-cases (r.place i)) [
    | inl e ↦ cc (rw e at h)
    | inr (p, e) ↦ elim (Bool-cases (i == j)) [
      | inl here ↦
          let same : i ≡ j = ground (arith, here) in
          let n = r.heap p in
          let t = rw e at h in
          (
            p,
            subst (λ x. r.place x ≡ some p) same e,
            record {
              up = ground (arith, t);
              last = ground (arith, t, (sound p).caught_up);
              committed = ground (arith, t, (sound p).caught_up);
              applied = ground (arith, t);
              hashed = sym ((text_eq_iff hash (w.digest n.machine)).0 (ground (arith, t)));
            },
          )
      | inr later ↦
          agree-Settled index hash (suc i) k (ground (arith, rw e at h)) j
            (ground (arith, lo, later)) (omega (arith, hi))
    ]
  ]

  converged-Settled :
      (count : ℕ)
      → converged w.digest (members_from r 0 count) ≡ true
      → (index : ℕ) × (hash : Text) × ((i : ℕ) → i < count → Settled w r index hash i)
  unfolding converged members_from status
  converged-Settled zero h = (0, [], λ i hi. absurd (omega (arith, hi)))
  converged-Settled (suc k) h = elim (Option-cases (r.place 0)) [
    | inl e ↦ cc (rw e at h)
    | inr (p, e) ↦
        let n = r.heap p in
        let t = rw e at h in
        (
          n.applied,
          w.digest n.machine,
          λ i hi. elim (Bool-cases (0 == i)) [
            | inl here ↦
                let same : 0 ≡ i = ground (arith, here) in
                (
                  p,
                  subst (λ x. r.place x ≡ some p) same e,
                  record {
                    up = ground (arith, t);
                    last = ground (arith, t, (sound p).caught_up);
                    committed = sym (sound p).caught_up;
                    applied = refl;
                    hashed = refl;
                  },
                )
            | inr later ↦
                agree-Settled n.applied (w.digest n.machine) 1 k (ground (arith, t)) i
                  (ground (arith, later)) (omega (arith, hi))
          ],
        )
  ]

passed_converged : (r : Runner) → (result_of r).passed ≡ true → r.converged ≡ true
unfolding result_of
passed_converged r h = ground (arith, h)

-- A run of a valid scenario does not pass, or it has converged: there are an index and a hash such that
-- every member has a node that serves, its log ends at that index with all of it committed and
-- applied, and its machine has that hash.
pub run_converges :
    (w : World) (s : Scenario)
    → validate s ≡ none
    → ((run w s).passed ≡ false)
      ⊎ ((index : ℕ) × (hash : Text) × ((i : ℕ)
            → i < count_of s.nodes
            → Settled w (final w s) index hash i))
unfolding run
run_converges w s valid =
    let (_, _, (over, fine, met)) = Whole-final w s in
    let r = final w s in
    rw (valid, run)
      (elim (Bool-cases (result_of r).passed) [
        | inl passed ↦
            let full = met (sym fine.ended ∙ passed_converged r passed) in
            inr (
              converged-Settled w r (run-IsSound w s) (count_of s.nodes)
                (subst (λ k. converged w.digest (members_from r 0 k) ≡ true) fine.width full))
        | inr fails ↦ inl fails
      ])
