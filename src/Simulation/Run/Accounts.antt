-- ===== src/Simulation/Run/Accounts.antt =====
-- internal/simulation/simulation.go, Run: what the result says of the run.
use shard_zero.Prelude.{
  ℕ, zero, suc, ◌+◌, ◌<◌, ◌≤◌, ◌≡◌, ◌↔◌, inl, inr, refl, Bool, true, false, Option, none, some,
  arith, is_none, ◌==◌, Bool-cases,
}
use shard_zero.Simulation.{Scenario, validate}
use shard_zero.Simulation.Runner.{World, Runner, Operation, RunError, count_of}
use shard_zero.Simulation.Runner.Fine.{count_done, Fine}
use shard_zero.Simulation.Run.{Result, failure_of, result_of, final, limit_of, run}
use shard_zero.Simulation.Run.Soundness.{Whole-final}

count_done_bound : (ops : ℕ → Operation) (k : ℕ) → count_done ops k ≤ k
unfolding count_done
count_done_bound ops zero = omega arith
count_done_bound ops (suc k) = ground (arith, count_done_bound ops k)

-- If all that there are are done, each is.
count_done_all :
    (ops : ℕ → Operation) (k : ℕ) → count_done ops k ≡ k → (j : ℕ) → j < k → (ops j).is_done ≡ true
unfolding count_done
count_done_all ops zero h j inside = absurd (ground (arith, inside))
count_done_all ops (suc k) h j inside = elim (Bool-cases (ops k).is_done) [
  | inr open' ↦ absurd (ground (arith, count_done_bound ops k, open'))
  | inl last ↦ elim (Bool-cases (j == k)) [
    | inl here ↦ let e : j ≡ k = ground (arith, here) in rw e last
    | inr other ↦ count_done_all ops k (ground (arith, last)) j (ground (arith, inside, other))
  ]
]

failure_of_lem :
    (e : Option RunError) (passed : Bool)
    → (passed ≡ true → is_none e ≡ true)
    → (passed ≡ true) ↔ (failure_of e passed ≡ none)
unfolding failure_of
failure_of_lem (some e) passed h = (λ t. cc (h t), λ z. cc z)
failure_of_lem none true h = (λ _. refl, λ _. refl)
failure_of_lem none false h = (λ t. cc t, λ z. cc z)

-- What a result says of the runner at its end.
Accounts : ℕ → ℕ → Runner → Result → Type 0
Accounts count limit r v =
    (v.steps ≤ 2000000)
    × (v.virtual_ms ≤ limit)
    × (v.acknowledged ≡ count_done r.ops count)
    × (v.acknowledged + v.pending ≡ count)
    × ((v.passed ≡ true) ↔ (v.error ≡ none))
    × (v.passed ≡ true → (v.is_converged ≡ true) × ((j : ℕ) → j < count → (r.ops j).is_done ≡ true))

result-Accounts :
    {many count limit after : ℕ} {over : Bool} (r : Runner)
    → after ≤ 2000000
    → Fine many count limit after over r
    → Accounts count limit r (result_of r)
unfolding Accounts result_of
result-Accounts {many} {count} r below h = (
  omega (arith, h.stepped, below),
  h.early,
  h.counted,
  omega (arith, h.size, h.counted, count_done_bound r.ops count),
  failure_of_lem r.err _ (λ t. ground (arith, t)),
  λ t.
      let full : count_done r.ops count ≡ count =
        ground (arith, t, h.size, h.counted, count_done_bound r.ops count) in
      (ground (arith, t), count_done_all r.ops count full),
)

-- A run of a scenario that is valid takes at most two million items and ends by its time limit; what it
-- acknowledges is what is done, and with what is pending it is all operations; and it passes exactly
-- if it has no error, when it has converged and every operation is done.
pub run_accounts :
    (w : World) (s : Scenario)
    → validate s ≡ none
    → ((run w s).steps ≤ 2000000)
      × ((run w s).virtual_ms ≤ limit_of s)
      × ((run w s).acknowledged ≡ count_done (final w s).ops (count_of s.operations))
      × ((run w s).acknowledged + (run w s).pending ≡ count_of s.operations)
      × (((run w s).passed ≡ true) ↔ ((run w s).error ≡ none))
      × ((run w s).passed ≡ true
          → ((run w s).is_converged ≡ true)
            × ((j : ℕ) → j < count_of s.operations → ((final w s).ops j).is_done ≡ true))
unfolding run Accounts
run_accounts w s valid =
    let (after, below, (_, fine, _)) = Whole-final w s in
    rw (valid, run) (result-Accounts (final w s) below fine)
