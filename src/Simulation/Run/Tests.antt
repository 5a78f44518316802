-- ===== src/Simulation/Run/Tests.antt =====
-- internal/simulation/simulation.go, Run: the theorems at work on the default scenario of three members.
use shard_zero.Prelude.{
  ℕ, ◌+◌, ◌<◌, ◌≤◌, ◌≡◌, ◌↔◌, ◌⊎◌, Text, refl, true, false, none, [], bytes, text_eq, decimal,
}
use shard_zero.Raft.Node.Effects.{IsSound}
use shard_zero.Simulation.{Scenario, default, validate, span_of, validate_faults, known_kind}
use shard_zero.Simulation.Integers.{pos, int64}
use shard_zero.Simulation.Runner.{World, count_of}
use shard_zero.Simulation.Runner.Fine.{count_done}
use shard_zero.Simulation.Run.{run, final, limit_of}
use shard_zero.Simulation.Run.Soundness.{run-IsSound}
use shard_zero.Simulation.Run.Convergence.{Settled, run_converges}
use shard_zero.Simulation.Run.Accounts.{run_accounts}

abbrev world : World
world = record {
  is_origin = λ _. true;
  identity = λ _ _ _ _. bytes "id";
  entry_hash = λ e. decimal e.index;
  chain_hash = λ t. t;
  digest = λ _. [];
  uint64 = λ k. k;
  int_n = λ k n. 0;
  pcg = λ seed i k n. i;
  cancelled = λ _. false;
}

abbrev scenario : Scenario
scenario = default 1 (pos 3) (pos 1)

accepted : validate scenario ≡ none
unfolding validate default validate_faults known_kind text_eq span_of int64
accepted = refl

run-IsSound_example : IsSound ((final world scenario).heap 1)
run-IsSound_example = run-IsSound world scenario 1

run_accounts_example :
    ((run world scenario).steps ≤ 2000000)
    × ((run world scenario).virtual_ms ≤ limit_of scenario)
    × ((run world scenario).acknowledged
        ≡ count_done (final world scenario).ops (count_of scenario.operations))
    × ((run world scenario).acknowledged + (run world scenario).pending
        ≡ count_of scenario.operations)
    × (((run world scenario).passed ≡ true) ↔ ((run world scenario).error ≡ none))
    × ((run world scenario).passed ≡ true
        → ((run world scenario).is_converged ≡ true)
          × ((j : ℕ)
              → j < count_of scenario.operations
              → ((final world scenario).ops j).is_done ≡ true))
run_accounts_example = run_accounts world scenario accepted

run_converges_example :
    ((run world scenario).passed ≡ false)
    ⊎ ((index : ℕ) × (hash : Text) × ((i : ℕ)
          → i < count_of scenario.nodes
          → Settled world (final world scenario) index hash i))
run_converges_example = run_converges world scenario accepted
