-- ===== src/Simulation/Tests.antt =====
-- internal/simulation/simulation.go: the default scenario, and a failure that needs one fault.
use shard_zero.Prelude.{
  ◌≡◌, ◌≤◌, ℕ, refl, Bool, true, false, ◌||◌, List, [], ◌∷◌, bytes, text_eq, length,
}
use shard_zero.Simulation.Integers.{pos, int64}
use shard_zero.Simulation.{
  Fault, Scenario, default, span_of, sort_faults, insert_fault, sorted, minimize,
}
use shard_zero.Simulation.Sorting.{InOrder}
use mathlib.Core.List.{Perm}
use shard_zero.Simulation.Minimal.{Thins, IsMinimal, minimize-IsMinimal}

has_pause : List Fault → Bool
has_pause [] = false
has_pause (f ∷ faults) = text_eq f.kind (bytes "pause") || has_pause faults

abbrev needs_pause : Scenario → Bool
needs_pause s = has_pause s.faults

abbrev three : Scenario
three = default 7 (pos 3) (pos 50)

order_is_free : needs_pause (sorted three) ≡ needs_pause three
unfolding default span_of int64 sort_faults insert_fault has_pause text_eq
order_is_free = refl

fails_at_first : needs_pause three ≡ true
unfolding default span_of int64 has_pause text_eq
fails_at_first = refl

minimize-IsMinimal_example :
    ((faults : List Fault) × Perm faults three.faults
      × InOrder faults
      × Thins (record three { faults = faults }) (minimize needs_pause (λ _. false) three))
    × (needs_pause (minimize needs_pause (λ _. false) three) ≡ true)
    × (((k : ℕ) → ◌≡◌ {A = Bool} false false)
        → length three.faults ≤ 13
        → IsMinimal needs_pause (λ _. false) (minimize needs_pause (λ _. false) three))
minimize-IsMinimal_example =
    minimize-IsMinimal needs_pause (λ _. false) three order_is_free fails_at_first
