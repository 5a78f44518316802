-- ===== src/Simulation.antt =====
-- internal/simulation/simulation.go: scenarios, their bounds, and the removal of faults from one that
-- fails.
pub mod Integers
pub mod Sorting
pub mod Minimal
pub mod Checker
pub mod Schedule
pub mod Runner
pub mod Run
mod Tests
use shard_zero.Prelude.{
  ℕ, zero, suc, ◌+◌, ◌-◌, ◌*◌, ◌/◌, Bool, true, false, ◌||◌, not, Option, none, some, List, [], ◌∷◌,
  ◌++◌, Text, bytes, text_eq, length, take, drop, ltb, leb, ◌==◌, max, if◌then◌else◌,
}
use shard_zero.Simulation.Integers.{ℤ, pos, negsuc, below, above, int64, times}

pub record Fault : Type 0 where
  pub at_ms : ℤ
  pub kind : Text
  pub node : ℤ
  pub other : ℤ

pub record Scenario : Type 0 where
  pub version : ℤ
  pub seed : ℕ
  pub nodes : ℤ
  pub operations : ℤ
  pub max_delay_ms : ℤ
  pub drop_percent : ℤ
  pub duplicate_percent : ℤ
  pub faults : List Fault

abbrev fault_at : ℕ → Text → ℕ → Fault
fault_at at_ms kind node = record { at_ms = pos at_ms; kind = kind; node = pos node; other = pos 0 }

-- `max(operations*60, 2400)`
unfoldable pub span_of : ℤ → ℕ
span_of operations = elim (int64 (times operations 60)) [ pos n ↦ max n 2400 | negsuc n ↦ 2400 ]

-- `Default`
unfoldable pub default : ℕ → ℤ → ℤ → Scenario
default seed nodes operations =
    let span = span_of operations in
    record {
      version = pos 1;
      seed = seed;
      nodes = nodes;
      operations = operations;
      max_delay_ms = pos 80;
      drop_percent = pos 8;
      duplicate_percent = pos 5;
      faults =
          fault_at 1000 (bytes "crash") 0
          ∷ fault_at 1400 (bytes "restart") 0
          ∷ fault_at (1500 + span / 5) (bytes "partition") 1
          ∷ fault_at (2100 + span / 5) (bytes "heal") 0
          ∷ fault_at (2300 + span / 4) (bytes "pause") 2
          ∷ fault_at (2600 + span / 4) (bytes "resume") 2
          ∷ fault_at (2800 + span / 3) (bytes "disk-after") 0
          ∷ fault_at (3400 + span / 3) (bytes "restart") 0
          ∷ [];
    }

pub data ScenarioError : Type 0 where
  bad_bounds bad_position : ScenarioError
  unknown_fault : Text → ScenarioError

unfoldable pub known_kind : Text → Bool
known_kind kind =
    text_eq kind (bytes "crash")
    || text_eq kind (bytes "restart")
    || text_eq kind (bytes "pause")
    || text_eq kind (bytes "resume")
    || text_eq kind (bytes "partition")
    || text_eq kind (bytes "heal")
    || text_eq kind (bytes "disk-before")
    || text_eq kind (bytes "disk-after")

-- the loop of `Validate`
unfoldable pub validate_faults : ℤ → List Fault → Option ScenarioError
unfolding known_kind
validate_faults nodes [] = none
validate_faults nodes (f ∷ faults) =
    let rest = validate_faults nodes faults in
    if below f.at_ms (pos 0)
      || above f.at_ms (pos 3600000)
      || below f.node (pos 0)
      || not (below f.node nodes)
    then some bad_position
    else if not (known_kind f.kind)
    then some (unknown_fault f.kind)
    else rest

-- `Validate`
unfoldable pub validate : Scenario → Option ScenarioError
unfolding validate_faults
validate s =
    if below s.version (pos 1)
      || above s.version (pos 1)
      || below s.nodes (pos 3)
      || above s.nodes (pos 5)
      || below s.operations (pos 1)
      || above s.operations (pos 10000)
      || below s.max_delay_ms (pos 0)
      || above s.max_delay_ms (pos 2000)
      || below s.drop_percent (pos 0)
      || above s.drop_percent (pos 100)
      || below s.duplicate_percent (pos 0)
      || above s.duplicate_percent (pos 100)
      || ltb 100 (length s.faults)
    then some bad_bounds
    else validate_faults s.nodes s.faults

-- `sort.SliceStable` by the time of a fault
unfoldable pub insert_fault : Fault → List Fault → List Fault
insert_fault f [] = f ∷ []
insert_fault f (g ∷ faults) =
    let rest = insert_fault f faults in if above f.at_ms g.at_ms then g ∷ rest else f ∷ g ∷ faults

unfoldable pub sort_faults : List Fault → List Fault
unfolding insert_fault
sort_faults [] = []
sort_faults (f ∷ faults) = insert_fault f (sort_faults faults)

abbrev pub sorted : Scenario → Scenario
sorted s = record s { faults = sort_faults s.faults }

-- The scenario without its i-th fault.
abbrev pub without : Scenario → ℕ → Scenario
without s i = record s { faults = take i s.faults ++ drop (i + 1) s.faults }

-- `fails` and `ctx.Err()`, the latter asked before each attempt.
module _ (fails : Scenario → Bool) (cancelled : ℕ → Bool) where
  -- the loop of `Minimize`, with the attempts that are left of its 100
  unfoldable pub shrink : ℕ → Scenario → ℕ → Scenario
  shrink zero s i = s
  shrink (suc left) s i =
      let failing = fails (without s i) in
      let rest = shrink left (if failing then without s i else s) (if failing then 0 else i + 1) in
      if leb (length s.faults) i || cancelled (99 - left) then s else rest

  -- `Minimize`
  unfoldable pub minimize : Scenario → Scenario
  unfolding shrink
  minimize s = if fails s then shrink 100 (sorted s) 0 else s
