-- ===== src/Simulation/Sorting.antt =====
-- internal/simulation/simulation.go, Minimize: the faults that sort.SliceStable leaves.
use shard_zero.Prelude.{◌≤◌, ◌≡◌, inl, inr, true, false, List, [], ◌∷◌, All, arith, Bool-cases}
use mathlib.Core.List.{Perm}
use mathlib.Core.List.Perm
use shard_zero.Simulation.Integers.{ℤ, pos, negsuc, above}
use shard_zero.Simulation.{Fault, insert_fault, sort_faults}

-- The order of the whole numbers.
abbrev pub AtMost : ℤ → ℤ → Type 0
AtMost (pos m) (pos n) = m ≤ n
AtMost (pos m) (negsuc n) = ⊥
AtMost (negsuc m) (pos n) = Unit
AtMost (negsuc m) (negsuc n) = n ≤ m

-- No fault comes before one of an earlier time.
abbrev pub InOrder : List Fault → Type 0
InOrder [] = Unit
InOrder (f ∷ faults) = All (λ g. AtMost f.at_ms g.at_ms) faults × InOrder faults

AtMost-above : (i j : ℤ) → above i j ≡ true → AtMost j i
AtMost-above (pos m) (pos n) h = ground (arith, h)
AtMost-above (pos m) (negsuc n) h = tt
AtMost-above (negsuc m) (pos n) h = cc h
AtMost-above (negsuc m) (negsuc n) h = ground (arith, h)

AtMost-not_above : (i j : ℤ) → above i j ≡ false → AtMost i j
AtMost-not_above (pos m) (pos n) h = ground (arith, h)
AtMost-not_above (pos m) (negsuc n) h = cc h
AtMost-not_above (negsuc m) (pos n) h = tt
AtMost-not_above (negsuc m) (negsuc n) h = ground (arith, h)

AtMost-trans : (i j k : ℤ) → AtMost i j → AtMost j k → AtMost i k
AtMost-trans (pos m) (pos n) (pos o) p q = omega (arith, p, q)
AtMost-trans (pos m) (pos n) (negsuc o) p q = absurd q
AtMost-trans (pos m) (negsuc n) k p q = absurd p
AtMost-trans (negsuc m) j (pos o) p q = tt
AtMost-trans (negsuc m) (pos n) (negsuc o) p q = absurd q
AtMost-trans (negsuc m) (negsuc n) (negsuc o) p q = omega (arith, p, q)

All-AtMost :
    (i j : ℤ) (faults : List Fault)
    → AtMost i j
    → All (λ g. AtMost j g.at_ms) faults
    → All (λ g. AtMost i g.at_ms) faults
All-AtMost i j [] below all = tt
All-AtMost i j (g ∷ faults) below (first, rest) =
    (AtMost-trans i j g.at_ms below first, All-AtMost i j faults below rest)

All-insert_fault :
    (i : ℤ) (f : Fault) (faults : List Fault)
    → AtMost i f.at_ms
    → All (λ g. AtMost i g.at_ms) faults
    → All (λ g. AtMost i g.at_ms) (insert_fault f faults)
unfolding insert_fault
All-insert_fault i f [] here all = (here, tt)
All-insert_fault i f (g ∷ faults) here (first, rest) = elim (Bool-cases (above f.at_ms g.at_ms)) [
  | inl after ↦ rw after (first, All-insert_fault i f faults here rest)
  | inr before ↦ rw before (here, (first, rest))
]

insert_fault-InOrder :
    (f : Fault) (faults : List Fault) → InOrder faults → InOrder (insert_fault f faults)
unfolding insert_fault
insert_fault-InOrder f [] h = (tt, tt)
insert_fault-InOrder f (g ∷ faults) (all, h) = elim (Bool-cases (above f.at_ms g.at_ms)) [
  | inl after ↦ rw after (
    All-insert_fault g.at_ms f faults (AtMost-above f.at_ms g.at_ms after) all,
    insert_fault-InOrder f faults h,
  )
  | inr before ↦
      let below = AtMost-not_above f.at_ms g.at_ms before in
      rw before ((below, All-AtMost f.at_ms g.at_ms faults below all), (all, h))
]

insert_fault-Perm : (f : Fault) (faults : List Fault) → Perm (insert_fault f faults) (f ∷ faults)
unfolding insert_fault
insert_fault-Perm f [] = Perm.rfl
insert_fault-Perm f (g ∷ faults) = elim (Bool-cases (above f.at_ms g.at_ms)) [
  | inl after ↦
      rw after (Perm.trans (Perm.cons g (insert_fault-Perm f faults)) (Perm.swap f g faults))
  | inr before ↦ rw before Perm.rfl
]

pub sort_faults-InOrder : (faults : List Fault) → InOrder (sort_faults faults)
unfolding sort_faults
sort_faults-InOrder [] = tt
sort_faults-InOrder (f ∷ faults) =
    insert_fault-InOrder f (sort_faults faults) (sort_faults-InOrder faults)

pub sort_faults-Perm : (faults : List Fault) → Perm (sort_faults faults) faults
unfolding sort_faults
sort_faults-Perm [] = Perm.rfl
sort_faults-Perm (f ∷ faults) =
    Perm.trans (insert_fault-Perm f (sort_faults faults)) (Perm.cons f (sort_faults-Perm faults))
