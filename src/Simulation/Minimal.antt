-- ===== src/Simulation/Minimal.antt =====
-- internal/simulation/simulation.go, Minimize: what is left of a scenario that fails.
use shard_zero.Prelude.{
  ℕ, zero, suc, ◌+◌, ◌-◌, ◌≤◌, ◌<◌, ◌≡◌, inl, inr, refl, ◌∙◌, ap, Bool, true, false, ◌||◌, List, [],
  ◌∷◌, ◌++◌, length, take, drop, length-append, length-take, length-drop, leb, ltb, arith,
  Bool-cases, Sublist, no_more, keep, skip, Sublist-refl, Sublist-trans,
}
use mathlib.Core.List.{Perm}
use shard_zero.Simulation.Sorting.{InOrder, sort_faults-InOrder, sort_faults-Perm}
use native.Mathlib.Numerals.{unary_clauses}
use shard_zero.Simulation.{
  Fault, Scenario, insert_fault, sort_faults, sorted, without, shrink, minimize,
}

Sublist-drop : {A : Type 0} (xs : List A) → Sublist (drop 1 xs) xs
Sublist-drop [] = no_more
Sublist-drop (x ∷ xs) = skip x (Sublist-refl xs)

Sublist-without : {A : Type 0} (i : ℕ) (xs : List A) → Sublist (take i xs ++ drop (suc i) xs) xs
Sublist-without zero xs = Sublist-drop xs
Sublist-without (suc i) [] = no_more
Sublist-without (suc i) (x ∷ xs) = keep x (Sublist-without i xs)

-- Some faults of a scenario are left out, and nothing else changes.
pub record Thins (s r : Scenario) : Type 0 where
  pub others : r ≡ record s { faults = r.faults }
  pub faults : Sublist r.faults s.faults

pub Thins-refl : (s : Scenario) → Thins s s
Thins-refl s = record { others = refl; faults = Sublist-refl s.faults }

Thins-without : (s : Scenario) (i : ℕ) → Thins s (without s i)
Thins-without s i = record {
  others = refl;
  faults = simp unary_clauses (Sublist-without i s.faults);
}

Thins-trans : {s t r : Scenario} → Thins s t → Thins t r → Thins s r
Thins-trans {s} {t} {r} p q = record {
  others = q.others ∙ ap (λ (x : Scenario). record x { faults = r.faults }) p.others;
  faults = Sublist-trans q.faults p.faults;
}

-- The sum of the numbers up to n.
abbrev pub sum_to : ℕ → ℕ
sum_to zero = 0
sum_to (suc n) = suc n + sum_to n

length-without :
    (s : Scenario) (i : ℕ) → i < length s.faults → length (without s i).faults ≡ length s.faults - 1
length-without s i h = omega (
  arith,
  length-append (take i s.faults) (drop (i + 1) s.faults),
  length-take i s.faults,
  length-drop (i + 1) s.faults,
)

sum_to_pred : (n : ℕ) → 0 < n → sum_to n ≡ n + sum_to (n - 1)
sum_to_pred zero h = absurd (omega (arith, h))
sum_to_pred (suc n) h = let e : suc n - 1 ≡ n = omega arith in rw e refl

sum_to_mono : (n m : ℕ) → n ≤ m → sum_to n ≤ sum_to m
sum_to_mono zero m h = omega arith
sum_to_mono (suc n) zero h = absurd (omega (arith, h))
sum_to_mono (suc n) (suc m) h = omega (arith, h, sum_to_mono n m (omega (arith, h)))

next_budget :
    (s : Scenario) (i left : ℕ)
    → i < length s.faults
    → (length s.faults - i) + sum_to (length s.faults - 1) ≤ suc left
    → (length (without s i).faults - 0) + sum_to (length (without s i).faults - 1) ≤ left
next_budget s i left inside enough =
    rw (length-without s i inside) (elim (Bool-cases (ltb 1 (length s.faults))) [
      | inl more ↦
          let some_left : 0 < length s.faults - 1 = ground (arith, more) in
          omega (arith, sum_to_pred (length s.faults - 1) some_left)
      | inr one ↦
          let none_left : length s.faults - 1 ≡ 0 = ground (arith, one) in
          rw none_left (omega arith)
    ])

length-insert_fault : (f : Fault) (fs : List Fault) → length (insert_fault f fs) ≡ suc (length fs)
unfolding insert_fault
length-insert_fault f [] = refl
length-insert_fault f (g ∷ fs) = ground (arith, length-insert_fault f fs)

length-sort_faults : (fs : List Fault) → length (sort_faults fs) ≡ length fs
unfolding sort_faults
length-sort_faults [] = refl
length-sort_faults (f ∷ fs) =
    length-insert_fault f (sort_faults fs) ∙ ap suc (length-sort_faults fs)

first_budget :
    (s : Scenario)
    → length s.faults ≤ 13
    → (length (sorted s).faults - 0) + sum_to (length (sorted s).faults - 1) ≤ 100
first_budget s few =
    rw (length-sort_faults s.faults)
      (omega (arith, sum_to_mono (length s.faults - 1) 12 (omega (arith, few))))

module _ (fails : Scenario → Bool) (cancelled : ℕ → Bool) where
  -- It fails, and without any one of its faults it does not.
  pub record IsMinimal (r : Scenario) : Type 0 where
    pub still_fails : fails r ≡ true
    pub needs_each : (j : ℕ) → j < length r.faults → fails (without r j) ≡ false

  shrink-Thins :
      (left : ℕ) (s : Scenario) (i : ℕ)
      → fails s ≡ true
      → Thins s (shrink fails cancelled left s i) × (fails (shrink fails cancelled left s i) ≡ true)
  unfolding shrink
  shrink-Thins zero s i h = (Thins-refl s, h)
  shrink-Thins (suc left) s i h =
      elim (Bool-cases (leb (length s.faults) i || cancelled (99 - left))) [
        | inl stop ↦ rw stop (Thins-refl s, h)
        | inr go ↦ rw go (elim (Bool-cases (fails (without s i))) [
          | inl yet ↦ rw yet (
              let (thins, fail) = shrink-Thins left (without s i) 0 yet in
              (Thins-trans (Thins-without s i) thins, fail))
          | inr well ↦ rw well (shrink-Thins left s (i + 1) h)
        ])
      ]

  shrink-IsMinimal :
      (left : ℕ) (s : Scenario) (i : ℕ)
      → ((k : ℕ) → cancelled k ≡ false)
      → fails s ≡ true
      → ((j : ℕ) → j < i → j < length s.faults → fails (without s j) ≡ false)
      → (length s.faults - i) + sum_to (length s.faults - 1) ≤ left
      → IsMinimal (shrink fails cancelled left s i)
  unfolding shrink
  shrink-IsMinimal zero s i free h tried enough = record {
    still_fails = h;
    needs_each = λ j b. tried j (omega (arith, enough, b)) b;
  }
  shrink-IsMinimal (suc left) s i free h tried enough =
      elim (Bool-cases (leb (length s.faults) i)) [
        | inl all ↦
            rw all
              (record { still_fails = h; needs_each = λ j b. tried j (ground (arith, all, b)) b })
        | inr some_left ↦
            let inside : i < length s.faults = ground (arith, some_left) in
            rw (some_left, free (99 - left))
              (elim (Bool-cases (fails (without s i))) [
                | inl yet ↦ rw yet (
                    shrink-IsMinimal left (without s i) 0 free yet
                      (λ j b. absurd (omega (arith, b))) (next_budget s i left inside enough))
                | inr well ↦ rw well (
                    shrink-IsMinimal left s (i + 1) free h
                      (λ j b c. elim (Bool-cases (ltb j i)) [
                        | inl less ↦ tried j (ground (arith, less)) c
                        | inr more ↦ let e : j ≡ i = ground (arith, more, b) in rw e well
                      ])
                      (omega (arith, enough, inside)))
              ])
      ]

-- If a scenario fails, and still fails with its faults sorted, then Minimize gives one that fails too,
-- which is it with its faults rearranged, so that none comes before one of an earlier time, and some of
-- them left out. If besides the context is not cancelled and there are at most 13 faults, 100 attempts
-- are enough: without any one of its faults the result does not fail.
pub minimize-IsMinimal :
    (fails : Scenario → Bool) (cancelled : ℕ → Bool) (s : Scenario)
    → (fails (sorted s) ≡ fails s)
    → fails s ≡ true
    → ((faults : List Fault) × Perm faults s.faults
        × InOrder faults
        × Thins (record s { faults = faults }) (minimize fails cancelled s))
      × (fails (minimize fails cancelled s) ≡ true)
      × (((k : ℕ) → cancelled k ≡ false)
          → length s.faults ≤ 13
          → IsMinimal fails cancelled (minimize fails cancelled s))
unfolding minimize
minimize-IsMinimal fails cancelled s order h =
    let (thins, fail) = shrink-Thins fails cancelled 100 (sorted s) 0 (order ∙ h) in
    rw h (
      (sort_faults s.faults, sort_faults-Perm s.faults, sort_faults-InOrder s.faults, thins),
      fail,
      λ free few.
          shrink-IsMinimal fails cancelled 100 (sorted s) 0 free (order ∙ h)
            (λ j b. absurd (omega (arith, b))) (first_budget s few),
    )
