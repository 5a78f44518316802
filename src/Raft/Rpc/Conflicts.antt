-- ===== src/Raft/Rpc/Conflicts.antt =====
-- internal/raft/rpc.go, AppendEntries: the conflict index that a follower answers with.
use shard_zero.Prelude.{
  ℕ, zero, suc, ◌+◌, ◌<◌, ◌≤◌, ◌≡◌, ◌≢◌, ◌⊎◌, arith, ◌==◌, Bool-cases, inl, inr,
}
use shard_zero.Raft.Store.{Durable, entry_at}
use shard_zero.Raft.Rpc.{conflict_from}

-- `first` is where the run of entries of `term` that ends before `end` begins.
pub record BeginsRun (s : Durable) (term end first : ℕ) : Type 0 where
  pub above : s.base ≤ first
  pub below : first ≤ end
  pub run : (i : ℕ) → first ≤ i → i < end → (entry_at s i).term ≡ term
  pub longest : (first ≡ s.base) ⊎ ((i : ℕ) → i + 1 ≡ first → (entry_at s i).term ≢ term)

-- The conflict index for an entry of `term` at `base + distance` is where the run of entries of that
-- term before it begins, or the base if the whole log before it is of that term.
pub conflict_from-BeginsRun :
    (s : Durable) (term distance : ℕ)
    → BeginsRun s term (s.base + distance) (conflict_from s term distance)
unfolding conflict_from
conflict_from-BeginsRun s term zero = record {
  above = omega arith;
  below = omega arith;
  run = λ i lo hi. absurd (omega arith);
  longest = inl (omega arith);
}
conflict_from-BeginsRun s term (suc distance) =
    elim (Bool-cases ((entry_at s (s.base + distance)).term == term)) [
      | inl same ↦
          let rest = conflict_from-BeginsRun s term distance in
          rw same (record {
            above = rest.above;
            below = omega (arith, rest.below);
            run = λ i lo hi. elim (Bool-cases (i == s.base + distance)) [
              | inl here ↦ last_entry i (ground (arith, here)) (ground (arith, same))
              | inr before ↦ rest.run i lo (ground (arith, before))
            ];
            longest = rest.longest;
          })
      | inr differs ↦ rw differs (record {
        above = omega arith;
        below = omega arith;
        run = λ i lo hi. absurd (omega arith);
        longest =
            inr (λ i before same. last_differs i (omega arith) (ground (arith, differs)) same);
      })
    ]
  where
    last_entry :
        (i : ℕ)
        → i ≡ s.base + distance
        → (entry_at s (s.base + distance)).term ≡ term
        → (entry_at s i).term ≡ term
    last_entry i e h = rw e h

    last_differs :
        (i : ℕ)
        → i ≡ s.base + distance
        → (entry_at s (s.base + distance)).term ≢ term
        → (entry_at s i).term ≢ term
    last_differs i e h = rw e h
