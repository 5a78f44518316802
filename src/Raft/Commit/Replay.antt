-- ===== src/Raft/Commit/Replay.antt =====
-- internal/raft/node.go: the state machine that a log stands for.
use shard_zero.Prelude.{
  ℕ, zero, suc, ◌+◌, ◌-◌, ◌<◌, ◌≤◌, ◌≡◌, refl, sym, ap, ◌∙◌, arith, ◌==◌, if◌then◌else◌,
}
use shard_zero.StateMachine
use shard_zero.StateMachine.{Machine, Snapshot, restore}
use shard_zero.Raft.Types.{Entry}
use shard_zero.Raft.Store.{Durable, Store, entry_at}
use shard_zero.Raft.Commit.{run_entry}

-- The machine after the first `count` entries above the base.
unfoldable pub replay_log : Machine → Durable → ℕ → Machine
replay_log m s zero = m
replay_log m s (suc count) =
    (run_entry (replay_log m s count) (entry_at s (s.base + suc count)).command).0

-- The machine at the base: that of the snapshot, if there has been one.
abbrev pub base_machine : ℕ → Snapshot → Machine
base_machine base snap = if base == 0 then StateMachine.new else (restore StateMachine.new snap).0

-- The machine that the snapshot and the log of a store give, up to the index `applied`.
abbrev pub replayed : Store → ℕ → Machine
replayed s applied =
    replay_log (base_machine s.state.base s.snapshot) s.state (applied - s.state.base)

-- It depends on the entries that it applies, and on no others.
pub replay_log_same :
    (m : Machine) (s t : Durable) (count : ℕ)
    → t.base ≡ s.base
    → ((i : ℕ) → s.base < i → i ≤ s.base + count → entry_at t i ≡ entry_at s i)
    → replay_log m t count ≡ replay_log m s count
unfolding replay_log
replay_log_same m s t zero base same = refl
replay_log_same m s t (suc count) base same =
    ap (λ k. (run_entry k (entry_at t (t.base + suc count)).command).0)
      (replay_log_same m s t count base (λ i lo hi. same i lo (omega (arith, hi))))
    ∙ ap (λ (e : Entry). (run_entry (replay_log m s count) e.command).0) here
  where
    here : entry_at t (t.base + suc count) ≡ entry_at s (s.base + suc count)
    here =
        ap (λ b. entry_at t (b + suc count)) base
        ∙ same (s.base + suc count) (omega arith) (omega arith)

-- One more entry.
pub replay_log-suc :
    (m : Machine) (s : Durable) (applied : ℕ)
    → s.base ≤ applied
    → replay_log m s (applied + 1 - s.base)
      ≡ (run_entry (replay_log m s (applied - s.base)) (entry_at s (applied + 1)).command).0
unfolding replay_log
replay_log-suc m s applied above =
    let e : applied + 1 - s.base ≡ suc (applied - s.base) = omega arith in
    let i : s.base + suc (applied - s.base) ≡ applied + 1 = omega arith in
    ap (replay_log m s) e
    ∙ ap (λ j. (run_entry (replay_log m s (applied - s.base)) (entry_at s j).command).0) i

-- Stores that give the same machine at an index above their bases, and have the same entries after it,
-- give the same machine later.
pub replayed_onward :
    (s t : Store) (from more : ℕ)
    → s.state.base ≤ from
    → t.state.base ≤ from
    → replayed t from ≡ replayed s from
    → ((i : ℕ) → from < i → i ≤ from + more → entry_at t.state i ≡ entry_at s.state i)
    → replayed t (from + more) ≡ replayed s (from + more)
replayed_onward s t from zero above above' same agree =
    let e : from + zero ≡ from = omega arith in ap (replayed t) e ∙ same ∙ ap (replayed s) (sym e)
replayed_onward s t from (suc more) above above' same agree =
    let k : ℕ = from + more in
    let e : from + suc more ≡ k + 1 = omega arith in
    let early =
      replayed_onward s t from more above above' same (λ i lo hi. agree i lo (omega (arith, hi))) in
    let m = replay_log (base_machine t.state.base t.snapshot) t.state (k - t.state.base) in
    ap (replayed t) e
    ∙ replay_log-suc (base_machine t.state.base t.snapshot) t.state k (omega (arith, above'))
    ∙ ap (λ (x : Entry). (run_entry m x.command).0) (agree (k + 1) (omega arith) (omega arith))
    ∙ ap (λ (x : Machine). (run_entry x (entry_at s.state (k + 1)).command).0) early
    ∙ sym (replay_log-suc (base_machine s.state.base s.snapshot) s.state k (omega (arith, above)))
    ∙ ap (replayed s) (sym e)

-- Stores that agree on the snapshot, the base and the applied entries give the same machine.
pub replayed_same :
    (s t : Store) (applied : ℕ)
    → s.state.base ≤ applied
    → t.snapshot ≡ s.snapshot
    → t.state.base ≡ s.state.base
    → ((i : ℕ) → s.state.base < i → i ≤ applied → entry_at t.state i ≡ entry_at s.state i)
    → replayed t applied ≡ replayed s applied
replayed_same s t applied above snap base agree =
    ap (λ (p : Snapshot). replay_log (base_machine t.state.base p) t.state (applied - t.state.base))
      snap
    ∙ ap (λ b. replay_log (base_machine b s.snapshot) t.state (applied - b)) base
    ∙ replay_log_same (base_machine s.state.base s.snapshot) s.state t.state
        (applied - s.state.base) base (λ i lo hi. agree i lo (omega (arith, hi, above)))
