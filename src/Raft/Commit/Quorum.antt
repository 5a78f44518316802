-- ===== src/Raft/Commit/Quorum.antt =====
-- internal/raft/node.go, advanceCommitLocked: what a leader commits.
use shard_zero.Prelude.{
  ℕ, zero, suc, ◌+◌, ◌-◌, ◌<◌, ◌≤◌, ◌≡◌, ◌⊎◌, refl, sym, ap, ◌∙◌, subst, true, false, Option, none,
  some, [], arith, bytes, ◌==◌, Bool-cases, inl, inr,
}
use shard_zero.Prelude.Dict.{text_key}
use shard_zero.Raft.Store.{Durable}
use shard_zero.Raft.Node.{Node, persist, available, is_leader, last_locked, entry_locked, emit}
use shard_zero.Raft.Node.Effects.{IsSound, IsReady, Same-emit, Same-IsReady}
use shard_zero.Raft.Node.Persisting.{persist-IsReady, persist_outcome, after_save}
use shard_zero.Raft.Replication.{kick}
use shard_zero.Raft.Replication.Effects.{Same-kick}
use shard_zero.Raft.Commit.{
  has_quorum, commit_candidate, commit_to, commit_found, advance_commit, apply_locked,
}
use shard_zero.Raft.Commit.Holding.{MayCommit, has_quorum_lem, no_quorum_lem}
use shard_zero.Raft.Commit.Keeping.{commit-apply_locked}

-- The index that a loop over the `count` indexes above the commit index finds, if it finds one.
pub data Found (n : Node) (count : ℕ) : Option ℕ → Type 0 where
  nothing :
      ((i : ℕ) → n.store.state.commit < i → i ≤ n.store.state.commit + count → MayCommit n i → ⊥)
      → Found n count none
  highest :
      (index : ℕ)
      → n.store.state.commit < index
      → index ≤ n.store.state.commit + count
      → MayCommit n index
      → ((i : ℕ) → index < i → i ≤ n.store.state.commit + count → MayCommit n i → ⊥)
      → Found n count (some index)

Found-more :
    (n : Node) (count : ℕ) (o : Option ℕ)
    → (MayCommit n (n.store.state.commit + suc count) → ⊥)
    → Found n count o
    → Found n (suc count) o
Found-more n count none lacks (nothing none_below) = nothing (λ i lo hi may.
    elim (Bool-cases (i == n.store.state.commit + suc count)) [
      | inl e ↦ lacks (subst (MayCommit n) (ground (arith, e)) may)
      | inr ne ↦ none_below i lo (ground (arith, ne)) may
    ])
Found-more n count (some top) lacks (highest index lo hi may none_above) =
    highest index lo (omega arith) may (λ i above inside may'.
      elim (Bool-cases (i == n.store.state.commit + suc count)) [
        | inl e ↦ lacks (subst (MayCommit n) (ground (arith, e)) may')
        | inr ne ↦ none_above i above (ground (arith, ne)) may'
      ])

commit_candidate_lem : (n : Node) (count : ℕ) → Found n count (commit_candidate n count)
unfolding commit_candidate
commit_candidate_lem n zero = nothing (λ i lo hi may. absurd (omega arith))
commit_candidate_lem n (suc count) =
    elim (Bool-cases ((entry_locked n index).term == n.store.state.term)) [
      | inr other ↦ rw other (
          Found-more n count _ (λ may. ground (arith, other, may.own_term))
            (commit_candidate_lem n count))
      | inl own ↦ elim (Bool-cases (has_quorum n index)) [
        | inr few ↦
            rw (own, few)
              (Found-more n count _ (no_quorum_lem n index few) (commit_candidate_lem n count))
        | inl many ↦
            rw (own, many)
              (highest index (omega arith) (omega arith)
                (has_quorum_lem n index (ground (arith, own)) many)
                (λ i above inside may. absurd (omega arith)))
      ]
    ]
  where
    index : ℕ
    index = n.store.state.commit + suc count

commit-announce :
    (m : Node) (index : ℕ)
    → IsReady m
    → (kick (apply_locked (emit m (bytes "COMMITTED") index [] []))).store.state.commit
      ≡ m.store.state.commit
commit-announce m index r =
    let w = Same-emit m (bytes "COMMITTED") index [] [] in
    let said = emit m (bytes "COMMITTED") index [] [] in
    ap (λ (d : Durable). d.commit) (Same-kick (apply_locked said)).state
    ∙ commit-apply_locked said (Same-IsReady w r)
    ∙ ap (λ (d : Durable). d.commit) w.state

-- The new commit index cannot be stored.
abbrev pub Fails : Node → ℕ → Type 0
Fails n index = (persist n n.store.state.term n.store.state.vote index 0 []).1 ≡ false

commit-commit_to :
    (n : Node) (index : ℕ)
    → IsSound n
    → ((commit_to n index).store.state.commit ≡ index)
      ⊎ (((commit_to n index).store.state.commit ≡ n.store.state.commit) × Fails n index)
unfolding commit_to
commit-commit_to n index s =
    elim (persist_outcome n n.store.state.term n.store.state.vote index 0 [] s.ready.log) [
      | inl o ↦
          let ready = persist-IsReady n n.store.state.term n.store.state.vote index 0 [] s.ready in
          inl (
            rw o.0 (
              commit-announce (after_save n n.store.state.term n.store.state.vote index 0 []) index
                (rw o.0 at ready)
              ∙ o.3))
      | inr o ↦ inr (rw o.0 (ap (λ (d : Durable). d.commit) o.1), o.0)
    ]

-- Why the commit index stays.
pub data Stays (n : Node) : Type 0 where
  idle : is_leader n.role ≡ false → Stays n
  down : available n ≡ false → Stays n
  too_few : ((i : ℕ) → n.store.state.commit < i → i ≤ last_locked n → MayCommit n i → ⊥) → Stays n
  disk : (index : ℕ) → MayCommit n index → Fails n index → Stays n

-- What `advance_commit` may do to the commit index.
pub data Advances (n m : Node) : Type 0 where
  unmoved : m.store.state.commit ≡ n.store.state.commit → Stays n → Advances n m
  moved :
      is_leader n.role ≡ true
      → n.store.state.commit < m.store.state.commit
      → m.store.state.commit ≤ last_locked n
      → MayCommit n m.store.state.commit
      → ((i : ℕ) → m.store.state.commit < i → i ≤ last_locked n → MayCommit n i → ⊥)
      → Advances n m

commit_found-Advances :
    (n : Node) (o : Option ℕ)
    → IsSound n
    → is_leader n.role ≡ true
    → Found n (last_locked n - n.store.state.commit) o
    → Advances n (commit_found n o)
unfolding commit_found
commit_found-Advances n none s lead (nothing none_below) =
    let inside = s.ready.log.commit_in in
    unmoved refl (too_few (λ i lo hi may. none_below i lo (omega (arith, hi, inside)) may))
commit_found-Advances n (some top) s lead (highest index lo hi may none_above) =
    let inside = s.ready.log.commit_in in
    elim (commit-commit_to n index s) [
      | inr (same, lost) ↦ unmoved same (disk top may lost)
      | inl e ↦
          moved lead (omega (arith, e)) (omega (arith, e, inside)) (subst (MayCommit n) (sym e) may)
            (λ i above below may'. none_above i (omega (arith, e)) (omega (arith, inside)) may')
    ]

-- When a sound node advances its commit index, it is a leader, and the new index is the highest of
-- its log that carries its own term and for which the leader and other members of its list that have
-- acknowledged it are more than half of that list. The commit index stays only if the node is no
-- leader, is unavailable, has no such index above it, or cannot store the new one.
pub advance_commit-Advances : (n : Node) → IsSound n → Advances n (advance_commit n)
unfolding advance_commit
advance_commit-Advances n s = elim (Bool-cases (is_leader n.role)) [
  | inr follows ↦ rw follows (unmoved refl (idle follows))
  | inl lead ↦ elim (Bool-cases (available n)) [
    | inr off ↦ rw (lead, off) (unmoved refl (down off))
    | inl up ↦
        rw (lead, up)
          (commit_found-Advances n _ s lead
            (commit_candidate_lem n (last_locked n - n.store.state.commit)))
  ]
]
