-- ===== src/Raft/Node/Stepping.antt =====
-- internal/raft/node.go, stepDownLocked: on every branch.
use shard_zero.Prelude.{
  not, ◌||◌, ℕ, ◌≤◌, ◌≡◌, ◌⊎◌, refl, Bool, true, false, [], arith, Text, ltb, ltb→lt, inl, inr,
  Bool-cases, if◌then◌else◌,
}
use shard_zero.Raft.Store.Shape.{IsLog}
use shard_zero.Raft.Node.{
  Node, emit, fail_pending, persist, become_follower, step_down, is_follower, is_leader,
}
use shard_zero.Raft.Node.Effects.{Good, Good-trans, Same-Good, Good-refl, Same-become_follower}
use shard_zero.Raft.Node.Persisting.{persist_outcome, persist-Good, SameLog, SameLog-persist}

module _ (n : Node) (term : ℕ) (id : Text) where
  durable_term : Node × Bool
  durable_term =
      if ltb n.store.state.term term then persist n term [] n.store.state.commit 0 [] else (n, true)

  durable_term-Good : Good n durable_term.0
  unfolding durable_term
  durable_term-Good = elim (Bool-cases (ltb n.store.state.term term)) [
    | inl newer ↦ rw newer (persist-Good n term [] n.store.state.commit 0 [] refl (inl refl))
    | inr older ↦ rw older (Good-refl n)
  ]

  step_down_cases :
      (step_down n term id ≡ (
        become_follower durable_term.0 (not (is_follower n.role) || ltb n.store.state.term term) id,
        true,
      ))
      ⊎ (step_down n term id ≡ (durable_term.0, false))
  unfolding step_down durable_term
  step_down_cases = elim (Bool-cases durable_term.1) [ inl t ↦ inl (rw t) | inr f ↦ inr (rw f) ]

  -- Stepping down keeps a node sound.
  pub step_down-Good : Good n (step_down n term id).0
  step_down-Good = elim step_down_cases [
    | inl e ↦
        rw e (Good-trans durable_term-Good (Same-Good (Same-become_follower durable_term.0 _ id)))
    | inr e ↦ rw e durable_term-Good
  ]

  durable_term_outcome :
      IsLog n.store.state
      → durable_term.1 ≡ true
      → n.store.state.term ≤ term
      → (durable_term.0.store.state.term ≡ term)
        × SameLog n durable_term.0
        × (n.store.state.term ≡ term → durable_term.0.store.state.vote ≡ n.store.state.vote)
  unfolding durable_term
  durable_term_outcome h ok up = elim (Bool-cases (ltb n.store.state.term term)) [
    | inl newer ↦ rw newer (
      (elim (persist_outcome n term [] n.store.state.commit 0 [] h) [
        | inl o ↦ rw o.0 o.1
        | inr o ↦ cc (o.0, rw newer at ok)
      ]),
      SameLog-persist n term [] n.store.state.commit,
      λ same. absurd (omega (arith, ltb→lt n.store.state.term term newer)),
    )
    | inr older ↦ rw older (ground (arith, older), (refl, refl), λ _. refl)
  ]

  step_down_done :
      durable_term.1 ≡ true
      → step_down n term id ≡ (
        become_follower durable_term.0 (not (is_follower n.role) || ltb n.store.state.term term) id,
        true,
      )
  unfolding step_down durable_term
  step_down_done t = rw t

  step_down_failed : durable_term.1 ≡ false → step_down n term id ≡ (durable_term.0, false)
  unfolding step_down durable_term
  step_down_failed t = rw t

  -- A node that steps down to a term that is not behind its own, with success, is in that term with
  -- the log that it had, and with the vote that it had if the term is not new.
  pub step_down_outcome :
      IsLog n.store.state
      → (step_down n term id).1 ≡ true
      → n.store.state.term ≤ term
      → ((step_down n term id).0.store.state.term ≡ term)
        × SameLog n (step_down n term id).0
        × (n.store.state.term ≡ term
            → (step_down n term id).0.store.state.vote ≡ n.store.state.vote)
  step_down_outcome h ok up = elim (Bool-cases durable_term.1) [
    | inr f ↦ cc (step_down_failed f, ok)
    | inl t ↦
        let o = durable_term_outcome h t up in
        let same =
          Same-become_follower durable_term.0
            (not (is_follower n.role) || ltb n.store.state.term term) id in
        rw (step_down_done t) (rw same.state o)
  ]

  role-become_follower :
      (n : Node) (changed : Bool) → is_leader (become_follower n changed id).role ≡ false
  unfolding become_follower emit fail_pending
  role-become_follower n true = refl
  role-become_follower n false = refl

  -- A node that has stepped down does not lead.
  pub role-step_down :
      (step_down n term id).1 ≡ true → is_leader (step_down n term id).0.role ≡ false
  role-step_down ok = elim step_down_cases [
    | inl e ↦ rw e (role-become_follower durable_term.0 _)
    | inr e ↦ cc (e, ok)
  ]

  pending-become_follower :
      (n : Node) (changed : Bool) → (become_follower n changed id).pending ≡ []
  unfolding become_follower emit fail_pending
  pending-become_follower n true = refl
  pending-become_follower n false = refl

  -- Nobody waits at it.
  pub pending-step_down : (step_down n term id).1 ≡ true → (step_down n term id).0.pending ≡ []
  pending-step_down ok = elim step_down_cases [
    | inl e ↦ rw e (pending-become_follower durable_term.0 _)
    | inr e ↦ cc (e, ok)
  ]
