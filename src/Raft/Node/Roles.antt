-- ===== src/Raft/Node/Roles.antt =====
-- internal/raft/node.go: what the helpers of a handler do to the role, the votes and the term.
use shard_zero.Prelude.{
  ℕ, ◌≡◌, ◌⊎◌, refl, ◌∙◌, Bool, true, false, none, List, [], Text, ltb, inl, inr, Bool-cases,
  Option-cases, if◌then◌else◌,
}
use shard_zero.Raft.Types.{Entry}
use shard_zero.Raft.Store.{Store, save, transaction, validate, accept}
use shard_zero.Raft.Store.Journal.{append_record}
use shard_zero.Raft.Node.{Node, follower, persist, become_follower, step_down, emit, fail_pending}

-- A handler that elects nobody: the node follows, or its role, its votes and its term are the same.
pub data Humble (n m : Node) : Type 0 where
  follows : m.role ≡ follower → Humble n m
  as_before :
      m.role ≡ n.role → m.votes ≡ n.votes → m.store.state.term ≡ n.store.state.term → Humble n m

pub Humble-refl : (n : Node) → Humble n n
Humble-refl n = as_before refl refl refl

pub Humble-trans : {n m k : Node} → Humble n m → Humble m k → Humble n k
Humble-trans p (follows e) = follows e
Humble-trans (follows e) (as_before r _ _) = follows (r ∙ e)
Humble-trans (as_before r v t) (as_before r' v' t') = as_before (r' ∙ r) (v' ∙ v) (t' ∙ t)

pub Humble-if : {n m k : Node} (b : Bool) → Humble n m → Humble n k → Humble n (if b then m else k)
Humble-if true p q = p
Humble-if false p q = q

-- A record that is written without an error has set the term.
term-save :
    (s : Store) (term : ℕ) (vote : Text) (commit from : ℕ) (entries : List Entry)
    → (save s term vote commit from entries).1 ≡ none
    → (save s term vote commit from entries).0.state.term ≡ term
unfolding save accept
term-save s term vote commit from entries h =
    let r = transaction s term vote commit from entries in
    elim (Option-cases (validate s.identity s.state r)) [
      | inr (e, bad) ↦ cc (rw (bad, save) at h)
      | inl good ↦ elim (Bool-cases (append_record s.wal r).1) [
        | inr lost ↦ cc (rw (good, lost, save) at h)
        | inl stored ↦ rw (good, stored, save) refl
      ]
    ]

module _ (n : Node) (term : ℕ) (vote : Text) (commit from : ℕ) (entries : List Entry) where
  -- A write that is reported as durable changes neither the role nor the votes; one that is not makes
  -- the node follow.
  pub persist-Roles :
      (((persist n term vote commit from entries).1 ≡ false)
        × ((persist n term vote commit from entries).0.role ≡ follower))
      ⊎ (((persist n term vote commit from entries).1 ≡ true)
          × ((persist n term vote commit from entries).0.role ≡ n.role)
          × ((persist n term vote commit from entries).0.votes ≡ n.votes)
          × ((persist n term vote commit from entries).0.store.state.term ≡ term))
  unfolding persist
  persist-Roles = elim (Option-cases (save n.store term vote commit from entries).1) [
    | inl ok ↦
        rw (ok, persist)
          (inr (refl, refl, refl, term-save n.store term vote commit from entries ok))
    | inr (e, bad) ↦ rw (bad, persist) (inl (refl, refl))
  ]

  pub persist-Humble :
      term ≡ n.store.state.term → Humble n (persist n term vote commit from entries).0
  persist-Humble same = elim persist-Roles [
    | inl (_, r) ↦ follows r
    | inr (_, r, v, t) ↦ as_before r v (t ∙ same)
  ]

  pub persist-follower :
      n.role ≡ follower → (persist n term vote commit from entries).0.role ≡ follower
  persist-follower h = elim persist-Roles [ inl (_, r) ↦ r | inr (_, r, _, _) ↦ r ∙ h ]

role-become_follower :
    (n : Node) (changed : Bool) (id : Text) → (become_follower n changed id).role ≡ follower
unfolding become_follower emit fail_pending
role-become_follower n true id = refl
role-become_follower n false id = refl

-- A node that steps down follows, whether the new term could be stored or not.
pub role-step_down : (n : Node) (term : ℕ) (id : Text) → ((step_down n term id).0.role ≡ follower)
unfolding step_down
role-step_down n term id = elim (Bool-cases (ltb n.store.state.term term)) [
  | inr old ↦ rw old (role-become_follower n _ id)
  | inl new ↦ elim (persist-Roles n term [] n.store.state.commit 0 []) [
    | inl (lost, r) ↦ rw (new, lost) r
    | inr (stored, _, _, _) ↦
        rw (new, stored) (role-become_follower (persist n term [] n.store.state.commit 0 []).0 _ id)
  ]
]

pub step_down-Humble : (n : Node) (term : ℕ) (id : Text) → Humble n (step_down n term id).0
step_down-Humble n term id = follows (role-step_down n term id)

pub emit-Humble :
    (n : Node) (kind : Text) (index : ℕ) (peer message : Text)
    → Humble n (emit n kind index peer message)
unfolding emit
emit-Humble n kind index peer message = as_before refl refl refl
