-- ===== src/Raft/Commit/Holding.antt =====
-- internal/raft/node.go, advanceCommitLocked: which members a leader counts.
use shard_zero.Prelude.{
  ℕ, suc, ◌+◌, ◌*◌, ◌/◌, ◌<◌, ◌≤◌, ◌≡◌, refl, ap, subst, true, false, [], ◌∷◌, arith, length,
  ltb→lt, Bool-cases, inl, inr, Text, ◌≢◌, leb, not, ◌&&◌, text_eq, text_eq_iff, Includes, Sublist,
  no_more, keep, skip,
}
use shard_zero.Prelude.Dict.{Dict, text_key, read}
use shard_zero.Raft.Types.{Peer}
use shard_zero.Raft.Node.{Node, entry_locked}
use shard_zero.Raft.Commit.{acks, has_quorum}

-- Some of the other members, all of which have acknowledged `index`.
pub record Holders (n : Node) (index : ℕ) (who : Dict Text Peer) : Type 0 where
  pub members : Sublist who n.peers
  pub others : (p : Text) (x : Peer) → Includes who (p, x) → p ≢ n.cfg.id
  pub acknowledged : (p : Text) (x : Peer) → Includes who (p, x) → index ≤ read n.match p 0

-- An entry that the leader may commit: of its own term, and held by a strict majority of the members,
-- the leader and some that have acknowledged it.
pub record MayCommit (n : Node) (index : ℕ) : Type 0 where
  pub own_term : (entry_locked n index).term ≡ n.store.state.term
  pub who : Dict Text Peer
  pub holders : Holders n index who
  pub majority : length n.peers < 2 * (1 + length who)

module _ (id : Text) (matched : Dict Text ℕ) (index : ℕ) where
  -- Those that `acks` counts.
  acks_counts :
      (peers : Dict Text Peer)
      → (who : Dict Text Peer) × Sublist who peers
        × ((p : Text) (x : Peer) → Includes who (p, x) → (p ≢ id) × (index ≤ read matched p 0))
        × (length who ≡ acks peers id matched index)
  unfolding acks
  acks_counts [] = ([], no_more, λ p x h. absurd h, refl)
  acks_counts ((q, y) ∷ peers) =
      let (who, part, all, size) = acks_counts peers in
      elim (Bool-cases (not (text_eq q id) && leb index (read matched q 0))) [
        | inl counted ↦
            let other : q ≢ id = λ same. ground (arith, counted, (text_eq_iff q id).1 same) in
            let holds : index ≤ read matched q 0 = ground (arith, counted) in
            (
              (q, y) ∷ who,
              keep (q, y) part,
              λ p x h. elim h [
                | inl e ↦
                    subst (λ k. (k ≢ id) × (index ≤ read matched k 0))
                      (ap (λ (z : Text × Peer). z.0) e) (other, holds)
                | inr h' ↦ all p x h'
              ],
              rw counted (ap suc size),
            )
        | inr left_out ↦ (who, skip (q, y) part, all, rw left_out size)
      ]

  -- No more than it counts have acknowledged.
  acks_bound :
      (peers who : Dict Text Peer)
      → Sublist who peers
      → ((p : Text) (x : Peer) → Includes who (p, x) → (p ≢ id) × (index ≤ read matched p 0))
      → length who ≤ acks peers id matched index
  unfolding acks
  acks_bound _ _ no_more all = omega arith
  acks_bound ((q, y) ∷ peers) (_ ∷ who) (keep _ part) all =
      let (other, holds) = all q y (inl refl) in
      let below = acks_bound peers who part (λ p x h. all p x (inr h)) in
      elim (Bool-cases (text_eq q id)) [
        | inl same ↦ absurd (other ((text_eq_iff q id).0 same))
        | inr differs ↦ ground (arith, differs, holds, below)
      ]
  acks_bound ((q, y) ∷ peers) who (skip _ part) all =
      let below = acks_bound peers who part all in ground (arith, below)

pub has_quorum_lem :
    (n : Node) (index : ℕ)
    → (entry_locked n index).term ≡ n.store.state.term
    → has_quorum n index ≡ true
    → MayCommit n index
unfolding has_quorum
has_quorum_lem n index own h =
    let (who, part, all, size) = acks_counts n.cfg.id n.match index n.peers in
    record {
      own_term = own;
      who = who;
      holders = record {
        members = part;
        others = λ p x k. (all p x k).0;
        acknowledged = λ p x k. (all p x k).1;
      };
      majority =
          omega
            (arith, size, ltb→lt (length n.peers / 2) (1 + acks n.peers n.cfg.id n.match index) h);
    }

pub no_quorum_lem : (n : Node) (index : ℕ) → has_quorum n index ≡ false → MayCommit n index → ⊥
unfolding has_quorum
no_quorum_lem n index h may =
    let few : 1 + acks n.peers n.cfg.id n.match index ≤ length n.peers / 2 = ground (arith, h) in
    let bound =
      acks_bound n.cfg.id n.match index n.peers may.who may.holders.members
        (λ p x k. (may.holders.others p x k, may.holders.acknowledged p x k)) in
    omega (arith, few, bound, may.majority)
