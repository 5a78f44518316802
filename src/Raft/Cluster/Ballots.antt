-- ===== src/Raft/Cluster/Ballots.antt =====
-- internal/raft: the votes of a cluster, and what a candidate or a leader has of them.
use shard_zero.Prelude.{
  ℕ, ◌/◌, ◌<◌, ◌≤◌, ◌≡◌, ◌≢◌, ◌⊎◌, inl, inr, refl, sym, ap, ◌∙◌, List, [], ◌∷◌, Text, text_eq,
  text_eq_iff, length, Includes, arith, Bool-cases, if◌then◌else◌,
}
use shard_zero.Prelude.Dict.{text_key, read, HasUniqueKeys}
use shard_zero.Raft.Types.{Config}
use shard_zero.Raft.Node.{Node, follower, leader, no_peer}
use shard_zero.Raft.Store.Recalling.{Remembers, Recalls}
use shard_zero.Raft.Node.Effects.{IsSound, Evolves}
use shard_zero.Raft.Cluster.Quorums.{HasKey}

-- A vote that a member stored.
pub record Ballot : Type 0 where
  pub voter : Text
  pub term : ℕ
  pub candidate : Text

abbrev pub ballot : Text → ℕ → Text → Ballot
ballot voter term candidate = record { voter = voter; term = term; candidate = candidate }

-- The ballots once the member of a name has another state.
abbrev pub cast : Text → Node → List Ballot → List Ballot
cast i m bs =
    if text_eq m.store.state.vote []
    then bs
    else ballot i m.store.state.term m.store.state.vote ∷ bs

pub cast_before :
    (i : Text) (m : Node) (bs : List Ballot) (b : Ballot) → Includes bs b → Includes (cast i m bs) b
cast_before i m bs b h = elim (Bool-cases (text_eq m.store.state.vote [])) [
  | inl t ↦ rw t h
  | inr f ↦ rw f (inr h)
]

pub cast_own :
    (i : Text) (m : Node) (bs : List Ballot)
    → m.store.state.vote ≢ []
    → Includes (cast i m bs) (ballot i m.store.state.term m.store.state.vote)
cast_own i m bs h = elim (Bool-cases (text_eq m.store.state.vote [])) [
  | inl t ↦ absurd (h ((text_eq_iff m.store.state.vote []).0 t))
  | inr f ↦ rw f (inl refl)
]

pub cast_cases :
    (i : Text) (m : Node) (bs : List Ballot) (b : Ballot)
    → Includes (cast i m bs) b
    → Includes bs b
      ⊎ ((m.store.state.vote ≢ []) × (ballot i m.store.state.term m.store.state.vote ≡ b))
cast_cases i m bs b h = elim (Bool-cases (text_eq m.store.state.vote [])) [
  | inl t ↦ inl (rw t at h)
  | inr f ↦
      elim (rw f at h)
        as (λ _.
          Includes bs b
          ⊎ ((m.store.state.vote ≢ []) × (ballot i m.store.state.term m.store.state.vote ≡ b))) [
            | inl e ↦ inr (λ e. cc (f, (text_eq_iff m.store.state.vote []).1 e), e)
            | inr rest ↦ inl rest
          ]
]

-- The member of a name: it is sound, it has that name, it knows the members, and its journal recalls
-- its term and its vote.
pub record Member (ids : List Text) (i : Text) (n : Node) : Type 0 where
  pub sound : IsSound n
  pub named : n.cfg.id ≡ i
  pub size : length n.peers ≡ length ids
  pub knows : (j : Text) → Includes ids j → (read n.peers j no_peer).id ≡ j
  pub recalls : Recalls n.store

pub Member-Evolves :
    {ids : List Text} {i : Text} {n m : Node}
    → Evolves n m
    → IsSound m
    → Member ids i n
    → Member ids i m
Member-Evolves e s h = record {
  sound = s;
  named = ap (λ (g : Config). g.id) e.cfg ∙ h.named;
  size = rw e.peers h.size;
  knows = λ j k. rw e.peers (h.knows j k);
  recalls = e.recalls h.recalls;
}

pub Evolves-Remembers : {n m : Node} → Evolves n m → Remembers n.store.state m.store.state
Evolves-Remembers e = record { term_up = e.state.term_up; one_vote = e.state.one_vote }

-- The state of a voter stands by a ballot: its term is not before it, and in its term that is its vote.
pub record StandsBy (n : Node) (b : Ballot) : Type 0 where
  pub named : b.candidate ≢ []
  pub not_before : b.term ≤ n.store.state.term
  pub kept : n.store.state.term ≡ b.term → n.store.state.vote ≡ b.candidate

pub StandsBy-Remembers :
    {n m : Node} {b : Ballot} → Remembers n.store.state m.store.state → StandsBy n b → StandsBy m b
StandsBy-Remembers {n} {m} {b} e h = record {
  named = h.named;
  not_before = omega (arith, h.not_before, e.term_up);
  kept = λ t.
      let early : n.store.state.term ≡ b.term = omega (arith, h.not_before, e.term_up, t) in
      let voted : n.store.state.vote ≡ b.candidate = h.kept early in
      e.one_vote (t ∙ sym early) (λ z. h.named (sym voted ∙ z)) ∙ voted;
}

-- A node follows, or its votes are ballots of members for it in its term, and enough if it leads.
pub data Standing (ids : List Text) (bs : List Ballot) (n : Node) : Type 0 where
  steps_back : n.role ≡ follower → Standing ids bs n
  runs :
      HasUniqueKeys n.votes
      → ((p : Text)
          → HasKey n.votes p
          → Includes ids p × Includes bs (ballot p n.store.state.term n.cfg.id))
      → (n.role ≡ leader → length ids / 2 < length n.votes)
      → Standing ids bs n

-- More ballots do not change that.
pub Standing-cast :
    {ids : List Text} {n : Node} (i : Text) (m : Node) (bs : List Ballot)
    → Standing ids bs n
    → Standing ids (cast i m bs) n
Standing-cast i m bs (steps_back f) = steps_back f
Standing-cast {ids} {n} i m bs (runs u v q) =
    runs u (λ p k. ((v p k).0, cast_before i m bs _ (v p k).1)) q
