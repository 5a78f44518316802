-- ===== src/Raft/Cluster/Keeping.antt =====
-- internal/raft: the ballots are a record of the votes of a cluster, and a step of one member keeps it.
use shard_zero.Prelude.{
  ◌≡◌, ◌≢◌, inl, inr, refl, sym, ap, ◌∙◌, true, List, [], ◌∷◌, Text, text_eq, text_eq_iff, Includes,
  arith, Bool-cases, subst,
}
use shard_zero.Prelude.Dict.{text_key}
use shard_zero.Raft.Node.{Node}
use shard_zero.Raft.Store.Recalling.{Remembers}
use shard_zero.Raft.Cluster.{Answer, Cluster, set_node}
use shard_zero.Raft.Cluster.Ballots.{
  Ballot, ballot, cast, cast_before, cast_cases, Member, StandsBy, StandsBy-Remembers, Standing,
  Standing-cast,
}

-- An answer that grants a vote has a ballot.
pub record HasBallot (ids : List Text) (bs : List Ballot) (a : Answer) : Type 0 where
  pub member : Includes ids a.voter
  pub granted :
      a.response.granted ≡ true
      → a.request.candidate_id ≢ []
      → Includes bs (ballot a.voter a.response.term a.request.candidate_id)

-- The ballots are a record of the votes of the cluster.
pub record Safe (ids : List Text) (c : Cluster) (bs : List Ballot) : Type 0 where
  pub real : (i : Text) → Includes ids i → i ≢ []
  pub member : (i : Text) → Includes ids i → Member ids i (c.nodes i)
  pub honest : (b : Ballot) → Includes bs b → StandsBy (c.nodes b.voter) b
  pub once :
      (a b : Ballot)
      → Includes bs a
      → Includes bs b
      → a.voter ≡ b.voter
      → a.term ≡ b.term
      → a.candidate ≡ b.candidate
  pub answered : (a : Answer) → Includes c.answers a → HasBallot ids bs a
  pub standing : (i : Text) → Includes ids i → Standing ids bs (c.nodes i)

-- What holds of the node that has changed and of the others holds of all.
set_node-at :
    (P : Node → Type 0) (nodes : Text → Node) (i : Text) (m : Node) (j : Text)
    → (i ≡ j → P m)
    → P (nodes j)
    → P (set_node nodes i m j)
set_node-at P nodes i m j new old = elim (Bool-cases (text_eq i j)) [
  | inl t ↦ rw t (new ((text_eq_iff i j).0 t))
  | inr f ↦ rw f old
]

module _ (ids : List Text) (c : Cluster) (bs : List Ballot) (i : Text) (m : Node)
    (safe : Safe ids c bs) (kept : Remembers (c.nodes i).store.state m.store.state) where
  honest_before : (b : Ballot) → Includes bs b → StandsBy (set_node c.nodes i m b.voter) b
  honest_before b h =
      set_node-at (λ n. StandsBy n b) c.nodes i m b.voter
        (λ e.
          StandsBy-Remembers {n = c.nodes i} {m = m} kept
            (subst (λ k. StandsBy (c.nodes k) b) (sym e) (safe.honest b h)))
        (safe.honest b h)

  -- A ballot of a member is not at odds with the vote that it has now.
  agrees :
      (b : Ballot)
      → Includes bs b
      → i ≡ b.voter
      → m.store.state.term ≡ b.term
      → m.store.state.vote ≡ b.candidate
  agrees b h e t =
      (StandsBy-Remembers {n = c.nodes i} {m = m} kept
          (subst (λ k. StandsBy (c.nodes k) b) (sym e) (safe.honest b h))).kept
        t

  once_now :
      (a b : Ballot)
      → Includes (cast i m bs) a
      → Includes (cast i m bs) b
      → a.voter ≡ b.voter
      → a.term ≡ b.term
      → a.candidate ≡ b.candidate
  once_now a b ha hb v t = elim (cast_cases i m bs a ha) [
    | inl olda ↦ elim (cast_cases i m bs b hb) [
      | inl oldb ↦ safe.once a b olda oldb v t
      | inr (_, newb) ↦
          sym (
            agrees a olda (ap (λ (x : Ballot). x.voter) newb ∙ sym v)
              (ap (λ (x : Ballot). x.term) newb ∙ sym t))
          ∙ ap (λ (x : Ballot). x.candidate) newb
    ]
    | inr (_, newa) ↦ elim (cast_cases i m bs b hb) [
      | inl oldb ↦
          sym (ap (λ (x : Ballot). x.candidate) newa)
          ∙ agrees b oldb (ap (λ (x : Ballot). x.voter) newa ∙ v)
              (ap (λ (x : Ballot). x.term) newa ∙ t)
      | inr (_, newb) ↦
          sym (ap (λ (x : Ballot). x.candidate) newa) ∙ ap (λ (x : Ballot). x.candidate) newb
    ]
  ]

  honest_now : (b : Ballot) → Includes (cast i m bs) b → StandsBy (set_node c.nodes i m b.voter) b
  honest_now b h = elim (cast_cases i m bs b h) [
    | inl old ↦ honest_before b old
    | inr (voted, new) ↦
        subst (λ (x : Ballot). StandsBy (set_node c.nodes i m x.voter) x) new
          (rw ((text_eq_iff i i).1 refl)
            (record { named = voted; not_before = omega arith; kept = λ _. refl }))
  ]

  -- One member has taken a step.
  pub Safe-step :
      Member ids i m
      → Standing ids (cast i m bs) m
      → Safe ids (record c { nodes = set_node c.nodes i m }) (cast i m bs)
  Safe-step now stands = record {
    real = safe.real;
    member = λ j k.
        set_node-at (Member ids j) c.nodes i m j (λ e. subst (λ x. Member ids x m) e now)
          (safe.member j k);
    honest = honest_now;
    once = once_now;
    answered = λ a h. record {
      member = (safe.answered a h).member;
      granted = λ g real. cast_before i m bs _ ((safe.answered a h).granted g real);
    };
    standing = λ j k.
        set_node-at (Standing ids (cast i m bs)) c.nodes i m j (λ _. stands)
          (Standing-cast i m bs (safe.standing j k));
  }

-- A member has given an answer.
pub Safe-answer :
    (ids : List Text) (c : Cluster) (bs : List Ballot) (a : Answer)
    → HasBallot ids bs a
    → Safe ids c bs
    → Safe ids (record c { answers = a ∷ c.answers }) bs
Safe-answer ids c bs a ballot safe = record {
  real = safe.real;
  member = safe.member;
  honest = safe.honest;
  once = safe.once;
  answered = λ b h. elim h as (λ _. HasBallot ids bs b) [
    | inl e ↦ subst (HasBallot ids bs) e ballot
    | inr rest ↦ safe.answered b rest
  ];
  standing = safe.standing;
}
