-- ===== src/Raft/Cluster/Safety.antt =====
-- internal/raft: elections over a cluster: a term has one leader, and it has the votes of a majority.
use shard_zero.Prelude.{◌/◌, ◌<◌, ◌≤◌, ◌≡◌, ◌≢◌, refl, sym, ◌∙◌, List, [], Text, length, Includes}
use shard_zero.Prelude.Dict.{text_key, HasUniqueKeys}
use shard_zero.Raft.Node.{Node, follower, leader}
use shard_zero.Raft.Cluster.{Cluster, Runs, start, next}
use shard_zero.Raft.Cluster.Quorums.{HasKey, quorums_meet}
use shard_zero.Raft.Cluster.Ballots.{Ballot, ballot, Member, Standing, steps_back, runs}
use shard_zero.Raft.Cluster.Keeping.{Safe}
use shard_zero.Raft.Cluster.Voting.{Move-Safe}

-- A cluster at its start: its members are sound, know each other, have journals that recall their terms
-- and votes, and follow.
pub record Starts (ids : List Text) (c : Cluster) : Type 0 where
  pub real : (i : Text) → Includes ids i → i ≢ []
  pub member : (i : Text) → Includes ids i → Member ids i (c.nodes i)
  pub follows : (i : Text) → Includes ids i → (c.nodes i).role ≡ follower
  pub silent : c.answers ≡ []

Runs-Safe :
    (ids : List Text) {c d : Cluster}
    → Runs ids c d
    → Starts ids c
    → (bs : List Ballot) × Safe ids d bs
Runs-Safe ids (start c) s = (
  [],
  record {
    real = s.real;
    member = s.member;
    honest = λ b h. absurd h;
    once = λ a b h k. absurd h;
    answered = λ a h. absurd (rw s.silent at h);
    standing = λ i h. steps_back (s.follows i h);
  },
)
Runs-Safe ids (next r m) s = let (bs, safe) = Runs-Safe ids r s in Move-Safe ids bs m safe

-- the votes of a leader
leader-quorum :
    (ids : List Text) (bs : List Ballot) (n : Node)
    → n.role ≡ leader
    → Standing ids bs n
    → HasUniqueKeys n.votes
      × ((p : Text)
          → HasKey n.votes p
          → Includes ids p × Includes bs (ballot p n.store.state.term n.cfg.id))
      × (length ids / 2 < length n.votes)
leader-quorum ids bs n lead (steps_back f) = cc (lead, f)
leader-quorum ids bs n lead (runs u has enough) = (u, has, enough lead)

-- Election safety: whatever the members of a cluster are asked, whenever their clocks and their disks
-- let them act, whatever answers the network delivers, repeats or loses, and however often members stop
-- and start again from their journals with the same name and members and no fixed leader, two members
-- that lead in the same term are the same member. At the start the members are sound, have the members'
-- list and a journal that recalls their term and vote, and follow.
pub one_leader_a_term :
    (ids : List Text) (c d : Cluster)
    → Runs ids c d
    → Starts ids c
    → (i j : Text) → Includes ids i
    → Includes ids j
    → (d.nodes i).role ≡ leader
    → (d.nodes j).role ≡ leader
    → (d.nodes i).store.state.term ≡ (d.nodes j).store.state.term
    → i ≡ j
one_leader_a_term ids c d run s i j hi hj li lj same =
    let (bs, safe) = Runs-Safe ids run s in
    let (ui, vi, qi) = leader-quorum ids bs (d.nodes i) li (safe.standing i hi) in
    let (uj, vj, qj) = leader-quorum ids bs (d.nodes j) lj (safe.standing j hj) in
    let (p, ki, kj) =
      quorums_meet ids (d.nodes i).votes (d.nodes j).votes ui uj (λ p k. (vi p k).0)
        (λ p k. (vj p k).0) qi qj in
    sym (safe.member i hi).named
    ∙ safe.once _ _ (vi p ki).1 (vj p kj).1 refl same
    ∙ (safe.member j hj).named

-- A leader has the votes of more than half of the members: each of them stored it, is now in the
-- leader's term or a later one, and in the leader's term that is still its vote.
pub leader_has_votes :
    (ids : List Text) (c d : Cluster)
    → Runs ids c d
    → Starts ids c
    → (i : Text) → Includes ids i
    → (d.nodes i).role ≡ leader
    → (length ids / 2 < length (d.nodes i).votes)
      × HasUniqueKeys (d.nodes i).votes
      × ((p : Text)
          → HasKey (d.nodes i).votes p
          → Includes ids p
            × ((d.nodes i).store.state.term ≤ (d.nodes p).store.state.term)
            × ((d.nodes p).store.state.term ≡ (d.nodes i).store.state.term
                → (d.nodes p).store.state.vote ≡ i))
leader_has_votes ids c d run s i here lead =
    let (bs, safe) = Runs-Safe ids run s in
    let (unique, voters, enough) = leader-quorum ids bs (d.nodes i) lead (safe.standing i here) in
    (
      enough,
      unique,
      λ p k.
          let (inside, stored) = voters p k in
          let stood = safe.honest _ stored in
          (inside, stood.not_before, λ t. stood.kept t ∙ (safe.member i here).named),
    )
