-- ===== src/Raft/Election/Roles.antt =====
-- internal/raft/node.go, rpc.go and runtime.go: who counts a vote, and who leads on votes.
use shard_zero.Prelude.{
  ℕ, ◌/◌, ◌<◌, ◌≡◌, ◌≢◌, ◌⊎◌, refl, sym, ap, ◌∙◌, Bool, true, false, not, ◌||◌, ◌&&◌, List, [], ◌∷◌,
  Text, bytes, text_eq, length, ltb, ltb→lt, inc64, inl, inr, Bool-cases, arith,
}
use shard_zero.Prelude.Dict.{text_key}
use shard_zero.Raft.Types.{Peer, Config, VoteRequest}
use shard_zero.Raft.Store.{Durable}
use shard_zero.Raft.Node.{
  Node, reset_timer, follower, candidate, leader, persist, emit, available, member, entry_locked,
  last_locked,
}
use shard_zero.Raft.Node.Effects.{Same-kept, IsSound, Same, Same-trans, Same-Good}
use shard_zero.Raft.Node.Persisting.{persist_outcome, persist-Good}
use shard_zero.Raft.Node.Roles.{
  Humble, follows, as_before, Humble-refl, Humble-trans, Humble-if, emit-Humble, persist-Roles,
  persist-Humble, persist-follower, step_down-Humble, role-step_down,
}
use shard_zero.Raft.Replication.Roles.{kick-Humble}
use shard_zero.Raft.Commit.Roles.{advance_commit-Humble}
use shard_zero.Raft.Election.{
  take_lead, become_leader, ask_votes, campaign, start_election, consider_vote, request_vote,
  grant_vote, answer_candidate, vote_in_term, store_vote, up_to_date,
}
use shard_zero.Raft.Election.Effects.{become_leader-Good, Same-ask_votes}

become_leader-Humble : (n : Node) → Humble (take_lead n) (become_leader n)
unfolding become_leader
become_leader-Humble n =
    let lead = take_lead n in
    Humble-if _
      (Humble-trans (persist-Humble lead _ lead.store.state.vote lead.store.state.commit _ _ refl) (
        Humble-trans (as_before refl refl refl)
          (Humble-trans (advance_commit-Humble _) (kick-Humble _))))
      (persist-Humble lead _ lead.store.state.vote lead.store.state.commit _ _ refl)

-- A node that becomes the leader leads on its votes in its term, or follows.
pub data Leads (n m : Node) : Type 0 where
  gives_up : m.role ≡ follower → Leads n m
  leads : m.role ≡ leader → m.votes ≡ n.votes → m.store.state.term ≡ n.store.state.term → Leads n m

pub become_leader-Leads : (n : Node) → Leads n (become_leader n)
become_leader-Leads n = elim (become_leader-Humble n) [
  | follows e ↦ gives_up e
  | as_before r v t ↦ unfold take_lead in leads r v t
]

ask_votes-Humble :
    (req : VoteRequest) (peers : List Peer) (n : Node) → Humble n (ask_votes n req peers)
unfolding ask_votes
ask_votes-Humble req [] n = Humble-refl n
ask_votes-Humble req (p ∷ peers) n =
    Humble-trans (Humble-if (text_eq p.id n.cfg.id) (Humble-refl n) (as_before refl refl refl))
      (ask_votes-Humble req peers _)

-- What the clock can do to the role and the votes of a node: nothing, or a candidacy on the node's own
-- vote, which is durable.
pub data Elects (n m : Node) : Type 0 where
  humble : Humble n m → Elects n m
  stands :
      m.votes ≡ (n.cfg.id, true) ∷ []
      → m.store.state.vote ≡ n.cfg.id
      → (m.role ≡ leader → length n.peers / 2 < 1)
      → Elects n m

-- a candidacy, or a node that fell back at once
data Stands (n m : Node) : Type 0 where
  falls : m.role ≡ follower → Stands n m
  stood :
      m.votes ≡ (n.cfg.id, true) ∷ []
      → m.store.state.vote ≡ n.cfg.id
      → (m.role ≡ leader → length n.peers / 2 < 1)
      → Stands n m

Stands-Elects : (n k m : Node) → k.cfg ≡ n.cfg → k.peers ≡ n.peers → Stands k m → Elects n m
Stands-Elects n k m c p (falls e) = humble (follows e)
Stands-Elects n k m c p (stood v own alone) =
    stands (v ∙ ap (λ (g : Config). (g.id, true) ∷ []) c) (own ∙ ap (λ (g : Config). g.id) c)
      (λ e. rw p at (alone e))

-- a candidate at the start of its campaign
candidacy : Node → Node
candidacy n =
    emit
      (record (reset_timer (record n { role = candidate; leader = [] })) {
        votes = (n.cfg.id, true) ∷ [];
      })
      (bytes "ELECTION_STARTED") 0 [] []

Same-candidacy : (n : Node) → Same n (candidacy n)
unfolding candidacy emit reset_timer
Same-candidacy n = Same-kept refl refl refl refl refl refl refl refl

become_leader-Stands :
    (n : Node)
    → IsSound n
    → n.cfg.id ≢ []
    → n.store.state.vote ≡ n.cfg.id
    → length n.peers / 2 < 1
    → Stands n (become_leader (candidacy n))
become_leader-Stands n s named own alone = go (become_leader-Leads (candidacy n))
  where
    go : Leads (candidacy n) (become_leader (candidacy n)) → Stands n (become_leader (candidacy n))
    go (gives_up e) = falls e
    go (leads r v t) =
        let same = Same-candidacy n in
        let kept = (become_leader-Good (candidacy n) (Same-Good same s).1).0.state in
        let vote : (candidacy n).store.state.vote ≡ n.cfg.id =
          ap (λ (d : Durable). d.vote) same.state ∙ own in
        stood (v ∙ unfold candidacy emit reset_timer in refl)
          (kept.one_vote t (λ e. named (sym vote ∙ e)) ∙ vote) (λ _. alone)

ask_votes-Stands :
    (n : Node) (req : VoteRequest) (peers : List Peer)
    → n.store.state.vote ≡ n.cfg.id
    → Stands n (ask_votes (candidacy n) req peers)
ask_votes-Stands n req peers own = go (ask_votes-Humble req peers (candidacy n))
  where
    go :
        Humble (candidacy n) (ask_votes (candidacy n) req peers)
        → Stands n (ask_votes (candidacy n) req peers)
    go (follows e) = falls e
    go (as_before r v t) =
        let same = Same-trans (Same-candidacy n) (Same-ask_votes req peers (candidacy n)) in
        stood (v ∙ unfold candidacy emit reset_timer in refl)
          (ap (λ (d : Durable). d.vote) same.state ∙ own)
          (λ e. unfold candidacy emit reset_timer in cc (r, e))

campaign-Stands :
    (n : Node) (term : ℕ)
    → IsSound n
    → n.cfg.id ≢ []
    → n.store.state.vote ≡ n.cfg.id
    → Stands n (campaign n term)
unfolding campaign candidacy
campaign-Stands n term s named own = elim (Bool-cases (ltb (length n.peers / 2) 1)) [
  | inl alone ↦ rw alone (become_leader-Stands n s named own (ltb→lt _ _ alone))
  | inr others ↦ rw others (ask_votes-Stands n _ n.cfg.peers own)
]

vote-persist :
    (n : Node) (term : ℕ) (vote : Text)
    → IsSound n
    → (persist n term vote n.store.state.commit 0 []).1 ≡ true
    → (persist n term vote n.store.state.commit 0 []).0.store.state.vote ≡ vote
vote-persist n term vote s durable =
    elim (persist_outcome n term vote n.store.state.commit 0 [] s.ready.log) [
      | inl o ↦ rw o.0 o.2
      | inr o ↦ cc (o.0, durable)
    ]

pub start_election-Elects : (n : Node) → IsSound n → n.cfg.id ≢ [] → Elects n (start_election n)
unfolding start_election
start_election-Elects n s named =
    let term = inc64 n.store.state.term in
    elim (persist-Roles n term n.cfg.id n.store.state.commit 0 []) [
      | inl (lost, r) ↦ rw lost (humble (follows r))
      | inr (durable, r, v, t) ↦
          let after = (persist n term n.cfg.id n.store.state.commit 0 []).0 in
          let (kept, sound) =
            persist-Good n term n.cfg.id n.store.state.commit 0 [] refl (inl refl) s in
          rw durable (
            Stands-Elects n after (campaign after term) kept.cfg kept.peers (
              campaign-Stands after term sound
                (λ e. named (sym (ap (λ (g : Config). g.id) kept.cfg) ∙ e))
                (vote-persist n term n.cfg.id s durable
                  ∙ sym (ap (λ (g : Config). g.id) kept.cfg))))
    ]

-- the call of `RequestVote` elects nobody
store_vote-Humble :
    (n : Node) (req : VoteRequest)
    → (req.term ≡ n.store.state.term) ⊎ (n.role ≡ follower)
    → Humble n (store_vote n req).0
store_vote-Humble n req h = elim (Bool-cases (text_eq n.store.state.vote [])) [
  | inr voted ↦ rw voted (Humble-refl n)
  | inl free ↦ rw free (elim h [
    | inl same ↦ persist-Humble n req.term req.candidate_id n.store.state.commit 0 [] same
    | inr f ↦ follows (persist-follower n req.term req.candidate_id n.store.state.commit 0 [] f)
  ])
]

grant_vote-Humble :
    (n : Node) (durable : Bool) (req : VoteRequest) → Humble n (grant_vote n durable req).0
unfolding grant_vote
grant_vote-Humble n true req = as_before refl refl refl
grant_vote-Humble n false req = Humble-refl n

consider_vote-Humble :
    (n : Node) (req : VoteRequest)
    → (req.term ≡ n.store.state.term) ⊎ (n.role ≡ follower)
    → Humble n (consider_vote n req).0
unfolding consider_vote
consider_vote-Humble n req h =
    elim (Bool-cases (
      up_to_date req (entry_locked n (last_locked n))
      && (text_eq n.store.state.vote [] || text_eq n.store.state.vote req.candidate_id))) [
        | inl t ↦ rw t (Humble-trans (store_vote-Humble n req h) (grant_vote-Humble _ _ req))
        | inr f ↦ rw f (Humble-refl n)
      ]

vote_in_term-Humble :
    (n : Node) (durable : Bool) (req : VoteRequest)
    → (req.term ≡ n.store.state.term) ⊎ (n.role ≡ follower)
    → Humble n (vote_in_term n durable req).0
unfolding vote_in_term
vote_in_term-Humble n true req h = consider_vote-Humble n req h
vote_in_term-Humble n false req h = Humble-refl n

answer_candidate-Humble : (n : Node) (req : VoteRequest) → Humble n (answer_candidate n req).0
unfolding answer_candidate
answer_candidate-Humble n req =
    elim (Bool-cases (not (text_eq n.cfg.fixed_leader []) || ltb req.term n.store.state.term)) [
      | inl t ↦ rw t (Humble-refl n)
      | inr f ↦ rw f (elim (Bool-cases (ltb n.store.state.term req.term)) [
        | inl newer ↦ rw newer (
            Humble-trans (step_down-Humble n req.term [])
              (vote_in_term-Humble _ _ req (inr (role-step_down n req.term []))))
        | inr old ↦ rw old (vote_in_term-Humble n true req (inl (ground (arith, f, old))))
      ])
    ]

pub request_vote-Humble : (n : Node) (req : VoteRequest) → Humble n (request_vote n req).0
unfolding request_vote
request_vote-Humble n req = elim (Bool-cases (not (available n))) [
  | inl t ↦ rw t (Humble-refl n)
  | inr f ↦ rw f (elim (Bool-cases (not (member n req.candidate_id req.cluster_id))) [
    | inl t ↦ rw t (Humble-refl n)
    | inr f ↦ rw f (
        Humble-trans (emit-Humble n (bytes "VOTE_RECEIVED") 0 req.candidate_id req.message_id) (
          answer_candidate-Humble (emit n (bytes "VOTE_RECEIVED") 0 req.candidate_id req.message_id)
            req))
  ])
]
