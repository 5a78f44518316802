-- ===== src/Raft/Election/Effects.antt =====
-- internal/raft/node.go, rpc.go and runtime.go: elections keep a node sound.
use shard_zero.Prelude.{
  ℕ, refl, Bool, List, [], ◌∷◌, Text, bytes, text_eq, ltb, true, false, ◌||◌, not, Bool-cases, inl,
  inr, arith,
}
use shard_zero.Prelude.Dict.{Dict, put, text_key}
use shard_zero.Raft.Types.{Peer, VoteRequest, VoteResponse}
use shard_zero.Raft.Node.{Node, step_down, available, member}
use shard_zero.Raft.Node.Effects.{
  Same-kept, Good, Good-trans, Good-refl, Good-if, Good-pick, Same, Same-refl, Same-trans, Same-if,
  Same-emit, Same-Good,
}
use shard_zero.Raft.Node.Persisting.{persist-Good}
use shard_zero.Raft.Node.Stepping.{step_down-Good}
use shard_zero.Raft.Replication.Effects.{kick-Good}
use shard_zero.Raft.Commit.Effects.{advance_commit-Good}
use shard_zero.Raft.Election.{
  take_lead, become_leader, ask_votes, campaign, start_election, vote_response, consider_vote,
  request_vote, count_vote, weigh_response, grant_vote, answer_candidate, VoteAnswer, enter_term,
  vote_in_term,
}

take_lead-Good : (n : Node) → Good n (take_lead n)
unfolding take_lead
take_lead-Good n = Same-Good (Same-kept refl refl refl refl refl refl refl refl)

pub become_leader-Good : (n : Node) → Good n (become_leader n)
unfolding become_leader
become_leader-Good n =
    let lead = take_lead n in
    Good-trans (take_lead-Good n) (
      Good-if _
        (Good-trans (persist-Good lead _ _ _ _ _ refl (inr (inl (omega arith)))) (
          Good-trans (Same-Good (Same-kept refl refl refl refl refl refl refl refl))
            (Good-trans (advance_commit-Good _) (kick-Good _))))
        (persist-Good lead _ _ _ _ _ refl (inr (inl (omega arith)))))

pub Same-ask_votes :
    (req : VoteRequest) (peers : List Peer) (n : Node) → Same n (ask_votes n req peers)
unfolding ask_votes
Same-ask_votes req [] n = Same-refl n
Same-ask_votes req (p ∷ peers) n =
    Same-trans
      (Same-if (text_eq p.id n.cfg.id) (Same-refl n)
        (Same-kept refl refl refl refl refl refl refl refl))
      (Same-ask_votes req peers _)

campaign-Good : (n : Node) (term : ℕ) → Good n (campaign n term)
unfolding campaign
campaign-Good n term =
    Good-trans (Same-Good (Same-kept refl refl refl refl refl refl refl refl))
      (Good-if _ (become_leader-Good _) (Same-Good (Same-ask_votes _ _ _)))

-- Starting an election keeps a node sound.
pub start_election-Good : (n : Node) → Good n (start_election n)
unfolding start_election
start_election-Good n =
    Good-if _ (Good-trans (persist-Good n _ _ _ _ _ refl (inl refl)) (campaign-Good _ _))
      (persist-Good n _ _ _ _ _ refl (inl refl))

count_vote-Good : (n : Node) (peer : Peer) (granted : Bool) → Good n (count_vote n peer granted)
unfolding count_vote
count_vote-Good n peer granted =
    Good-if granted
      (Good-trans (Same-Good (Same-votes n (put n.votes peer.id true)))
        (Good-if _ (become_leader-Good _) (Good-refl _)))
      (Good-refl n)
  where
    Same-votes : (n : Node) (votes : Dict Text Bool) → Same n (record n { votes = votes })
    Same-votes n votes = Same-kept refl refl refl refl refl refl refl refl

weigh_response-Good :
    (n : Node) (req : VoteRequest) (resp : VoteResponse) (peer : Peer)
    → Good n (weigh_response n req resp peer)
unfolding weigh_response
weigh_response-Good n req resp peer =
    Good-if _ (step_down-Good n resp.term [])
      (Good-if _ (Good-refl n) (count_vote-Good n peer resp.granted))

-- So does an answer to a request for a vote.
pub vote_response-Good :
    (n : Node) (peer : Peer) (req : VoteRequest) (resp : VoteResponse) (failed : Bool)
    → Good n (vote_response n peer req resp failed)
unfolding vote_response
vote_response-Good n peer req resp failed = Good-if _ (Good-refl n) (
    Good-trans (Same-Good (Same-emit n (bytes "VOTE_RESPONSE") 0 peer.id req.message_id))
      (weigh_response-Good _ req resp peer))

grant_vote-Good :
    (n : Node) (durable : Bool) (req : VoteRequest) → Good n (grant_vote n durable req).0
unfolding grant_vote
grant_vote-Good n true req = Same-Good (Same-kept refl refl refl refl refl refl refl refl)
grant_vote-Good n false req = Good-refl n

consider_vote-Good : (n : Node) (req : VoteRequest) → Good n (consider_vote n req).0
unfolding consider_vote
consider_vote-Good n req =
    Good-pick (λ (x : VoteAnswer). x.0) _
      (Good-trans
        (Good-pick (λ (x : Node × Bool). x.0) (text_eq n.store.state.vote [])
          (persist-Good n req.term req.candidate_id n.store.state.commit 0 [] refl (inl refl))
          (Good-refl n))
        (grant_vote-Good _ _ req))
      (Good-refl n)

pub enter_term-Good : (n : Node) (req : VoteRequest) → Good n (enter_term n req).0
enter_term-Good n req =
    Good-pick {n = n} {p = step_down n req.term []} {q = (n, true)} (λ (x : Node × Bool). x.0)
      (ltb n.store.state.term req.term) (step_down-Good n req.term []) (Good-refl n)

vote_in_term-Good :
    (n : Node) (durable : Bool) (req : VoteRequest) → Good n (vote_in_term n durable req).0
unfolding vote_in_term
vote_in_term-Good n true req = consider_vote-Good n req
vote_in_term-Good n false req = Good-refl n

answer_candidate-Good : (n : Node) (req : VoteRequest) → Good n (answer_candidate n req).0
unfolding answer_candidate
answer_candidate-Good n req =
    elim (Bool-cases (not (text_eq n.cfg.fixed_leader []) || ltb req.term n.store.state.term)) [
      | inl t ↦ rw t (Good-refl n)
      | inr f ↦ rw f (Good-trans (enter_term-Good n req) (vote_in_term-Good _ _ req))
    ]

-- And a request for a vote, whatever is answered.
pub request_vote-Good : (n : Node) (req : VoteRequest) → Good n (request_vote n req).0
unfolding request_vote
request_vote-Good n req = elim (Bool-cases (not (available n))) [
  | inl t ↦ rw t (Good-refl n)
  | inr f ↦ rw f (elim (Bool-cases (not (member n req.candidate_id req.cluster_id))) [
    | inl t ↦ rw t (Good-refl n)
    | inr f ↦ rw f (
        Good-trans
          (Same-Good (Same-emit n (bytes "VOTE_RECEIVED") 0 req.candidate_id req.message_id))
          (answer_candidate-Good _ req))
  ])
]
