-- ===== src/Raft/Election/Counting.antt =====
-- internal/raft/runtime.go, voteResponseLocked: how a vote is counted.
use shard_zero.Prelude.{
  ◌/◌, ◌<◌, ◌≡◌, refl, Bool, true, false, not, ◌||◌, ◌==◌, [], Text, bytes, length, ltb, ltb→lt,
  inl, inr, Bool-cases, arith,
}
use shard_zero.Prelude.Dict.{text_key, put}
use shard_zero.Raft.Types.{Peer, VoteRequest, VoteResponse}
use shard_zero.Raft.Node.{Node, Role, follower, candidate, leader, is_candidate, emit, available}
use shard_zero.Raft.Node.Roles.{
  Humble, follows, Humble-refl, Humble-trans, emit-Humble, step_down-Humble,
}
use shard_zero.Raft.Election.{vote_response, count_vote, weigh_response}
use shard_zero.Raft.Election.Roles.{gives_up, leads, become_leader-Leads}

-- What an answer to a request for a vote can do: nothing, or count one vote.
pub data Counts (n m : Node) (voter : Text) (resp : VoteResponse) : Type 0 where
  ignores : Humble n m → Counts n m voter resp
  counts :
      resp.granted ≡ true
      → resp.term ≡ n.store.state.term
      → n.role ≡ candidate
      → m.votes ≡ put n.votes voter true
      → m.store.state.term ≡ n.store.state.term
      → (m.role ≡ leader → length n.peers / 2 < length m.votes)
      → Counts n m voter resp

won-Counts :
    (n : Node) (peer : Peer) (resp : VoteResponse)
    → n.role ≡ candidate
    → resp.term ≡ n.store.state.term
    → resp.granted ≡ true
    → Counts n (count_vote n peer true) peer.id resp
unfolding count_vote
won-Counts n peer resp standing same granted =
    let m = record n { votes = put n.votes peer.id true } in
    elim (Bool-cases (ltb (length m.peers / 2) (length m.votes))) [
      | inr few ↦ rw few (counts granted same standing refl refl (λ e. cc (standing, e)))
      | inl enough ↦ rw enough (elim (become_leader-Leads m) [
        | gives_up e ↦ ignores (follows e)
        | leads r v t ↦ counts granted same standing v t (λ _. rw v (ltb→lt _ _ enough))
      ])
    ]

count_vote-Counts :
    (n : Node) (peer : Peer) (resp : VoteResponse) (granted : Bool)
    → resp.granted ≡ granted
    → n.role ≡ candidate
    → resp.term ≡ n.store.state.term
    → Counts n (count_vote n peer granted) peer.id resp
count_vote-Counts n peer resp true given standing same = won-Counts n peer resp standing same given
count_vote-Counts n peer resp false given standing same =
    unfold count_vote in ignores (Humble-refl n)

is_candidate-eq : (r : Role) → is_candidate r ≡ true → r ≡ candidate
is_candidate-eq candidate h = refl
is_candidate-eq follower h = cc
is_candidate-eq leader h = cc

weigh_response-Counts :
    (n : Node) (req : VoteRequest) (resp : VoteResponse) (peer : Peer)
    → Counts n (weigh_response n req resp peer) peer.id resp
unfolding weigh_response
weigh_response-Counts n req resp peer = elim (Bool-cases (ltb n.store.state.term resp.term)) [
  | inl newer ↦ rw newer (ignores (step_down-Humble n resp.term []))
  | inr old ↦
      rw old
        (elim (Bool-cases (
          not (is_candidate n.role)
          || not (n.store.state.term == req.term)
          || not (resp.term == req.term))) [
            | inl stale ↦ rw stale (ignores (Humble-refl n))
            | inr fresh ↦ rw fresh (
                count_vote-Counts n peer resp resp.granted refl
                  (is_candidate-eq n.role (ground (arith, fresh))) (ground (arith, fresh)))
          ])
]

Counts-emit :
    (n m : Node) (voter : Text) (resp : VoteResponse) (kind : Text) (peer message : Text)
    → Counts (emit n kind 0 peer message) m voter resp
    → Counts n m voter resp
unfolding emit
Counts-emit n m voter resp kind peer message (ignores h) =
    ignores (Humble-trans (emit-Humble n kind 0 peer message) h)
Counts-emit n m voter resp kind peer message (counts g t r v s e) = counts g t r v s e

pub vote_response-Counts :
    (n : Node) (peer : Peer) (req : VoteRequest) (resp : VoteResponse) (failed : Bool)
    → Counts n (vote_response n peer req resp failed) peer.id resp
unfolding vote_response
vote_response-Counts n peer req resp failed = elim (Bool-cases (not (available n) || failed)) [
  | inl down ↦ rw down (ignores (Humble-refl n))
  | inr up ↦ rw up (
      Counts-emit n _ peer.id resp (bytes "VOTE_RESPONSE") peer.id req.message_id (
        weigh_response-Counts (emit n (bytes "VOTE_RESPONSE") 0 peer.id req.message_id) req resp
          peer))
]
