-- ===== src/Raft/Election.antt =====
-- internal/raft/node.go, rpc.go and runtime.go: elections. A candidate's requests go to `outbox` in
-- both modes; a live node hands each to its transport, and the answer comes back to `vote_response`.
pub mod Counting
pub mod Effects
pub mod Roles
pub mod Votes
use shard_zero.Prelude.{
  ℕ, ◌+◌, ◌/◌, Bool, true, false, ◌&&◌, ◌||◌, not, Option, none, some, List, [], ◌∷◌, ◌++◌, Text,
  bytes, decimal, text_eq, length, ltb, leb, ◌==◌, if◌then◌else◌, inc64,
}
use shard_zero.Prelude.Dict.{Dict, text_key, put}
use shard_zero.Raft.Types.{Peer, Entry, VoteRequest, VoteResponse}
use shard_zero.Raft.Node.{
  Node, candidate, leader, NodeError, unavailable, unknown_candidate, available, member,
  is_candidate, last_locked, entry_locked, emit, reset_timer, persist, step_down,
}
use shard_zero.Raft.Replication.{kick}
use shard_zero.Raft.Commit.{advance_commit}

-- the loop of `becomeLeaderLocked` over the members
reset_progress : Dict Text Peer → ℕ → Dict Text ℕ → Dict Text ℕ
reset_progress [] value progress = progress
reset_progress ((id, _) ∷ peers) value progress = reset_progress peers value (put progress id value)

-- `becomeLeaderLocked` up to the barrier that it writes
unfoldable pub take_lead : Node → Node
unfolding emit reset_progress
take_lead n =
    let n = emit (record n { role = leader; leader = n.cfg.id }) (bytes "LEADER_ELECTED") 0 [] [] in
    record n {
      next = reset_progress n.peers (last_locked n + 1) n.next;
      match = reset_progress n.peers 0 n.match;
    }

-- `becomeLeaderLocked`
unfoldable pub become_leader : Node → Node
unfolding take_lead
become_leader n =
    let n = take_lead n in
    let e : Entry = record {
      index = last_locked n + 1;
      term = n.store.state.term;
      command = none;
    } in
    let (n, durable) =
      persist n n.store.state.term n.store.state.vote n.store.state.commit e.index (e ∷ []) in
    if durable then kick (advance_commit (record n { match = put n.match n.cfg.id e.index })) else n

-- the loop of `startElectionLocked`
unfoldable pub ask_votes : Node → VoteRequest → List Peer → Node
unfolding emit
ask_votes n req [] = n
ask_votes n req (p ∷ peers) =
    let sequence = inc64 n.sequence in
    let request = record req { message_id = n.boot_id ++ (bytes "/" ++ decimal sequence) } in
    let sent =
      emit (record n { sequence = sequence }) (bytes "VOTE_SENT") 0 p.id request.message_id in
    let asked = record sent {
      outbox =
          sent.outbox
          ++ (record {
            sequence = sequence;
            from = sent.cfg.id;
            to = p.id;
            vote = some request;
            append = none;
          }
              ∷ []);
    } in
    ask_votes (if text_eq p.id n.cfg.id then n else asked) req peers

-- `startElectionLocked`, once the new term is durable
unfoldable pub campaign : Node → ℕ → Node
unfolding emit reset_timer
campaign n term =
    let n = reset_timer (record n { role = candidate; leader = [] }) in
    let n = emit (record n { votes = (n.cfg.id, true) ∷ [] }) (bytes "ELECTION_STARTED") 0 [] [] in
    if ltb (length n.peers / 2) (length n.votes)
    then become_leader n
    else ask_votes n
        (record {
          message_id = [];
          cluster_id = n.cfg.cluster_id;
          term = term;
          candidate_id = n.cfg.id;
          last_log_index = last_locked n;
          last_log_term = (entry_locked n (last_locked n)).term;
        })
        n.cfg.peers

unfoldable pub start_election : Node → Node
unfolding campaign
start_election n =
    let term = inc64 n.store.state.term in
    let (n, durable) = persist n term n.cfg.id n.store.state.commit 0 [] in
    if durable then campaign n term else n

-- the end of `voteResponseLocked`, on an answer in the candidate's term
unfoldable pub count_vote : Node → Peer → Bool → Node
count_vote n peer granted =
    let m = record n { votes = put n.votes peer.id true } in
    if granted
    then (if ltb (length m.peers / 2) (length m.votes) then become_leader m else m)
    else n

-- `voteResponseLocked` on an answer without an error
unfoldable pub weigh_response : Node → VoteRequest → VoteResponse → Peer → Node
unfolding count_vote
weigh_response n req resp peer =
    if ltb n.store.state.term resp.term
    then (step_down n resp.term []).0
    else if not (is_candidate n.role)
        || not (n.store.state.term == req.term)
        || not (resp.term == req.term)
    then n
    else count_vote n peer resp.granted

-- `voteResponseLocked`; `failed` says that the call returned an error
unfoldable pub vote_response : Node → Peer → VoteRequest → VoteResponse → Bool → Node
unfolding available emit weigh_response
vote_response n peer req resp failed =
    if not (available n) || failed
    then n
    else weigh_response (emit n (bytes "VOTE_RESPONSE") 0 peer.id req.message_id) req resp peer

-- The candidate's log is at least as up to date as the voter's.
unfoldable pub up_to_date : VoteRequest → Entry → Bool
up_to_date req last =
    ltb last.term req.last_log_term
    || (req.last_log_term == last.term && leb last.index req.last_log_index)

abbrev pub vote_reply : Node → Bool → VoteResponse
vote_reply n granted = record { term = n.store.state.term; granted = granted }

abbrev pub VoteAnswer : Type 0
VoteAnswer = Node × VoteResponse × Option NodeError

-- The vote is durable, or it could not be stored.
unfoldable pub grant_vote : Node → Bool → VoteRequest → VoteAnswer
unfolding reset_timer emit
grant_vote n durable req =
    if durable
    then (let n = emit (reset_timer n) (bytes "VOTE_GRANTED") 0 req.candidate_id req.message_id in
        (n, vote_reply n true, none))
    else (n, vote_reply n false, some unavailable)

-- A first vote in the term is stored before it is given.
abbrev pub store_vote : Node → VoteRequest → Node × Bool
store_vote n req =
    let s = n.store.state in
    if text_eq s.vote [] then persist n req.term req.candidate_id s.commit 0 [] else (n, true)

-- the last part of `RequestVote`, once the term is not behind the candidate's
unfoldable pub consider_vote : Node → VoteRequest → VoteAnswer
unfolding up_to_date grant_vote
consider_vote n req =
    let s = n.store.state in
    if up_to_date req (entry_locked n (last_locked n))
      && (text_eq s.vote [] || text_eq s.vote req.candidate_id)
    then grant_vote (store_vote n req).0 (store_vote n req).1 req
    else (n, vote_reply n false, none)

-- `RequestVote` once it is known whether the candidate's term is durable
unfoldable pub vote_in_term : Node → Bool → VoteRequest → VoteAnswer
unfolding consider_vote
vote_in_term n durable req =
    if durable then consider_vote n req else (n, vote_reply n false, some unavailable)

-- the call of `stepDownLocked` in `RequestVote`
abbrev pub enter_term : Node → VoteRequest → Node × Bool
enter_term n req = if ltb n.store.state.term req.term then step_down n req.term [] else (n, true)

-- `RequestVote` of a known candidate
unfoldable pub answer_candidate : Node → VoteRequest → VoteAnswer
unfolding vote_in_term
answer_candidate n req =
    if not (text_eq n.cfg.fixed_leader []) || ltb req.term n.store.state.term
    then (n, vote_reply n false, none)
    else vote_in_term (enter_term n req).0 (enter_term n req).1 req

-- `RequestVote`
unfoldable pub request_vote : Node → VoteRequest → VoteAnswer
unfolding available member emit answer_candidate
request_vote n req =
    if not (available n)
    then (n, vote_reply n false, some unavailable)
    else if not (member n req.candidate_id req.cluster_id)
    then (n, vote_reply n false, some unknown_candidate)
    else answer_candidate (emit n (bytes "VOTE_RECEIVED") 0 req.candidate_id req.message_id) req
