-- ===== src/Raft/Election/Votes.antt =====
-- internal/raft/rpc.go, RequestVote: what a granted vote means.
use shard_zero.Prelude.{
  ◌<◌, ◌≤◌, ◌≡◌, ◌⊎◌, ◌&&◌, refl, ap, Bool, true, false, ◌||◌, not, [], bytes, text_eq, text_eq_iff,
  ltb, arith, Bool-cases, inl, inr,
}
use shard_zero.Raft.Types.{VoteRequest}
use shard_zero.Raft.Store.{Durable}
use shard_zero.Raft.Store.Shape.{IsLog}
use shard_zero.Raft.Node.{Node, available, member, emit, reset_timer, last_locked, entry_locked}
use shard_zero.Raft.Node.Effects.{IsSound, Same-emit, Same-Good}
use shard_zero.Raft.Node.Persisting.{SameLog, persist_outcome}
use shard_zero.Raft.Node.Stepping.{step_down_outcome}
use shard_zero.Raft.Election.Effects.{enter_term-Good}
use shard_zero.Raft.Election.{
  store_vote, up_to_date, grant_vote, consider_vote, vote_in_term, enter_term, answer_candidate,
  request_vote,
}

-- The vote of `m` is for the candidate of `req`, in its term.
abbrev pub HasVote : VoteRequest → Node → Type 0
HasVote req m = (m.store.state.term ≡ req.term) × (m.store.state.vote ≡ req.candidate_id)

granted-grant_vote :
    (n : Node) (durable : Bool) (req : VoteRequest)
    → (grant_vote n durable req).1.granted ≡ true
    → (durable ≡ true) × ((grant_vote n durable req).0.store.state ≡ n.store.state)
unfolding grant_vote emit reset_timer
granted-grant_vote n true req g = (refl, refl)
granted-grant_vote n false req g = cc

-- The candidate's last entry is of a later term than the last entry of `n`, or of the same term and at
-- the same index or a higher one.
abbrev pub IsUpToDate : VoteRequest → Node → Type 0
IsUpToDate req n =
    let last = entry_locked n (last_locked n) in
    (last.term < req.last_log_term)
    ⊎ ((req.last_log_term ≡ last.term) × (last.index ≤ req.last_log_index))

up_to_date-IsUpToDate :
    (n : Node) (req : VoteRequest)
    → up_to_date req (entry_locked n (last_locked n)) ≡ true
    → IsUpToDate req n
unfolding up_to_date
up_to_date-IsUpToDate n req h = ground (arith, h)

store_vote-HasVote :
    (n : Node) (req : VoteRequest)
    → IsLog n.store.state
    → n.store.state.term ≡ req.term
    → (text_eq n.store.state.vote [] || text_eq n.store.state.vote req.candidate_id) ≡ true
    → (store_vote n req).1 ≡ true
    → HasVote req (store_vote n req).0
store_vote-HasVote n req h t free ok = elim (Bool-cases (text_eq n.store.state.vote [])) [
  | inl first ↦
      rw first (elim (persist_outcome n req.term req.candidate_id n.store.state.commit 0 [] h) [
        | inl o ↦ rw o.0 (o.1, o.2)
        | inr o ↦ cc (o.0, rw first at ok)
      ])
  | inr again ↦
      rw again (t, ground (arith, again, free, text_eq_iff n.store.state.vote req.candidate_id))
]

-- A vote that is granted in the term that the node is in.
granted-consider_vote :
    (n : Node) (req : VoteRequest)
    → IsLog n.store.state
    → n.store.state.term ≡ req.term
    → (consider_vote n req).1.granted ≡ true
    → HasVote req (consider_vote n req).0 × IsUpToDate req n
unfolding consider_vote
granted-consider_vote n req h t g =
    elim (Bool-cases (up_to_date req (entry_locked n (last_locked n)))) [
      | inr old ↦ cc (rw old at g)
      | inl up ↦
          elim (Bool-cases
            (text_eq n.store.state.vote [] || text_eq n.store.state.vote req.candidate_id)) [
              | inr other ↦ cc (rw (up, other) at g)
              | inl free ↦
                  let (ok, same) =
                    granted-grant_vote (store_vote n req).0 (store_vote n req).1 req
                      (rw (up, free) at g) in
                  (
                    rw (up, free) (rw same (store_vote-HasVote n req h t free ok)),
                    up_to_date-IsUpToDate n req up,
                  )
            ]
    ]

SameLog-UpToDate :
    (n m : Node) (req : VoteRequest) → SameLog n m → IsUpToDate req m → IsUpToDate req n
SameLog-UpToDate n m req (l, b) up = rw (l, b) at up

enter_term_outcome :
    (n : Node) (req : VoteRequest)
    → IsLog n.store.state
    → n.store.state.term ≤ req.term
    → (enter_term n req).1 ≡ true
    → ((enter_term n req).0.store.state.term ≡ req.term) × SameLog n (enter_term n req).0
enter_term_outcome n req h up ok = elim (Bool-cases (ltb n.store.state.term req.term)) [
  | inl newer ↦
      rw newer
        (let (t, same, _) = step_down_outcome n req.term [] h (rw newer at ok) up in (t, same))
  | inr older ↦ rw older (ground (arith, older, up), (refl, refl))
]

granted-vote_in_term :
    (n : Node) (durable : Bool) (req : VoteRequest)
    → IsLog n.store.state
    → (durable ≡ true → n.store.state.term ≡ req.term)
    → (vote_in_term n durable req).1.granted ≡ true
    → (durable ≡ true) × HasVote req (vote_in_term n durable req).0 × IsUpToDate req n
unfolding vote_in_term
granted-vote_in_term n true req h t g =
    let (has, up) = granted-consider_vote n req h (t refl) g in (refl, has, up)
granted-vote_in_term n false req h t g = cc

granted-answer_candidate :
    (n : Node) (req : VoteRequest)
    → IsSound n
    → (answer_candidate n req).1.granted ≡ true
    → HasVote req (answer_candidate n req).0 × IsUpToDate req n
unfolding answer_candidate
granted-answer_candidate n req s g =
    elim (Bool-cases (not (text_eq n.cfg.fixed_leader []) || ltb req.term n.store.state.term)) [
      | inl t ↦ cc (rw t at g)
      | inr f ↦
          let up : n.store.state.term ≤ req.term = ground (arith, f) in
          let entered = enter_term-Good n req s in
          let (ok, has, recent) =
            granted-vote_in_term (enter_term n req).0 (enter_term n req).1 req entered.1.ready.log
              (λ ok. (enter_term_outcome n req s.ready.log up ok).0) (rw f at g) in
          rw f (
            has,
            SameLog-UpToDate n (enter_term n req).0 req
                (enter_term_outcome n req s.ready.log up ok).1 recent,
          )
    ]

-- If RequestVote on a sound node grants its vote, then the node is in the candidate's term with a
-- durable vote for the candidate, and the candidate's last entry is of a later term than its own last
-- entry, or of the same term and at the same index or a higher one.
pub granted-request_vote :
    (n : Node) (req : VoteRequest)
    → IsSound n
    → (request_vote n req).1.granted ≡ true
    → HasVote req (request_vote n req).0 × IsUpToDate req n
unfolding request_vote
granted-request_vote n req s g = elim (Bool-cases (not (available n))) [
  | inl t ↦ cc (rw t at g)
  | inr f ↦ elim (Bool-cases (not (member n req.candidate_id req.cluster_id))) [
    | inl t ↦ cc (rw (f, t) at g)
    | inr k ↦
        let heard = emit n (bytes "VOTE_RECEIVED") 0 req.candidate_id req.message_id in
        let same = Same-emit n (bytes "VOTE_RECEIVED") 0 req.candidate_id req.message_id in
        let (has, up) = granted-answer_candidate heard req (Same-Good same s).1 (rw (f, k) at g) in
        rw (f, k)
          (
            has,
            SameLog-UpToDate n heard req
                (ap (λ (d : Durable). d.log) same.state, ap (λ (d : Durable). d.base) same.state)
                up,
          )
  ]
]

term-grant_vote :
    (n : Node) (durable : Bool) (req : VoteRequest)
    → (grant_vote n durable req).1.term ≡ (grant_vote n durable req).0.store.state.term
unfolding grant_vote
term-grant_vote n true req = refl
term-grant_vote n false req = refl

term-vote_in_term :
    (n : Node) (durable : Bool) (req : VoteRequest)
    → (vote_in_term n durable req).1.term ≡ (vote_in_term n durable req).0.store.state.term
unfolding vote_in_term consider_vote
term-vote_in_term n false req = refl
term-vote_in_term n true req =
    elim (Bool-cases (
      up_to_date req (entry_locked n (last_locked n))
      && (text_eq n.store.state.vote [] || text_eq n.store.state.vote req.candidate_id))) [
        | inl t ↦ rw t (term-grant_vote (store_vote n req).0 (store_vote n req).1 req)
        | inr f ↦ rw f refl
      ]

-- Every answer to a request for a vote carries the term that the node is then in.
pub term-request_vote :
    (n : Node) (req : VoteRequest)
    → (request_vote n req).1.term ≡ (request_vote n req).0.store.state.term
unfolding request_vote answer_candidate
term-request_vote n req = elim (Bool-cases (not (available n))) [
  | inl t ↦ rw t refl
  | inr f ↦ rw f (elim (Bool-cases (not (member n req.candidate_id req.cluster_id))) [
    | inl t ↦ rw t refl
    | inr k ↦
        let heard = emit n (bytes "VOTE_RECEIVED") 0 req.candidate_id req.message_id in
        rw k
          (elim (Bool-cases
            (not (text_eq heard.cfg.fixed_leader []) || ltb req.term heard.store.state.term)) [
              | inl t ↦ rw t refl
              | inr f ↦
                  rw f (term-vote_in_term (enter_term heard req).0 (enter_term heard req).1 req)
            ])
  ])
]
