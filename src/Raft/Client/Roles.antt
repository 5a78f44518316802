-- ===== src/Raft/Client/Roles.antt =====
-- internal/raft/runtime.go and node.go: which calls can elect a leader.
use shard_zero.Prelude.{
  arith, ◌-◌, ◌+◌, ◌≡◌, ◌≢◌, refl, Bool, true, false, not, ◌||◌, ◌&&◌, Option, none, some, [], ◌∷◌,
  Text, bytes, leb, ltb, length, text_eq, inl, inr, Bool-cases, Option-cases,
}
use shard_zero.Prelude.Dict.{text_key, nat_key, get, read}
use shard_zero.StateMachine
use shard_zero.StateMachine.{Command, validate}
use shard_zero.Raft.Types.{Peer, Entry, VoteRequest, VoteResponse}
use shard_zero.Raft.Node.{
  Node, Message, persist, available, is_leader, last_locked, reset_timer, fail_pending, no_peer,
}
use shard_zero.Raft.Node.Effects.{IsSound}
use shard_zero.Raft.Node.Roles.{
  Humble, as_before, Humble-refl, Humble-trans, emit-Humble, persist-Humble,
}
use shard_zero.Raft.Replication.Roles.{kick-Humble}
use shard_zero.Raft.Commit.Roles.{advance_commit-Humble}
use shard_zero.Raft.Election.{vote_response}
use shard_zero.Raft.Election.Roles.{Elects, humble, start_election-Elects}
use shard_zero.Raft.Election.Counting.{Counts, vote_response-Counts}
use shard_zero.Raft.Client.{
  Ticket, register, proposed, propose_entry, submit_checked, submit, command_refusal, poll, cancel,
  execute, get_key, tick, set_paused, close, drain_messages, same_channel, deliver_ballot,
  deliver_vote,
}

register-Humble : (n : Node) (e : Entry) (read_key : Option Text) → Humble n (register n e read_key)
unfolding register
register-Humble n e read_key =
    Humble-trans (as_before refl refl refl) (Humble-trans (advance_commit-Humble _) (kick-Humble _))

propose_entry-Humble :
    (n : Node) (command : Option Command) (read_key : Option Text)
    → Humble n (propose_entry n command read_key).0
unfolding propose_entry
propose_entry-Humble n command read_key =
    let e = proposed n command in
    let here =
      persist-Humble n n.store.state.term n.store.state.vote n.store.state.commit
        (last_locked n + 1) (e ∷ []) refl in
    elim (Bool-cases
      (persist n n.store.state.term n.store.state.vote n.store.state.commit (last_locked n + 1)
        (e ∷ [])).1) [
          | inl t ↦ rw t (Humble-trans here (register-Humble _ e read_key))
          | inr f ↦ rw f here
        ]

submit_checked-Humble :
    (n : Node) (command : Option Command) (read_key : Option Text) (o : Option StateMachine.Error)
    → Humble n (submit_checked n command read_key o).0
unfolding submit_checked
submit_checked-Humble n command read_key (some e) = Humble-refl n
submit_checked-Humble n command read_key none =
    elim (Bool-cases (leb 256 (last_locked n - n.store.state.commit))) [
      | inl t ↦ rw t (Humble-refl n)
      | inr f ↦ rw f (propose_entry-Humble n command read_key)
    ]

pub submit-Humble :
    (n : Node) (command : Option Command) (read_key : Option Text)
    → Humble n (submit n command read_key).0
unfolding submit
submit-Humble n command read_key = elim (Bool-cases (not (available n))) [
  | inl t ↦ rw t (Humble-refl n)
  | inr f ↦ rw f (elim (Bool-cases (not (is_leader n.role))) [
    | inl t ↦ rw t (Humble-refl n)
    | inr f ↦ rw f (submit_checked-Humble n command read_key (command_refusal command))
  ])
]

pub execute-Humble : (n : Node) (c : Command) → Humble n (execute n c).0
unfolding execute
execute-Humble n c = elim (Option-cases (validate c)) [
  | inl ok ↦ rw (ok, execute) (submit-Humble n (some c) none)
  | inr (e, bad) ↦ rw (bad, execute) (Humble-refl n)
]

pub get_key-Humble : (n : Node) (key : Text) → Humble n (get_key n key).0
unfolding get_key
get_key-Humble n key = elim (Bool-cases (text_eq key [] || ltb 1024 (length key))) [
  | inl t ↦ rw t (Humble-refl n)
  | inr f ↦ rw f (submit-Humble n none (some key))
]

pub poll-Humble : (n : Node) (t : Ticket) → Humble n (poll n t).0
unfolding poll
poll-Humble n t = as_before refl refl refl

pub cancel-Humble : (n : Node) (t : Ticket) → Humble n (cancel n t)
unfolding cancel
cancel-Humble n t = elim (Bool-cases (same_channel (get n.pending t.index) t.done)) [
  | inl here ↦ rw here (as_before refl refl refl)
  | inr gone ↦ rw gone (Humble-refl n)
]

pub drain_messages-Humble : (n : Node) → Humble n (drain_messages n).0
unfolding drain_messages
drain_messages-Humble n = as_before refl refl refl

pub set_paused-Humble : (n : Node) (paused : Bool) → Humble n (set_paused n paused)
unfolding set_paused fail_pending
set_paused-Humble n true = as_before refl refl refl
set_paused-Humble n false = Humble-trans (as_before refl refl refl) (
    Humble-trans (kick-Humble (reset_timer (record n { paused = false })))
      (emit-Humble _ (bytes "RESUMED") 0 [] []))

pub close-Humble : (n : Node) → Humble n (close n)
unfolding close fail_pending
close-Humble n = elim (Bool-cases n.closed) [
  | inl shut ↦ simp shut (Humble-refl n)
  | inr running ↦ simp running (as_before refl refl refl)
]

-- Only the clock makes a node stand for election.
pub tick-Elects : (n : Node) → IsSound n → n.cfg.id ≢ [] → Elects n (tick n)
unfolding tick
tick-Elects n s named = elim (Bool-cases (not (available n))) [
  | inl t ↦ rw t (humble (Humble-refl n))
  | inr f ↦ rw f (elim (Bool-cases (is_leader n.role)) [
    | inl t ↦ rw t (humble (kick-Humble n))
    | inr f ↦
        rw f (elim (Bool-cases (text_eq n.cfg.fixed_leader [] && leb n.deadline n.runtime.now)) [
          | inl t ↦ rw t (start_election-Elects n s named)
          | inr f ↦ rw f (humble (Humble-refl n))
        ])
  ])
]

pub failed_response-Humble :
    (n : Node) (peer : Peer) (req : VoteRequest) (resp : VoteResponse) (error : Bool)
    → error ≡ true
    → Humble n (vote_response n peer req resp error)
unfolding vote_response
failed_response-Humble n peer req resp error e = elim (Bool-cases (not (available n) || error)) [
  | inl t ↦ rw t (Humble-refl n)
  | inr f ↦ ground (arith, e, f)
]

failed_ballot-Humble :
    (n : Node) (m : Message) (o : Option VoteRequest) (resp : VoteResponse) (error : Bool)
    → error ≡ true
    → Humble n (deliver_ballot n m o resp error)
unfolding deliver_ballot
failed_ballot-Humble n m none resp error e = Humble-refl n
failed_ballot-Humble n m (some req) resp error e = failed_response-Humble n _ req resp error e

-- An answer that did not come elects nobody.
pub failed_vote-Humble :
    (n : Node) (m : Message) (resp : VoteResponse) (error : Bool)
    → error ≡ true
    → Humble n (deliver_vote n m resp error)
unfolding deliver_vote
failed_vote-Humble n m resp error e = failed_ballot-Humble n m m.vote resp error e

-- An answer that came can count one vote, of the member that the request was sent to.
pub deliver_vote-Counts :
    (n : Node) (m : Message) (req : VoteRequest) (resp : VoteResponse)
    → m.vote ≡ some req
    → Counts n (deliver_vote n m resp false) (read n.peers m.to no_peer).id resp
unfolding deliver_vote deliver_ballot
deliver_vote-Counts n m req resp e =
    rw (e, deliver_ballot) (vote_response-Counts n (read n.peers m.to no_peer) req resp false)
