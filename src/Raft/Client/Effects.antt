-- ===== src/Raft/Client/Effects.antt =====
-- internal/raft/runtime.go and node.go: proposals, the clock, pausing and closing keep a node sound.
use shard_zero.Prelude.{
  ℕ, ◌+◌, ◌-◌, ◌<◌, ◌≤◌, ◌≡◌, List, Includes, arith, bytes, refl, Bool, true, false, not, Option,
  none, some, [], ◌∷◌, Text, leb, text_eq, length, ltb, ◌||◌, Bool-cases, Option-cases, inl, inr,
}
use shard_zero.Prelude.Dict.{text_key, nat_key, Includes-remove}
use shard_zero.StateMachine
use shard_zero.StateMachine.{Command, validate}
use shard_zero.Raft.Store.{entry_at, last_index}
use shard_zero.Raft.Types.{Entry, VoteRequest, VoteResponse}
use shard_zero.Raft.Commit.Answers.{Answering-fewer}
use shard_zero.Raft.Node.{
  Node, Outcome, Message, unavailable, persist, available, is_leader, last_locked, reset_timer,
}
use shard_zero.Raft.Node.Effects.{
  Same-kept, IsSound, Good, Good-trans, Good-refl, Good-if, Same, Same-trans, Same-emit,
  Same-fail_pending, Same-reset_timer, Same-Good,
}
use shard_zero.Raft.Node.Persisting.{persist-Good}
use shard_zero.Raft.Replication.Effects.{kick-Good}
use shard_zero.Raft.Commit.Effects.{advance_commit-Good}
use shard_zero.Raft.Election.Effects.{start_election-Good, vote_response-Good}
use shard_zero.Raft.Client.Registering.{
  registered, Answering-registered, stored, stands-stored, unapplied-stored, inside-stored,
}
use shard_zero.Raft.Client.{
  Ticket, receive, register, proposed, propose_entry, submit_checked, submit, command_refusal, poll,
  cancel, execute, get_key, tick, deliver_ballot, deliver_vote, set_paused, close, drain_messages,
}

registered-Good :
    (n : Node) (e : Entry) (read_key : Option Text)
    → entry_at n.store.state e.index ≡ e
    → n.applied < e.index
    → e.index ≤ last_index n.store.state
    → Good n (registered n e read_key)
registered-Good n e read_key stands new inside =
    Same-Good {n = n} {m = registered n e read_key} (record {
      cfg = refl;
      peers = refl;
      state = refl;
      snapshot = refl;
      machine = refl;
      applied = refl;
      answering = Answering-registered n e read_key stands new inside;
      recalls = λ h. h;
    })

pub register_rest-Good :
    (n : Node) (e : Entry) (read_key : Option Text)
    → Good (registered n e read_key) (register n e read_key)
unfolding register
register_rest-Good n e read_key =
    Good-trans (Same-Good (Same-emit (registered n e read_key) (bytes "PROPOSED") e.index [] []))
      (Good-trans (advance_commit-Good _) (kick-Good _))

-- What `submitLocked` does once the entry is durable.
module _ (n : Node) (command : Option Command) (read_key : Option Text) (s : IsSound n)
    (durable : (persist n n.store.state.term n.store.state.vote n.store.state.commit
        (last_locked n + 1)
        (proposed n command ∷ [])).1
      ≡ true) where
  pub stored-Good : Good n (stored n command s durable)
  stored-Good = persist-Good n _ _ _ _ (proposed n command ∷ []) refl (inr (inl (omega arith)))

  pub proposed-Good :
      Good
        (stored n command s durable)
        (registered (stored n command s durable) (proposed n command) read_key)
  proposed-Good =
      registered-Good (stored n command s durable) (proposed n command) read_key
        (stands-stored n command s durable) (unapplied-stored n command s durable)
        (inside-stored n command s durable)

propose_entry-Good :
    (n : Node) (command : Option Command) (read_key : Option Text)
    → Good n (propose_entry n command read_key).0
unfolding propose_entry
propose_entry-Good n command read_key s =
    elim (Bool-cases
      (persist n n.store.state.term n.store.state.vote n.store.state.commit (last_locked n + 1)
        (proposed n command ∷ [])).1) [
          | inl t ↦ rw t (
              Good-trans (stored-Good n command read_key s t)
                (Good-trans (proposed-Good n command read_key s t)
                  (register_rest-Good (stored n command s t) (proposed n command) read_key))
                s)
          | inr f ↦
              rw f
                (persist-Good n _ _ _ _ (proposed n command ∷ []) refl (inr (inl (omega arith))) s)
        ]

submit_checked-Good :
    (n : Node) (command : Option Command) (read_key : Option Text) (o : Option StateMachine.Error)
    → Good n (submit_checked n command read_key o).0
unfolding submit_checked
submit_checked-Good n command read_key (some e) = Good-refl n
submit_checked-Good n command read_key none =
    elim (Bool-cases (leb 256 (last_locked n - n.store.state.commit))) [
      | inl t ↦ rw t (Good-refl n)
      | inr f ↦ rw f (propose_entry-Good n command read_key)
    ]

-- A proposal keeps a node sound, whatever is answered.
pub submit-Good :
    (n : Node) (command : Option Command) (read_key : Option Text)
    → Good n (submit n command read_key).0
unfolding submit
submit-Good n command read_key = elim (Bool-cases (not (available n))) [
  | inl t ↦ rw t (Good-refl n)
  | inr f ↦ rw f (elim (Bool-cases (not (is_leader n.role))) [
    | inl t ↦ rw t (Good-refl n)
    | inr f ↦ rw f (submit_checked-Good n command read_key (command_refusal command))
  ])
]

pub tick-Good : (n : Node) → Good n (tick n)
unfolding tick
tick-Good n =
    Good-if _ (Good-refl n)
      (Good-if _ (kick-Good n) (Good-if _ (start_election-Good n) (Good-refl n)))

deliver_ballot-Good :
    (n : Node) (m : Message) (o : Option VoteRequest) (resp : VoteResponse) (error : Bool)
    → Good n (deliver_ballot n m o resp error)
unfolding deliver_ballot
deliver_ballot-Good n m none resp error = Good-refl n
deliver_ballot-Good n m (some req) resp error = vote_response-Good n _ req resp error

pub deliver_vote-Good :
    (n : Node) (m : Message) (resp : VoteResponse) (error : Bool)
    → Good n (deliver_vote n m resp error)
unfolding deliver_vote
deliver_vote-Good n m resp error = deliver_ballot-Good n m m.vote resp error

Same-paused : (n : Node) → Same n (record n { paused = false })
Same-paused n = Same-kept refl refl refl refl refl refl refl refl

pub set_paused-Good : (n : Node) (paused : Bool) → Good n (set_paused n paused)
unfolding set_paused
set_paused-Good n true = Same-Good (
    Same-trans
      (Same-trans (Same-kept refl refl refl refl refl refl refl refl)
        (Same-fail_pending _ unavailable (inl refl)))
      (Same-emit _ _ 0 [] []))
set_paused-Good n false =
    Good-trans
      (Good-trans (Same-Good (Same-trans (Same-paused n) (Same-reset_timer _)))
        (kick-Good (reset_timer (record n { paused = false }))))
      (Same-Good (Same-emit _ _ 0 [] []))

pub close-Good : (n : Node) → Good n (close n)
unfolding close
close-Good n = Good-if n.closed (Good-refl n) (
    Same-Good (
      Same-trans (Same-kept refl refl refl refl refl refl refl refl)
        (Same-fail_pending _ unavailable (inl refl))))

pub Includes-receive :
    (channel : ℕ) (outcomes : List (ℕ × Outcome)) (d : ℕ) (out : Outcome)
    → Includes (receive channel outcomes).1 (d, out)
    → Includes outcomes (d, out)
unfolding receive
Includes-receive channel [] d out h = absurd h
Includes-receive channel ((c, o) ∷ rest) d out h =
    ground (arith, Includes-receive channel rest d out)

pub poll-Same : (n : Node) (t : Ticket) → Same n (poll n t).0
unfolding poll
poll-Same n t = record {
  cfg = refl;
  peers = refl;
  state = refl;
  snapshot = refl;
  machine = refl;
  applied = refl;
  answering =
      Answering-fewer (λ j w h. h) (λ d out h. Includes-receive t.done n.outcomes d out h) refl refl
        refl refl;
  recalls = λ h. h;
}

pub cancel-Good : (n : Node) (t : Ticket) → Good n (cancel n t)
unfolding cancel
cancel-Good n t =
    Good-if _
      (Same-Good (record {
        cfg = refl;
        peers = refl;
        state = refl;
        snapshot = refl;
        machine = refl;
        applied = refl;
        answering =
            Answering-fewer (λ j w h. (Includes-remove n.pending t.index j w h).0) (λ d out h. h)
              refl refl refl refl;
        recalls = λ h. h;
      }))
      (Good-refl n)

pub drain_messages-Same : (n : Node) → Same n (drain_messages n).0
unfolding drain_messages
drain_messages-Same n = Same-kept refl refl refl refl refl refl refl refl

pub execute-Good : (n : Node) (c : Command) → Good n (execute n c).0
unfolding execute
execute-Good n c = elim (Option-cases (validate c)) [
  | inl ok ↦ rw (ok, execute) (submit-Good n (some c) none)
  | inr (e, bad) ↦ rw (bad, execute) (Good-refl n)
]

pub get_key-Good : (n : Node) (key : Text) → Good n (get_key n key).0
unfolding get_key
get_key-Good n key = elim (Bool-cases (text_eq key [] || ltb 1024 (length key))) [
  | inl t ↦ rw t (Good-refl n)
  | inr f ↦ rw f (submit-Good n none (some key))
]
