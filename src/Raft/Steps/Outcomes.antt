-- ===== src/Raft/Steps/Outcomes.antt =====
-- internal/raft/node.go and runtime.go: what the ticket of a proposal gets in the end.
use shard_zero.Prelude.{
  ℕ, ◌+◌, ◌-◌, ◌<◌, ◌≤◌, ◌≡◌, inl, inr, refl, sym, ap, ◌∙◌, subst, arith, Bool, true, not, Option,
  none, some, List, [], ◌∷◌, Text, Includes, Bool-cases, leb, Attempt, done, failed,
}
use shard_zero.StateMachine
use shard_zero.StateMachine.{Command}
use shard_zero.Raft.Commit.Answers.{Claim, Answers, IsAnswer}
use shard_zero.Raft.Node.{Node, NodeError, Outcome, persist, available, is_leader, last_locked}
use shard_zero.Raft.Node.Effects.{IsSound}
use shard_zero.Raft.Commit.Replay.{replayed}
use shard_zero.Raft.Client.{
  Ticket, register, proposed, propose_entry, submit_checked, submit, command_refusal, receive, poll,
}
use shard_zero.Raft.Client.Registering.{
  claim, claim_at, claim_proposed, with_claim_new, stored, meets-stored, stands-stored,
  unapplied-stored, inside-stored, Answers-registered,
}
use shard_zero.Raft.Client.Effects.{stored-Good, proposed-Good, register_rest-Good, submit-Good}
use shard_zero.Raft.Steps.{Reaches}
use shard_zero.Raft.Steps.Safety.{Reaches-Good}

abbrev stores : Node → Option Command → Node × Bool
stores n command =
    persist n n.store.state.term n.store.state.vote n.store.state.commit (last_locked n + 1)
      (proposed n command ∷ [])

-- A ticket is given only with a stored entry and a new waiter.
record Submits (n : Node) (command : Option Command) (read_key : Option Text) (t : Ticket)
    (m : Node) : Type 0 where
  pub durable : (stores n command).1 ≡ true
  pub channel : t.done ≡ (stores n command).0.channels
  pub node : m ≡ register (stores n command).0 (proposed n command) read_key

channel_of : Attempt Ticket NodeError → ℕ
channel_of (done t) = t.done
channel_of (failed e) = 0

propose_entry-Submits :
    (n : Node) (command : Option Command) (read_key : Option Text) (t : Ticket)
    → (propose_entry n command read_key).1 ≡ done t
    → Submits n command read_key t (propose_entry n command read_key).0
unfolding propose_entry channel_of
propose_entry-Submits n command read_key t h = elim (Bool-cases (stores n command).1) [
  | inl durable ↦ record {
    durable = durable;
    channel = sym (ap channel_of (rw durable at h));
    node = rw durable refl;
  }
  | inr lost ↦ cc (rw lost at h)
]

submit_checked-Submits :
    (n : Node) (command : Option Command) (read_key : Option Text) (o : Option StateMachine.Error)
    (t : Ticket)
    → (submit_checked n command read_key o).1 ≡ done t
    → Submits n command read_key t (submit_checked n command read_key o).0
unfolding submit_checked
submit_checked-Submits n command read_key (some e) t h = cc h
submit_checked-Submits n command read_key none t h =
    elim (Bool-cases (leb 256 (last_locked n - n.store.state.commit))) [
      | inl full ↦ cc (rw full at h)
      | inr room ↦ rw room (propose_entry-Submits n command read_key t (rw room at h))
    ]

submit-Submits :
    (n : Node) (command : Option Command) (read_key : Option Text) (t : Ticket)
    → (submit n command read_key).1 ≡ done t
    → Submits n command read_key t (submit n command read_key).0
unfolding submit
submit-Submits n command read_key t h = elim (Bool-cases (not (available n))) [
  | inl off ↦ cc (rw off at h)
  | inr on ↦
      let h' = rw on at h in
      rw on (elim (Bool-cases (not (is_leader n.role))) [
        | inl follows ↦ cc (rw follows at h')
        | inr leads ↦
            rw leads (
              submit_checked-Submits n command read_key (command_refusal command) t
                (rw leads at h'))
      ])
]

-- The outcome that is polled has been sent on the ticket's channel.
Includes-poll :
    (n : Node) (t : Ticket) (out : Outcome)
    → (poll n t).1 ≡ some out
    → Includes n.outcomes (t.done, out)
unfolding poll receive
Includes-poll n t out h = go n.outcomes h
  where
    go :
        (outcomes : List (ℕ × Outcome))
        → (receive t.done outcomes).0 ≡ some out
        → Includes outcomes (t.done, out)
    go [] h = cc h
    go ((c, o) ∷ rest) h = ground (arith, go rest)

-- Nobody waits and nothing has been sent, as at a start.
nothing_asked :
    (n : Node) (claims : ℕ → Claim) → n.pending ≡ [] → n.outcomes ≡ [] → Answers claims n
nothing_asked n claims pending outcomes = record {
  waiting = λ j w h. absurd (rw pending at h);
  settled = λ d out h. absurd (rw outcomes at h);
}

no_claim : ℕ → Claim
no_claim d = claim (record { index = 0; term = 0; command = none }) none StateMachine.new

claim_meets :
    (n : Node) (command : Option Command) (s : IsSound n) (durable : (stores n command).1 ≡ true)
    → replayed (stored n command s durable).store ((proposed n command).index - 1)
      ≡ replayed n.store (last_locked n)
claim_meets n command s durable =
    let e : last_locked n + 1 - 1 ≡ last_locked n = omega arith in
    ap (replayed (stored n command s durable).store) e ∙ meets-stored n command s durable

submitted_Answers :
    (n : Node) (command : Option Command) (read_key : Option Text) (t : Ticket) (m : Node)
    (claims : ℕ → Claim)
    → IsSound n
    → Answers claims n
    → Submits n command read_key t m
    → (after : ℕ → Claim) × (t.done < m.channels)
      × (after t.done ≡ claim_proposed n command read_key)
      × Answers after m
submitted_Answers n command read_key t m claims s a given =
    let e = proposed n command in
    let after_store = stored n command s given.durable in
    let (evolves, sound) = stored-Good n command read_key s given.durable s in
    let (early, _, a1) = evolves.answering.answers claims a in
    let a2 =
      Answers-registered after_store e read_key early (stands-stored n command s given.durable)
        (unapplied-stored n command s given.durable) (inside-stored n command s given.durable) a1 in
    let (_, sound') = proposed-Good n command read_key s given.durable sound in
    let (evolves', _) = register_rest-Good after_store e read_key sound' in
    let (late, same, a3) = evolves'.answering.answers _ a2 in
    let channel : t.done ≡ after_store.channels = given.channel in
    let more : after_store.channels + 1 ≤ (register after_store e read_key).channels =
      evolves'.answering.channels in
    let kept : late after_store.channels ≡ claim_proposed n command read_key =
      same after_store.channels (omega arith)
      ∙ with_claim_new early after_store.channels (claim_at after_store e read_key)
      ∙ ap (claim e read_key) (claim_meets n command s given.durable) in
    subst
      (λ x.
        (after : ℕ → Claim) × (t.done < x.channels)
        × (after t.done ≡ claim_proposed n command read_key)
        × Answers after x)
      (sym given.node) (late, omega (arith, channel, more), ap late channel ∙ kept, a3)

-- A ticket gets the answer of its own proposal. Take any run of a sound node that starts with nobody
-- waiting and nothing sent, in which `Submit` gives a ticket, and later `Poll` with that ticket gives
-- an outcome. Then it is a failure, unavailable or not the leader, or it is what the proposed entry
-- answers: the commit index covers the entry, which stands in the node's log unless it has been
-- compacted, and the outcome is the result of the entry, or for a read the value of its key, on the
-- machine that the node's snapshot and its whole log gave when `Submit` was called.
pub ticket_outcome :
    (n0 n m : Node) (command : Option Command) (read_key : Option Text) (t : Ticket) (out : Outcome)
    → IsSound n0
    → n0.pending ≡ []
    → n0.outcomes ≡ []
    → Reaches n0 n
    → (submit n command read_key).1 ≡ done t
    → Reaches (submit n command read_key).0 m
    → (poll m t).1 ≡ some out
    → IsAnswer (claim_proposed n command read_key) m.store.state out
ticket_outcome n0 n m command read_key t out s pending outcomes before given after polled =
    let (early, sound) = Reaches-Good before s in
    let (first, _, a1) =
      early.answering.answers no_claim (nothing_asked n0 no_claim pending outcomes) in
    let given' = submit-Submits n command read_key t given in
    let (second, made, is, a2) = submitted_Answers n command read_key t _ first sound a1 given' in
    let (_, sound') = submit-Good n command read_key sound in
    let (late, _) = Reaches-Good after sound' in
    let (third, same, a3) = late.answering.answers second a2 in
    subst (λ c. IsAnswer c m.store.state out) (same t.done made ∙ is)
      (a3.settled t.done out (Includes-poll m t out polled)).1
