-- ===== src/Raft/Cluster/Voting.antt =====
-- internal/raft: every step of a cluster keeps the ballots a record of its votes.
use shard_zero.Prelude.{
  ◌/◌, ◌<◌, ◌≡◌, ◌≢◌, inl, inr, refl, sym, ap, ◌∙◌, true, false, List, [], ◌∷◌, Text, text_eq,
  text_eq_iff, length, Includes, Bool-cases, subst,
}
use shard_zero.Prelude.Dict.{text_key, read, get, get-put, HasUniqueKeys-put}
use shard_zero.Raft.Types.{Config, VoteRequest, VoteResponse}
use shard_zero.Raft.Node.{Node, leader, no_peer}
use shard_zero.Raft.Node.Effects.{IsSound, Evolves}
use shard_zero.Raft.Node.Roles.{Humble, follows, as_before}
use shard_zero.Raft.Election.{request_vote, vote_response}
use shard_zero.Raft.Election.Roles.{Elects, humble, stands, request_vote-Humble}
use shard_zero.Raft.Election.Counting.{vote_response-Counts, Counts, ignores, counts}
use shard_zero.Raft.Election.Votes.{granted-request_vote, term-request_vote}
use shard_zero.Raft.Rpc.Roles.{append_entries-Humble, accept_append-Humble, deliver_append-Humble}
use shard_zero.Raft.Replication.Roles.{start_replication-Humble}
use shard_zero.Raft.Client.{deliver_vote}
use shard_zero.Raft.Client.Roles.{
  submit-Humble, execute-Humble, get_key-Humble, poll-Humble, cancel-Humble, drain_messages-Humble,
  set_paused-Humble, close-Humble, tick-Elects, failed_vote-Humble, failed_response-Humble,
  deliver_vote-Counts,
}
use shard_zero.Raft.Client.Effects.{deliver_vote-Good}
use shard_zero.Raft.Election.Effects.{request_vote-Good, vote_response-Good}
use shard_zero.Raft.Steps.{
  Step, clock, ticked, submitted, executed, got, polled, cancelled, drained, voted, appended,
  vote_answered, append_answered, sending, append_called, vote_called, paused, closed,
}
use shard_zero.Raft.Steps.Safety.{Step-Good}
use shard_zero.Raft.Cluster.{
  Answer, Cluster, set_node, IsAlone, Move, handles, votes, hears, hears_call, restarts,
}
use shard_zero.Raft.Cluster.Quorums.{HasKey}
use shard_zero.Raft.Cluster.Restarts.{Member-Reopens, Remembers-Reopens, role-Reopens}
use shard_zero.Raft.Cluster.Ballots.{
  Ballot, ballot, cast, Member-Evolves, cast_own, Member, Standing, steps_back, runs, Standing-cast,
  Evolves-Remembers,
}
use shard_zero.Raft.Cluster.Keeping.{HasBallot, Safe, Safe-step, Safe-answer}

-- The role of a node that steps without an answer to a request for its vote.
alone-Elects : {n m : Node} (s : Step n m) → IsAlone s → IsSound n → n.cfg.id ≢ [] → Elects n m
alone-Elects (clock n now) a s named = humble (as_before refl refl refl)
alone-Elects (ticked n) a s named = tick-Elects n s named
alone-Elects (submitted n command read_key) a s named = humble (submit-Humble n command read_key)
alone-Elects (executed n c) a s named = humble (execute-Humble n c)
alone-Elects (got n key) a s named = humble (get_key-Humble n key)
alone-Elects (polled n t) a s named = humble (poll-Humble n t)
alone-Elects (cancelled n t) a s named = humble (cancel-Humble n t)
alone-Elects (drained n) a s named = humble (drain_messages-Humble n)
alone-Elects (voted n req) a s named = humble (request_vote-Humble n req)
alone-Elects (appended n req) a s named = humble (append_entries-Humble n req)
alone-Elects (vote_answered n m resp error) a s named = humble (failed_vote-Humble n m resp error a)
alone-Elects (append_answered n m resp error) a s named =
    humble (deliver_append-Humble n m resp error)
alone-Elects (sending n peer) a s named = humble (start_replication-Humble n peer)
alone-Elects (append_called n peer req resp error) a s named =
    humble (accept_append-Humble n peer req resp error)
alone-Elects (vote_called n peer req resp error) a s named =
    humble (failed_response-Humble n peer req resp error a)
alone-Elects (paused n value) a s named = humble (set_paused-Humble n value)
alone-Elects (closed n) a s named = humble (close-Humble n)

-- A node that elects nobody keeps what it has of the votes.
Standing-Humble :
    {ids : List Text} {bs : List Ballot} {n m : Node}
    → Evolves n m
    → Humble n m
    → Standing ids bs n
    → Standing ids bs m
Standing-Humble e (follows f) h = steps_back f
Standing-Humble e (as_before r v t) (steps_back f) = steps_back (r ∙ f)
Standing-Humble {ids} {bs} {n} {m} e (as_before r v t) (runs u has enough) =
    runs (rw v u)
      (λ p k. let (i, b) = has p (rw v at k) in (i, rw (t, ap (λ (g : Config). g.id) e.cfg) b))
      (λ lead. rw v (enough (sym r ∙ lead)))

-- a candidacy on the node's own vote
HasKey-one : (k p : Text) → HasKey ((k, true) ∷ []) p → k ≡ p
unfolding get
HasKey-one k p h = elim (Bool-cases (text_eq k p)) [
  | inl t ↦ (text_eq_iff k p).0 t
  | inr f ↦ absurd (h (rw (f, get) refl))
]

Standing-stands :
    (ids : List Text) (bs : List Ballot) (i : Text) (n m : Node)
    → Includes ids i
    → i ≢ []
    → Member ids i n
    → Member ids i m
    → m.votes ≡ (n.cfg.id, true) ∷ []
    → m.store.state.vote ≡ n.cfg.id
    → (m.role ≡ leader → length n.peers / 2 < 1)
    → Standing ids (cast i m bs) m
unfolding get
Standing-stands ids bs i n m here real was now v own alone =
    runs (rw v (refl, tt))
      (λ p k.
        let e : i ≡ p = sym was.named ∙ HasKey-one n.cfg.id p (rw v at k) in
        let mine : m.store.state.vote ≡ m.cfg.id = own ∙ was.named ∙ sym now.named in
        (
          subst (Includes ids) e here,
          subst (λ x. Includes (cast i m bs) (ballot x m.store.state.term m.cfg.id)) e
              (subst (λ x. Includes (cast i m bs) (ballot i m.store.state.term x)) mine
                (cast_own i m bs (λ z. real (sym now.named ∙ sym mine ∙ z)))),
        ))
      (λ lead. rw v (rw was.size at (alone lead)))

Standing-Elects :
    (ids : List Text) (bs : List Ballot) (i : Text) (n m : Node)
    → Includes ids i
    → i ≢ []
    → Member ids i n
    → Member ids i m
    → Evolves n m
    → Elects n m
    → Standing ids bs n
    → Standing ids (cast i m bs) m
Standing-Elects ids bs i n m here real was now e (humble h) st =
    Standing-cast i m bs (Standing-Humble e h st)
Standing-Elects ids bs i n m here real was now e (stands v own alone) st =
    Standing-stands ids bs i n m here real was now v own alone

-- an answer that is counted
Standing-Counts :
    (ids : List Text) (bs : List Ballot) (n m : Node) (voter : Text) (resp : VoteResponse)
    → Evolves n m
    → length n.peers ≡ length ids
    → Includes ids voter
    → (resp.granted ≡ true → Includes bs (ballot voter resp.term n.cfg.id))
    → Counts n m voter resp
    → Standing ids bs n
    → Standing ids bs m
Standing-Counts ids bs n m voter resp e size here given (ignores h) st = Standing-Humble e h st
Standing-Counts ids bs n m voter resp e size here given (counts g same standing v t lead)
      (steps_back f) =
    cc (standing, f)
Standing-Counts ids bs n m voter resp e size here given (counts g same standing v t lead)
      (runs u has enough) =
    runs (rw v (HasUniqueKeys-put n.votes voter true u))
      (λ p k.
        rw (t, ap (λ (x : Config). x.id) e.cfg)
          (elim (Bool-cases (text_eq voter p)) [
            | inl is ↦
                subst (λ x. Includes ids x × Includes bs (ballot x n.store.state.term n.cfg.id))
                  ((text_eq_iff voter p).0 is) (here, rw same at (given g))
            | inr other ↦ has p (λ z. (rw v at k) (get-put n.votes voter p true ∙ rw other z))
          ]))
      (λ l. rw size at (lead l))

-- The ballot behind an answer of `RequestVote`.
granted-HasBallot :
    (ids : List Text) (bs : List Ballot) (i : Text) (n : Node) (req : VoteRequest)
    → Includes ids i
    → IsSound n
    → HasBallot ids
        (cast i (request_vote n req).0 bs)
        (record { voter = i; request = req; response = (request_vote n req).1 })
granted-HasBallot ids bs i n req here sound = record {
  member = here;
  granted = λ g real.
      let (term, vote) = (granted-request_vote n req sound g).0 in
      let m = (request_vote n req).0 in
      let stored : Includes (cast i m bs) (ballot i m.store.state.term m.store.state.vote) =
        cast_own i m bs (λ z. real (sym vote ∙ z)) in
      subst (λ t. Includes (cast i m bs) (ballot i t req.candidate_id))
        (sym (term-request_vote n req))
        (subst (λ v. Includes (cast i m bs) (ballot i m.store.state.term v)) vote stored);
}

-- A candidate that hears an answer to its request.
Safe-heard :
    (ids : List Text) (c : Cluster) (bs : List Ballot) (i : Text) (a : Answer) (m : Node)
    → Safe ids c bs
    → Includes ids i
    → Includes c.answers a
    → a.request.candidate_id ≡ i
    → Evolves (c.nodes i) m × IsSound m
    → Counts (c.nodes i) m a.voter a.response
    → Safe ids (record c { nodes = set_node c.nodes i m }) (cast i m bs)
Safe-heard ids c bs i a m safe here given own (evolves, sound) counted =
    let was = safe.member i here in
    let answer = safe.answered a given in
    Safe-step ids c bs i m safe (Evolves-Remembers evolves) (Member-Evolves evolves sound was) (
      Standing-cast i m bs (
        Standing-Counts ids bs (c.nodes i) m a.voter a.response evolves was.size answer.member
          (λ g. rw (was.named, sym own) (answer.granted g (λ z. safe.real i here (sym own ∙ z))))
          counted (safe.standing i here)))

-- Every step keeps the ballots a record of the votes.
pub Move-Safe :
    (ids : List Text) {c d : Cluster} (bs : List Ballot)
    → Move ids c d
    → Safe ids c bs
    → (after : List Ballot) × Safe ids d after
Move-Safe ids bs (handles c i m here s alone) safe =
    let was = safe.member i here in
    let (evolves, sound) = Step-Good s was.sound in
    let elects = alone-Elects s alone was.sound (λ z. safe.real i here (sym was.named ∙ z)) in
    (
      cast i m bs,
      Safe-step ids c bs i m safe (Evolves-Remembers evolves) (Member-Evolves evolves sound was) (
          Standing-Elects ids bs i (c.nodes i) m here (safe.real i here) was
            (Member-Evolves evolves sound was) evolves elects (safe.standing i here)),
    )
Move-Safe ids bs (votes c i req here) safe =
    let was = safe.member i here in
    let m = (request_vote (c.nodes i) req).0 in
    let (evolves, sound) = request_vote-Good (c.nodes i) req was.sound in
    (
      cast i m bs,
      Safe-answer ids (record c { nodes = set_node c.nodes i m }) (cast i m bs)
          (record { voter = i; request = req; response = (request_vote (c.nodes i) req).1 })
          (granted-HasBallot ids bs i (c.nodes i) req here was.sound)
          (Safe-step ids c bs i m safe (Evolves-Remembers evolves)
            (Member-Evolves evolves sound was)
            (Standing-cast i m bs (
              Standing-Humble evolves (request_vote-Humble (c.nodes i) req)
                (safe.standing i here)))),
    )
Move-Safe ids bs (hears c i msg a here given to vote own) safe =
    let was = safe.member i here in
    let m = deliver_vote (c.nodes i) msg a.response false in
    let voter : (read (c.nodes i).peers msg.to no_peer).id ≡ a.voter =
      was.knows msg.to (subst (Includes ids) (sym to) (safe.answered a given).member) ∙ to in
    (
      cast i m bs,
      Safe-heard ids c bs i a m safe here given own
          (deliver_vote-Good (c.nodes i) msg a.response false was.sound)
          (subst (λ x. Counts (c.nodes i) m x a.response) voter
            (deliver_vote-Counts (c.nodes i) msg a.request a.response vote)),
    )
Move-Safe ids bs (hears_call c i a here given own) safe =
    let was = safe.member i here in
    let peer = read (c.nodes i).peers a.voter no_peer in
    let m = vote_response (c.nodes i) peer a.request a.response false in
    (
      cast i m bs,
      Safe-heard ids c bs i a m safe here given own
          (vote_response-Good (c.nodes i) peer a.request a.response false was.sound)
          (subst (λ x. Counts (c.nodes i) m x a.response)
            (was.knows a.voter (safe.answered a given).member)
            (vote_response-Counts (c.nodes i) peer a.request a.response false)),
    )
Move-Safe ids bs (restarts c i m here again) safe =
    let was = safe.member i here in
    (
      cast i m bs,
      Safe-step ids c bs i m safe (Remembers-Reopens again was) (Member-Reopens again was)
          (steps_back (role-Reopens again was (safe.real i here))),
    )
