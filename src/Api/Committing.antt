-- ===== src/Api/Committing.antt =====
-- internal/api/http.go, ClusterHandler: an answer with 200 stands for a committed entry.
use shard_zero.Prelude.{
  ◌<◌, ◌≤◌, ◌≡◌, ◌≢◌, inl, inr, refl, ap, Option, none, some, [], ◌∷◌, Text, arith, Bool-cases,
  subst,
}
use shard_zero.StateMachine
use shard_zero.StateMachine.{Command, no_result}
use shard_zero.Raft.Store.{Durable, entry_at}
use shard_zero.Raft.Commit.Answers.{Claim, answer_of, IsAnswer, fails, replies}
use shard_zero.Raft.Node.{Node, NodeError, Outcome, no_quorum, not_leader, refused}
use shard_zero.Raft.Node.Effects.{IsSound}
use shard_zero.Raft.Client.{poll}
use shard_zero.Raft.Client.Registering.{claim_proposed}
use shard_zero.Raft.Steps.{Reaches, here, step}
use shard_zero.Raft.Steps.Outcomes.{ticket_outcome}
use shard_zero.Raft.Proposing.{
  Proposes, expired, turned_down, received, gave_up, Executes, not_valid, executes,
}
use shard_zero.Api.{redirect, result_of, handle_error, handle_request_error}
use shard_zero.Api.Handlers.{
  WriteRequest, decoded, misses_field, has_extra_field, command_of, answer_write, write,
  write_decoded,
}
use shard_zero.Api.Cluster.{Execute, IsExecute, write_cluster}

-- An entry that is committed, and what it answers: the commit index covers it, it stands in the log
-- unless it has been compacted, and the outcome is its answer on the machine that it was to meet.
pub record Commits (c : Claim) (now : Durable) (out : Outcome) : Type 0 where
  pub committed : c.entry.index ≤ now.commit
  pub stands : now.base < c.entry.index → entry_at now c.entry.index ≡ c.entry
  pub answers : out ≡ answer_of c.meets c

answered-Commits :
    (c : Claim) (now : Durable) (out : Outcome)
    → out.error ≡ none
    → IsAnswer c now out
    → Commits c now out
answered-Commits c now out ok (fails e f k) = cc (ok, ap (λ (x : Outcome). x.error) k)
answered-Commits c now out ok (replies committed stands k) = record {
  committed = committed;
  stands = stands;
  answers = k;
}

-- No error is answered with 200.
error_is_refused : (uri : Text) (e : NodeError) → (handle_request_error uri e).status ≢ 200
unfolding handle_request_error handle_error redirect
error_is_refused uri (not_leader id []) h = omega (arith, h)
error_is_refused uri (not_leader id (x ∷ url)) h = omega (arith, h)
error_is_refused uri no_quorum h = omega (arith, h)
error_is_refused uri (refused (StateMachine.invalid reason)) h = omega (arith, h)
error_is_refused uri (refused StateMachine.stale) h = omega (arith, h)
error_is_refused uri (refused StateMachine.reused) h = omega (arith, h)
error_is_refused uri _ h = omega (arith, h)

Reaches-trans : {n m k : Node} → Reaches n m → Reaches m k → Reaches n k
Reaches-trans r (here m) = r
Reaches-trans r (step q s) = step (Reaches-trans r q) s

module _ (n0 n : Node) (sound : IsSound n0) (idle : n0.pending ≡ []) (quiet : n0.outcomes ≡ [])
    (before : Reaches n0 n) where
  -- A proposal that returns no error.
  Proposes-Commits :
      (command : Option Command) (key : Option Text) (m : Node)
      (a : StateMachine.Result × Option NodeError)
      → Proposes n command key m a
      → a.1 ≡ none
      → Commits (claim_proposed n command key) m.store.state (record { result = a.0; error = none })
  unfolding poll
  Proposes-Commits command key _ _ expired ok = cc ok
  Proposes-Commits command key _ _ (turned_down e given) ok = cc ok
  Proposes-Commits command key _ _ (gave_up m t given after) ok = cc ok
  Proposes-Commits command key _ _ (received m t out given after sent) ok =
      let whole : out ≡ record { result = out.result; error = none } = cc ok in
      subst (λ o. Commits (claim_proposed n command key) m.store.state o) whole
        (answered-Commits _ m.store.state out ok
          (ticket_outcome n0 n m command key t out sound idle quiet before given after sent))

  Executes-Commits :
      (c : Command) (m : Node) (a : StateMachine.Result × Option NodeError)
      → Executes n c m a
      → a.1 ≡ none
      → Commits
          (claim_proposed n (some c) none)
          m.store.state
          (record { result = a.0; error = none })
  Executes-Commits c _ _ (not_valid e bad) ok = cc ok
  Executes-Commits c m a (executes _ _ fits p) ok = Proposes-Commits (some c) none m a p ok

written_200 :
    (uri : Text) (result : StateMachine.Result) (error : Option NodeError)
    → (answer_write (handle_request_error uri) result error).status ≡ 200
    → (error ≡ none)
      × ((answer_write (handle_request_error uri) result error).body ≡ result_of result)
unfolding answer_write
written_200 uri result none h = (refl, refl)
written_200 uri result (some e) h = absurd (error_is_refused uri e h)

-- A write that a node of a cluster answers with 200 is committed. Take any run of a sound node that
-- starts with nobody waiting and nothing sent, and any Execute that keeps to what Execute may do. If the
-- answer to the request is 200, then the commit index covers the entry with its command, which stands
-- in the node's log unless it has been compacted, and the body is the result of the command on the
-- machine that the node's snapshot and its whole log gave before the request.
pub write_committed :
    (execute : Execute) (uri operation key : Text) (body : WriteRequest) (n0 n : Node)
    → IsExecute execute
    → IsSound n0
    → n0.pending ≡ []
    → n0.outcomes ≡ []
    → Reaches n0 n
    → (write_cluster execute uri operation key (decoded body) n).1.status ≡ 200
    → (result : StateMachine.Result) × ((write_cluster execute uri operation key
          (decoded body)
          n).1.body
        ≡ result_of result)
      × Commits
          (claim_proposed n (some (command_of operation key body)) none)
          (write_cluster execute uri operation key (decoded body) n).0.store.state
          (record { result = result; error = none })
unfolding write write_decoded
write_committed execute uri operation key body n0 n runs sound idle quiet before ok =
    elim (Bool-cases (misses_field operation body)) [
      | inl misses ↦ absurd (omega (arith, rw misses at ok))
      | inr whole ↦ elim (Bool-cases (has_extra_field operation body)) [
        | inl extra ↦ absurd (omega (arith, rw (whole, extra) at ok))
        | inr plain ↦
            let c = command_of operation key body in
            let (m, result, error) = execute n c in
            let (fine, answer) = written_200 uri result error (rw (whole, plain) at ok) in
            rw (whole, plain)
              (
                result,
                answer,
                Executes-Commits n0 n sound idle quiet before c m (result, error) (runs n c) fine,
              )
      ]
    ]
