-- ===== src/Simulation/Runner/Carrying.antt =====
-- internal/simulation/simulation.go, drain and send: what they keep.
use shard_zero.Prelude.{
  Bool, ℕ, ◌+◌, inl, inr, refl, Option, none, some, List, [], ◌∷◌, arith, is_none, Option-cases,
  Bool-cases,
}
use shard_zero.Raft.Types.{VoteRequest, AppendRequest}
use shard_zero.Raft.Node.{Node, Message}
use shard_zero.Raft.Node.Effects.{IsSound, Same-Good}
use shard_zero.Raft.Client.{drain_messages}
use shard_zero.Raft.Client.Effects.{deliver_vote-Good, drain_messages-Same}
use shard_zero.Raft.Election.Effects.{request_vote-Good}
use shard_zero.Raft.Rpc.Effects.{append_entries-Good, deliver_append-Good}
use shard_zero.Simulation.Schedule.{Call, Reply, times_out, delivers, duplicates, responds}
use shard_zero.Simulation.Runner.{World, Runner, node_count, drawn}
use shard_zero.Simulation.Runner.Network.{
  answer_of, finish, served, answered_call, deliver_to, deliver, respond, lose, pass_on, send,
  send_to, send_all, drain_at, drain_node, drain, delay_ms,
}
use shard_zero.Simulation.Runner.Fine.{
  Fine, Fine-kept, Fine-put_node, Fine-log_event, Fine-schedule, Fine-if, Fine-each,
}

answer_of-IsSound : (n : Node) (c : Call) (v : Reply) → IsSound n → IsSound (answer_of n c v)
answer_of-IsSound n c v s = elim (Bool-cases (is_none c.message.vote)) [
  | inl t ↦ rw t (deliver_append-Good n c.message v.append v.error s).1
  | inr f ↦ rw f (deliver_vote-Good n c.message v.vote v.error s).1
]

served-IsSound :
    (m : Message) (vote : Option VoteRequest) (append : Option AppendRequest) (n : Node)
    → IsSound n
    → IsSound (served m vote append n).0
unfolding served
served-IsSound m (some req) append n s = (request_vote-Good n req s).1
served-IsSound m none (some req) n s = (append_entries-Good n req s).1
served-IsSound m none none n s = s

module _ {many count limit taken : ℕ} {over : Bool} where
  Fine-drawn :
      (r : Runner) → Fine many count limit taken over r → Fine many count limit taken over (drawn r)
  Fine-drawn r h = Fine-kept refl refl refl refl refl refl refl refl h

  pub Fine-finish :
      (r : Runner) (c : Call) (v : Reply)
      → Fine many count limit taken over r
      → Fine many count limit taken over (finish r c v)
  unfolding finish
  Fine-finish r c v h = Fine-if _ h (
      Fine-put_node _ c.source _ (answer_of-IsSound (r.heap c.source) c v (h.sound c.source))
        (Fine-kept refl refl refl refl refl refl refl refl h))

  Fine-answered_call :
      (w : World) (r : Runner) (c : Call) (v : Reply)
      → Fine many count limit taken over r
      → Fine many count limit taken over (answered_call w r c v)
  unfolding answered_call
  Fine-answered_call w r c v h =
      let first = Fine-drawn r h in
      Fine-if _ first (Fine-schedule _ _ (responds c v) (omega arith) (Fine-drawn _ first))

  Fine-deliver_to :
      (w : World) (r : Runner) (c : Call) (p : ℕ)
      → Fine many count limit taken over r
      → Fine many count limit taken over (deliver_to w r c p)
  unfolding deliver_to
  Fine-deliver_to w r c p h =
      let noted = Fine-log_event r _ c.message.from _ h in
      Fine-answered_call w _ c _ (
        Fine-put_node _ p _
          (served-IsSound c.message c.message.vote c.message.append (r.heap p) (h.sound p)) noted)

  pub Fine-deliver :
      (w : World) (r : Runner) (c : Call)
      → Fine many count limit taken over r
      → Fine many count limit taken over (deliver w r c)
  unfolding deliver
  Fine-deliver w r c h = elim (Option-cases (r.place c.to)) [
    | inl e ↦ rw (e, deliver) h
    | inr (p, e) ↦ rw (e, deliver) (Fine-if _ h (Fine-deliver_to w r c p h))
  ]

  pub Fine-respond :
      (r : Runner) (c : Call) (v : Reply)
      → Fine many count limit taken over r
      → Fine many count limit taken over (respond r c v)
  unfolding respond
  Fine-respond r c v h = Fine-if _ h (Fine-finish r c v h)

  Fine-lose :
      (r : Runner) (c : Call)
      → Fine many count limit taken over r
      → Fine many count limit taken over (lose r c)
  unfolding lose
  Fine-lose r c h = Fine-log_event r _ _ _ h

  Fine-pass_on :
      (w : World) (r : Runner) (c : Call)
      → Fine many count limit taken over r
      → Fine many count limit taken over (pass_on w r c)
  unfolding pass_on
  Fine-pass_on w r c h =
      let once =
        Fine-schedule _ (r.ledger.now + delay_ms w r) (delivers c) (omega arith) (Fine-drawn r h) in
      let next = Fine-drawn _ once in
      Fine-if _ (Fine-schedule _ _ (duplicates c) (omega arith) (Fine-drawn _ next)) next

  Fine-send :
      (w : World) (r : Runner) (c : Call)
      → Fine many count limit taken over r
      → Fine many count limit taken over (send w r c)
  unfolding send
  Fine-send w r c h =
      let timed = Fine-schedule r (r.ledger.now + 300) (times_out c) (omega arith) h in
      Fine-if _ (Fine-lose _ c timed)
        (Fine-if _ (Fine-lose _ c (Fine-drawn _ timed)) (Fine-pass_on w _ c (Fine-drawn _ timed)))

  Fine-send_to :
      (w : World) (r : Runner) (from source : ℕ) (m : Message) (to : Option ℕ)
      → Fine many count limit taken over r
      → Fine many count limit taken over (send_to w r from source m to)
  unfolding send_to
  Fine-send_to w r from source m none h = h
  Fine-send_to w r from source m (some to) h = Fine-send w r _ h

  Fine-send_all :
      (w : World) (from source : ℕ) (ms : List Message) (r : Runner)
      → Fine many count limit taken over r
      → Fine many count limit taken over (send_all w from source ms r)
  unfolding send_all
  Fine-send_all w from source [] r h = h
  Fine-send_all w from source (m ∷ ms) r h =
      Fine-send_all w from source ms _ (Fine-send_to w r from source m _ h)

  Fine-drain_node :
      (w : World) (r : Runner) (i : ℕ)
      → Fine many count limit taken over r
      → Fine many count limit taken over (drain_node w r i)
  unfolding drain_node drain_at
  Fine-drain_node w r i h = elim (Option-cases (r.place i)) [
    | inl e ↦ rw (e, drain_node) h
    | inr (p, e) ↦
        rw (e, drain_node)
          (Fine-send_all w i p (drain_messages (r.heap p)).1 _
            (Fine-put_node r p _ (Same-Good (drain_messages-Same (r.heap p)) (h.sound p)).1 h))
  ]

  pub Fine-drain :
      (w : World) (r : Runner)
      → Fine many count limit taken over r
      → Fine many count limit taken over (drain w r)
  unfolding drain
  Fine-drain w r h = Fine-each (drain_node w) (Fine-drain_node w) 0 (node_count r) r h
