-- ===== src/Simulation/Runner/Asking.antt =====
-- internal/simulation/simulation.go, try, collect and the clock: what they keep.
use shard_zero.Prelude.{
  Bool, ℕ, zero, suc, ◌+◌, ◌<◌, ◌≡◌, inl, inr, refl, false, not, ◌||◌, Option, none, some, arith,
  is_none, ltb, Option-cases, Bool-cases, Attempt, done, failed,
}
use shard_zero.Raft.Node.{Node, Outcome, NodeError}
use shard_zero.Raft.Node.Effects.{IsSound, Same-Good}
use shard_zero.Raft.Client.{Ticket, status}
use shard_zero.Raft.Client.Effects.{submit-Good, poll-Same, cancel-Good, tick-Good}
use shard_zero.Simulation.Checker.{note}
use shard_zero.Simulation.Schedule.{Handle, ticks}
use shard_zero.Simulation.Runner.{Runner, update, node_count, operation_count, each}
use shard_zero.Simulation.Runner.Clients.{
  Choice, submitted, ask_leader, try, expire, settle, polled_op, collect_op, collect_from,
  tick_node, retry, tick_all, first_try,
}
use shard_zero.Simulation.Runner.Fine.{
  Fine, Fine-kept, Fine-put_node, Fine-log_event, Fine-schedule, Fine-if, Fine-each, Fine-put_op,
  Fine-finish,
}

module _ {many count limit taken : ℕ} {over : Bool} where
  Fine-submitted :
      (r : Runner) (j : ℕ) (c : Choice) (p : Node × Attempt Ticket NodeError)
      → (r.ops j).is_done ≡ false
      → IsSound p.0
      → Fine many count limit taken over r
      → Fine many count limit taken over (submitted r j c p)
  unfolding submitted note
  Fine-submitted r j c (n, failed e) idle s h = Fine-put_node r c.source n s h
  Fine-submitted r j c (n, done t) idle s h = Fine-schedule _ _ _ (omega arith) (
      Fine-log_event _ _ _ _
        (Fine-put_op _ j _ refl (λ d. cc (idle, d)) (Fine-put_node r c.source n s h)))

  Fine-ask_leader :
      (r : Runner) (j : ℕ) (c : Option Choice)
      → (r.ops j).is_done ≡ false
      → Fine many count limit taken over r
      → Fine many count limit taken over (ask_leader r j c)
  unfolding ask_leader
  Fine-ask_leader r j none idle h = h
  Fine-ask_leader r j (some c) idle h =
      Fine-submitted r j c _ idle (submit-Good (r.heap c.source) _ none (h.sound c.source)).1 h

  Fine-try :
      (r : Runner) (j : ℕ)
      → Fine many count limit taken over r
      → Fine many count limit taken over (try r j)
  unfolding try
  Fine-try r j h = elim (Bool-cases ((r.ops j).is_done || not (is_none (r.ops j).ticket))) [
    | inl t ↦ rw t h
    | inr f ↦
        let idle : (r.ops j).is_done ≡ false = ground (arith, f) in
        let same : (update r.ops j (record (r.ops j) { retry_at = r.ledger.now + 150 }) j).is_done
            ≡ false =
          ground (arith, idle) in
        rw f (Fine-ask_leader _ j _ same (Fine-put_op r j _ refl (λ d. cc (idle, d)) h))
  ]

  pub Fine-expire :
      (r : Runner) (j : ℕ) (g : Handle) (best : ℕ)
      → Fine many count limit taken over r
      → Fine many count limit taken over (expire r j g best)
  unfolding expire
  Fine-expire r j g best h =
      Fine-if _
        (Fine-log_event _ _ _ _ (
          Fine-put_op _ j _ refl (λ _. refl)
            (Fine-put_node r g.source _
              (cancel-Good (r.heap g.source) g.ticket (h.sound g.source)).1 h)))
        h

  Fine-settle :
      (r : Runner) (j : ℕ) (g : Handle) (out : Outcome)
      → j < count
      → (r.ops j).is_done ≡ false
      → Fine many count limit taken over r
      → Fine many count limit taken over (settle r j g out).0
  unfolding settle
  Fine-settle r j g out inside idle h = elim (Bool-cases (is_none out.error)) [
    | inr bad ↦ rw bad (Fine-put_op r j _ refl (λ _. refl) h)
    | inl fine ↦
        rw fine
          (elim (Bool-cases (
            ltb (status (r.heap g.source)).commit_index g.ticket.index || not out.result.applied)) [
              | inl early ↦ rw early (Fine-kept refl refl refl refl refl refl refl refl h)
              | inr right ↦
                  rw right (Fine-log_event _ _ _ _ (Fine-finish r j _ inside idle refl refl h))
            ])
  ]

  Fine-polled_op :
      (r : Runner) (j : ℕ) (g : Handle) (p : Node × Option Outcome)
      → j < count
      → (r.ops j).is_done ≡ false
      → IsSound p.0
      → Fine many count limit taken over r
      → Fine many count limit taken over (polled_op r j g p).0
  unfolding polled_op
  Fine-polled_op r j g (n, none) inside idle s h = Fine-put_node r g.source n s h
  Fine-polled_op r j g (n, some out) inside idle s h =
      Fine-settle _ j g out inside idle (Fine-put_node r g.source n s h)

  Fine-collect_op :
      (r : Runner) (j : ℕ) (t : Option Handle)
      → j < count
      → (r.ops j).ticket ≡ t
      → Fine many count limit taken over r
      → Fine many count limit taken over (collect_op r j t).0
  unfolding collect_op
  Fine-collect_op r j none inside e h = h
  Fine-collect_op r j (some g) inside e h =
      Fine-polled_op r j g _ inside idle
        (Same-Good (poll-Same (r.heap g.source) g.ticket) (h.sound g.source)).1 h
    where
      idle : (r.ops j).is_done ≡ false
      idle = elim (Bool-cases (r.ops j).is_done) [ inl d ↦ cc (h.waiting j d, e) | inr f ↦ f ]

  pub Fine-collect_from :
      (j k : ℕ) (r : Runner)
      → j + k ≡ count
      → Fine many count limit taken over r
      → Fine many count limit taken over (collect_from j k r)
  unfolding collect_from
  Fine-collect_from j zero r inside h = h
  Fine-collect_from j (suc k) r inside h =
      let once = Fine-collect_op r j (r.ops j).ticket (omega (arith, inside)) refl h in
      Fine-if (collect_op r j (r.ops j).ticket).1
        (Fine-collect_from (suc j) k _ (omega (arith, inside)) once) once

  Fine-tick_node :
      (r : Runner) (i : ℕ)
      → Fine many count limit taken over r
      → Fine many count limit taken over (tick_node r i)
  unfolding tick_node
  Fine-tick_node r i h = elim (Option-cases (r.place i)) [
    | inl e ↦ rw (e, tick_node) h
    | inr (p, e) ↦ rw (e, tick_node) (Fine-put_node r p _ (tick-Good (r.heap p) (h.sound p)).1 h)
  ]

  Fine-retry :
      (r : Runner) (j : ℕ)
      → Fine many count limit taken over r
      → Fine many count limit taken over (retry r j)
  unfolding retry
  Fine-retry r j h = Fine-if _ (Fine-try r j h) h

  pub Fine-tick_all :
      (r : Runner)
      → Fine many count limit taken over r
      → Fine many count limit taken over (tick_all r)
  unfolding tick_all
  Fine-tick_all r h =
      let ticked = each tick_node 0 (node_count r) r in
      Fine-schedule _ _ ticks (omega arith) (
        Fine-each retry Fine-retry 0 (operation_count ticked) ticked
          (Fine-each tick_node Fine-tick_node 0 (node_count r) r h))

  pub Fine-first_try :
      (r : Runner) (j : ℕ)
      → Fine many count limit taken over r
      → Fine many count limit taken over (first_try r j)
  unfolding first_try
  Fine-first_try r j h = Fine-try _ j (Fine-put_op r j _ refl (h.waiting j) h)
