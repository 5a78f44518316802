-- ===== src/Simulation/Runner/Clients.antt =====
-- internal/simulation/simulation.go, try and collect: the clients' operations and their tickets.
use shard_zero.Prelude.{
  ℕ, zero, suc, ◌+◌, Bool, true, false, not, ◌&&◌, ◌||◌, Option, none, some, bytes, ltb, leb, ◌==◌,
  is_none, if◌then◌else◌, Attempt, done, failed,
}
use shard_zero.Raft.Node.{Node, Outcome, NodeError, is_leader}
use shard_zero.Raft.Client.{Ticket, submit, poll, cancel, tick, status, Status}
use shard_zero.Simulation.Schedule.{Handle, expires, ticks}
use shard_zero.Simulation.Runner.{
  Runner, Operation, bad_acknowledgement, update, name_of, node_count, operation_count, put_node,
  log_event, schedule, each,
}

-- The leader that a client asks.
pub record Choice : Type 0 where
  pub best : ℕ
  pub source : ℕ
  pub term : ℕ

beats : Status → Option Choice → Bool
beats s none = s.healthy && is_leader s.role
beats s (some c) = s.healthy && is_leader s.role && ltb c.term s.term

-- the loop over the members: the first of the highest term
unfoldable pub best_leader : Runner → ℕ → ℕ → Option Choice → Option Choice
unfolding beats
best_leader r i zero c = c
best_leader r i (suc k) c = best_leader r (suc i) k (elim (r.place i) [
  | none ↦ c
  | some p ↦
      let s = status (r.heap p) in
      if beats s c then some (record { best = i; source = p; term = s.term }) else c
])

abbrev pub put_op : Runner → ℕ → Operation → Runner
put_op r j op = record r { ops = update r.ops j op }

-- `try` once the leader has answered
unfoldable pub submitted : Runner → ℕ → Choice → Node × Attempt Ticket NodeError → Runner
unfolding name_of
submitted r j c (n, failed e) = put_node r c.source n
submitted r j c (n, done t) =
    let op = r.ops j in
    let h : Handle = record { source = c.source; ticket = t } in
    let r = put_op (put_node r c.source n) j (record op { ticket = some h }) in
    schedule (log_event r (bytes "CLIENT_SUBMIT") (name_of c.best) op.command.client_id)
      (r.ledger.now + 1200) (expires j h c.best)

unfoldable pub ask_leader : Runner → ℕ → Option Choice → Runner
unfolding submitted
ask_leader r j none = r
ask_leader r j (some c) = submitted r j c (submit (r.heap c.source) (some (r.ops j).command) none)

-- `try`
unfoldable pub try : Runner → ℕ → Runner
unfolding best_leader ask_leader
try r j =
    let op = r.ops j in
    if op.is_done || not (is_none op.ticket)
    then r
    else (let r = put_op r j (record op { retry_at = r.ledger.now + 150 }) in
        ask_leader r j (best_leader r 0 (node_count r) none))

-- `op.ticket == ticket`: each ticket of a node has its own channel.
same_handle : Option Handle → Handle → Bool
same_handle none h = false
same_handle (some g) h = g.source == h.source && g.ticket.done == h.ticket.done

-- the closure of "client-timeout"
unfoldable pub expire : Runner → ℕ → Handle → ℕ → Runner
unfolding same_handle name_of
expire r j h best =
    let op = r.ops j in
    let r' =
      put_op (put_node r h.source (cancel (r.heap h.source) h.ticket)) j
        (record op { ticket = none; retry_at = r.ledger.now + 50 }) in
    if same_handle op.ticket h
    then log_event r' (bytes "CLIENT_TIMEOUT") (name_of best) op.command.client_id
    else r

-- an operation whose ticket has its outcome, and whether the loop goes on
unfoldable pub settle : Runner → ℕ → Handle → Outcome → Runner × Bool
settle r j h out =
    let op = r.ops j in
    let s = status (r.heap h.source) in
    let over = record op { ticket = none; retry_at = r.ledger.now + 100 } in
    if not (is_none out.error)
    then (put_op r j over, true)
    else if ltb s.commit_index h.ticket.index || not out.result.applied
    then (record r { err = some bad_acknowledgement }, false)
    else (
      log_event
          (put_op (record r { acknowledged = r.acknowledged + 1 }) j
            (record over { is_done = true }))
          (bytes "CLIENT_ACK") s.node_id op.command.client_id,
      true,
    )

unfoldable pub polled_op : Runner → ℕ → Handle → Node × Option Outcome → Runner × Bool
unfolding settle
polled_op r j h (n, none) = (put_node r h.source n, true)
polled_op r j h (n, some out) = settle (put_node r h.source n) j h out

-- the body of the loop of `collect`
unfoldable pub collect_op : Runner → ℕ → Option Handle → Runner × Bool
unfolding polled_op
collect_op r j none = (r, true)
collect_op r j (some h) = polled_op r j h (poll (r.heap h.source) h.ticket)

-- `collect`, from the j-th operation on, k of them; an acknowledgement that is not right ends it.
unfoldable pub collect_from : ℕ → ℕ → Runner → Runner
unfolding collect_op
collect_from j zero r = r
collect_from j (suc k) r =
    let (r', more) = collect_op r j (r.ops j).ticket in
    let rest = collect_from (suc j) k r' in if more then rest else r'

unfoldable pub tick_node : Runner → ℕ → Runner
tick_node r i = elim (r.place i) [ none ↦ r | some p ↦ put_node r p (tick (r.heap p)) ]

unfoldable pub retry : Runner → ℕ → Runner
unfolding try
retry r j =
    let op = r.ops j in
    if not op.is_done && is_none op.ticket && leb op.retry_at r.ledger.now && leb 800 r.ledger.now
    then try r j
    else r

-- the closure `tick`
unfoldable pub tick_all : Runner → Runner
unfolding tick_node retry each
tick_all r =
    let r = each tick_node 0 (node_count r) r in
    let r = each retry 0 (operation_count r) r in schedule r (r.ledger.now + 50) ticks

-- the closure of "client"
unfoldable pub first_try : Runner → ℕ → Runner
unfolding try
first_try r j = try (put_op r j (record (r.ops j) { retry_at = r.ledger.now })) j
