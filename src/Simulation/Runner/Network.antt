-- ===== src/Simulation/Runner/Network.antt =====
-- internal/simulation/simulation.go, drain and send: messages that are lost, late, repeated and answered.
use shard_zero.Prelude.{
  ℕ, zero, suc, ◌+◌, Bool, true, false, not, ◌&&◌, ◌||◌, Option, none, some, List, [], ◌∷◌, ◌++◌,
  Text, bytes, decimal, text_eq, ltb, ◌==◌, is_none, if◌then◌else◌,
}
use shard_zero.Raft.Types.{VoteRequest, AppendRequest}
use shard_zero.Raft.Node.{Node, Message}
use shard_zero.Raft.Client.{drain_messages, deliver_vote}
use shard_zero.Raft.Election.{request_vote}
use shard_zero.Raft.Rpc.{append_entries, deliver_append}
use shard_zero.Simulation.Schedule.{Call, Reply, times_out, delivers, duplicates, responds}
use shard_zero.Simulation.Runner.{
  World, Runner, count_of, update, name_of, node_count, put_node, log_event, schedule, drawn, each,
}

unfoldable pub blocked : Runner → ℕ → ℕ → Bool
blocked r from to = not (from == to) && (r.isolated from || r.isolated to)

-- `delayMS`
unfoldable pub delay_ms : World → Runner → ℕ
delay_ms w r = 1 + w.int_n r.draws (r.delay + 1)

-- A draw of 100 below a percentage.
unfoldable pub happens : World → Runner → ℕ → Bool
happens w r percent = ltb (w.int_n r.draws 100) percent

pub no_reply : Reply
no_reply = record {
  vote = record { term = 0; granted = false };
  append = record { term = 0; success = false; match_index = 0; conflict_index = 0 };
  error = true;
}

abbrev pub answer_of : Node → Call → Reply → Node
answer_of n c v =
    if is_none c.message.vote
    then deliver_append n c.message v.append v.error
    else deliver_vote n c.message v.vote v.error

is_at : Option ℕ → ℕ → Bool
is_at none p = false
is_at (some q) p = q == p

-- `finish`: once, and while the sender has not started again
unfoldable pub finish : Runner → Call → Reply → Runner
unfolding is_at
finish r c v =
    if r.completed c.id || not (is_at (r.place c.from) c.source)
    then r
    else put_node (record r { completed = update r.completed c.id true }) c.source
        (answer_of (r.heap c.source) c v)

-- What the receiver does and answers.
unfoldable pub served : Message → Option VoteRequest → Option AppendRequest → Node → Node × Reply
unfolding no_reply
served m (some req) append n =
    let (n, v, e) = request_vote n req in (n, record no_reply { vote = v; error = not (is_none e) })
served m none (some req) n =
    let (n, v, e) = append_entries n req in
    (n, record no_reply { append = v; error = not (is_none e) })
served m none none n = (n, no_reply)

-- the answer, on its way back unless it is lost
unfoldable pub answered_call : World → Runner → Call → Reply → Runner
unfolding happens delay_ms
answered_call w r c v =
    let lost = happens w r r.drop in
    let r = drawn r in
    if lost then r else schedule (drawn r) (r.ledger.now + delay_ms w r) (responds c v)

unfoldable pub deliver_to : World → Runner → Call → ℕ → Runner
unfolding served answered_call
deliver_to w r c p =
    let r =
      log_event r (bytes "MESSAGE_DELIVERED") c.message.from
        (c.message.to ++ (bytes "/" ++ decimal c.message.sequence)) in
    let (n, v) = served c.message c.message.vote c.message.append (r.heap p) in
    answered_call w (put_node r p n) c v

-- the closure `deliver`
unfoldable pub deliver : World → Runner → Call → Runner
unfolding blocked deliver_to
deliver w r c = elim (r.place c.to) [
  | none ↦ r
  | some p ↦ if blocked r c.from c.to then r else deliver_to w r c p
]

-- the closure of "response"
unfoldable pub respond : Runner → Call → Reply → Runner
unfolding blocked finish
respond r c v = if blocked r c.to c.from then r else finish r c v

-- `send` of a message that is lost
unfoldable pub lose : Runner → Call → Runner
lose r c =
    log_event r (bytes "MESSAGE_DROPPED") c.message.from
      (c.message.to ++ (bytes "/" ++ decimal c.message.sequence))

-- `send` of one that is not
unfoldable pub pass_on : World → Runner → Call → Runner
unfolding happens delay_ms
pass_on w r c =
    let r = schedule (drawn r) (r.ledger.now + delay_ms w r) (delivers c) in
    let twice = happens w r (count_of r.s.duplicate_percent) in
    let r = drawn r in
    if twice then schedule (drawn r) (r.ledger.now + delay_ms w r) (duplicates c) else r

-- `send`; a member that is cut off takes no draw
unfoldable pub send : World → Runner → Call → Runner
unfolding blocked happens lose pass_on
send w r c =
    let r = schedule r (r.ledger.now + 300) (times_out c) in
    if blocked r c.from c.to
    then lose r c
    else if happens w r r.drop
    then lose (drawn r) c
    else pass_on w (drawn r) c

-- the loop over the peers: the last of the name
unfoldable pub find_peer : Text → ℕ → ℕ → Option ℕ → Option ℕ
unfolding name_of
find_peer to i zero found = found
find_peer to i (suc k) found =
    find_peer to (suc i) k (if text_eq (name_of i) to then some i else found)

unfoldable pub send_to : World → Runner → ℕ → ℕ → Message → Option ℕ → Runner
unfolding send
send_to w r from source m none = r
send_to w r from source m (some to) =
    send w r (record { id = r.seq; from = from; to = to; source = source; message = m })

unfoldable pub send_all : World → ℕ → ℕ → List Message → Runner → Runner
unfolding find_peer send_to
send_all w from source [] r = r
send_all w from source (m ∷ ms) r =
    send_all w from source ms (send_to w r from source m (find_peer m.to 0 (node_count r) none))

unfoldable pub drain_at : World → Runner → ℕ → ℕ → Runner
unfolding send_all
drain_at w r i p =
    let (n, messages) = drain_messages (r.heap p) in send_all w i p messages (put_node r p n)

-- the body of the loop of `drain`
unfoldable pub drain_node : World → Runner → ℕ → Runner
unfolding drain_at
drain_node w r i = elim (r.place i) [ none ↦ r | some p ↦ drain_at w r i p ]

-- `drain`
unfoldable pub drain : World → Runner → Runner
unfolding drain_node each
drain w r = each (drain_node w) 0 (node_count r) r
