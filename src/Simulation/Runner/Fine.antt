-- ===== src/Simulation/Runner/Fine.antt =====
-- internal/simulation/simulation.go, runner: what holds between two changes of a run.
use shard_zero.Prelude.{
  ℕ, zero, suc, ◌+◌, ◌≤◌, ◌<◌, ◌≡◌, inl, inr, refl, sym, ap, ◌∙◌, Bool, true, false, none, Text,
  arith, ◌==◌, if◌then◌else◌, Bool-cases,
}
use shard_zero.Raft.Node.{Node}
use shard_zero.Raft.Node.Effects.{IsSound}
use shard_zero.Simulation.Checker.{note}
use shard_zero.Simulation.Schedule.{Task, IsDue, push-IsDue}
use shard_zero.Simulation.Runner.{
  Runner, Operation, update, node_count, operation_count, put_node, log_event, schedule, each,
}
use shard_zero.Simulation.Runner.Clients.{put_op}

-- The operations that are done, of the first k.
unfoldable pub count_done : (ℕ → Operation) → ℕ → ℕ
count_done ops zero = 0
count_done ops (suc k) = (if (ops k).is_done then 1 else 0) + count_done ops k

-- Of `many` members and `count` operations, after `taken` items, none of them after `limit`, and
-- converged or not (`over`): all nodes are sound, nothing that is to happen is in the past, what is
-- acknowledged is what is done, and what is done waits for nothing.
pub record Fine (many count limit taken : ℕ) (over : Bool) (r : Runner) : Type 0 where
  pub width : node_count r ≡ many
  pub size : operation_count r ≡ count
  pub sound : (p : ℕ) → IsSound (r.heap p)
  pub due : IsDue r.ledger.now r.queue
  pub counted : r.acknowledged ≡ count_done r.ops count
  pub waiting : (j : ℕ) → (r.ops j).is_done ≡ true → (r.ops j).ticket ≡ none
  pub early : r.ledger.now ≤ limit
  pub stepped : r.steps ≡ taken
  pub ended : r.converged ≡ over

-- A change to none of this.
pub Fine-kept :
    {many count limit taken : ℕ} {over : Bool} {r r' : Runner}
    → r'.s ≡ r.s
    → r'.heap ≡ r.heap
    → r'.ledger.now ≡ r.ledger.now
    → r'.queue ≡ r.queue
    → r'.acknowledged ≡ r.acknowledged
    → r'.ops ≡ r.ops
    → r'.steps ≡ r.steps
    → r'.converged ≡ r.converged
    → Fine many count limit taken over r
    → Fine many count limit taken over r'
Fine-kept s heap now queue acknowledged ops steps converged f = record {
  width = rw s f.width;
  size = rw s f.size;
  sound = λ p. rw heap (f.sound p);
  due = rw (now, queue) f.due;
  counted = rw (acknowledged, ops) f.counted;
  waiting = λ j h. rw ops (f.waiting j (rw ops at h));
  early = rw now f.early;
  stepped = steps ∙ f.stepped;
  ended = converged ∙ f.ended;
}

pub Fine-put_node :
    {many count limit taken : ℕ} {over : Bool} (r : Runner) (p : ℕ) (n : Node)
    → IsSound n
    → Fine many count limit taken over r
    → Fine many count limit taken over (put_node r p n)
Fine-put_node r p n sound f = record {
  width = f.width;
  size = f.size;
  sound = λ q. elim (Bool-cases (p == q)) [ inl t ↦ rw t sound | inr e ↦ rw e (f.sound q) ];
  due = f.due;
  counted = f.counted;
  waiting = f.waiting;
  early = f.early;
  stepped = f.stepped;
  ended = f.ended;
}

pub Fine-log_event :
    {many count limit taken : ℕ} {over : Bool} (r : Runner) (kind node detail : Text)
    → Fine many count limit taken over r
    → Fine many count limit taken over (log_event r kind node detail)
unfolding note
Fine-log_event r kind node detail f = Fine-kept refl refl refl refl refl refl refl refl f

pub Fine-schedule :
    {many count limit taken : ℕ} {over : Bool} (r : Runner) (at : ℕ) (task : Task)
    → r.ledger.now ≤ at
    → Fine many count limit taken over r
    → Fine many count limit taken over (schedule r at task)
Fine-schedule r at task h f = record {
  width = f.width;
  size = f.size;
  sound = f.sound;
  due = push-IsDue r.ledger.now _ r.queue h f.due;
  counted = f.counted;
  waiting = f.waiting;
  early = f.early;
  stepped = f.stepped;
  ended = f.ended;
}

pub Fine-if :
    {many count limit taken : ℕ} {over : Bool} {r r' : Runner} (b : Bool)
    → Fine many count limit taken over r
    → Fine many count limit taken over r'
    → Fine many count limit taken over (if b then r else r')
Fine-if true f f' = f
Fine-if false f f' = f'

pub Fine-each :
    {many count limit taken : ℕ} {over : Bool} (f : Runner → ℕ → Runner)
    → ((r : Runner) (i : ℕ)
        → Fine many count limit taken over r
        → Fine many count limit taken over (f r i))
    → (i k : ℕ) (r : Runner) → Fine many count limit taken over r
    → Fine many count limit taken over (each f i k r)
unfolding each
Fine-each f keeps i zero r h = h
Fine-each f keeps i (suc k) r h = Fine-each f keeps (suc i) k (f r i) (keeps r i h)

-- an operation that is as done as before
done-update :
    (ops : ℕ → Operation) (j : ℕ) (op : Operation) (k : ℕ)
    → op.is_done ≡ (ops j).is_done
    → (update ops j op k).is_done ≡ (ops k).is_done
done-update ops j op k h = ground (arith, h)

count_done-update :
    (ops : ℕ → Operation) (j : ℕ) (op : Operation) (count : ℕ)
    → op.is_done ≡ (ops j).is_done
    → count_done (update ops j op) count ≡ count_done ops count
unfolding count_done
count_done-update ops j op zero h = refl
count_done-update ops j op (suc k) h =
    rw (done-update ops j op k h, count_done-update ops j op k h) refl

count_done_beyond :
    (ops : ℕ → Operation) (j : ℕ) (op : Operation) (count : ℕ)
    → count ≤ j
    → count_done (update ops j op) count ≡ count_done ops count
unfolding count_done
count_done_beyond ops j op zero h = refl
count_done_beyond ops j op (suc k) h =
    ground (arith, count_done_beyond ops j op k (omega (arith, h)))

count_done-finish :
    (ops : ℕ → Operation) (j : ℕ) (op : Operation) (count : ℕ)
    → j < count
    → (ops j).is_done ≡ false
    → op.is_done ≡ true
    → count_done (update ops j op) count ≡ count_done ops count + 1
unfolding count_done
count_done-finish ops j op zero h was now = absurd (ground (arith, h))
count_done-finish ops j op (suc k) h was now = elim (Bool-cases (j == k)) [
  | inl here ↦
      let e : j ≡ k = ground (arith, here) in
      ground (arith, count_done_beyond ops j op k (omega (arith, e)), was, now)
  | inr other ↦ ground (arith, count_done-finish ops j op k (ground (arith, h, other)) was now)
]

pub Fine-put_op :
    {many count limit taken : ℕ} {over : Bool} (r : Runner) (j : ℕ) (op : Operation)
    → op.is_done ≡ (r.ops j).is_done
    → (op.is_done ≡ true → op.ticket ≡ none)
    → Fine many count limit taken over r
    → Fine many count limit taken over (put_op r j op)
Fine-put_op {many} {count} {limit} {taken} {over} r j op same free f = record {
  width = f.width;
  size = f.size;
  sound = f.sound;
  due = f.due;
  counted = f.counted ∙ sym (count_done-update r.ops j op count same);
  waiting = λ k h. elim (Bool-cases (j == k)) [
    | inl t ↦ rw t (free (rw t at h))
    | inr e ↦ rw e (f.waiting k (rw e at h))
  ];
  early = f.early;
  stepped = f.stepped;
  ended = f.ended;
}

-- An operation is done, and acknowledged.
pub Fine-finish :
    {many count limit taken : ℕ} {over : Bool} (r : Runner) (j : ℕ) (op : Operation)
    → j < count
    → (r.ops j).is_done ≡ false
    → op.is_done ≡ true
    → op.ticket ≡ none
    → Fine many count limit taken over r
    → Fine many count limit taken over
        (put_op (record r { acknowledged = r.acknowledged + 1 }) j op)
Fine-finish {many} {count} {limit} {taken} {over} r j op inside was now free f = record {
  width = f.width;
  size = f.size;
  sound = f.sound;
  due = f.due;
  counted =
      ap (λ (x : ℕ). x + 1) f.counted ∙ sym (count_done-finish r.ops j op count inside was now);
  waiting = λ k h. elim (Bool-cases (j == k)) [
    | inl t ↦ rw t free
    | inr e ↦ rw e (f.waiting k (rw e at h))
  ];
  early = f.early;
  stepped = f.stepped;
  ended = f.ended;
}
