-- ===== src/Simulation/Schedule.antt =====
-- internal/simulation/simulation.go, item and queue: what is to happen, by its time and its number.
-- container/heap is the standard library's: `Push` and `Pop` on the order `Less`, in which no two items
-- are equal, since each has its number. Here the items are kept in that order.
use shard_zero.Prelude.{
  ℕ, ◌≤◌, Bool, List, [], ◌∷◌, Text, bytes, ltb, ◌==◌, if◌then◌else◌, arith, inl, inr, Bool-cases,
}
use shard_zero.Raft.Types.{VoteResponse, AppendResponse}
use shard_zero.Raft.Node.{Message}
use shard_zero.Raft.Client.{Ticket}
use shard_zero.Simulation.{Fault}

-- A ticket and the address of the node that gave it.
pub record Handle : Type 0 where
  pub source : ℕ
  pub ticket : Ticket

-- What the closures of a `send` share: the two members, the address of the sender's node, the message,
-- and the number by which it is known whether it has been answered.
pub record Call : Type 0 where
  pub id : ℕ
  pub from : ℕ
  pub to : ℕ
  pub source : ℕ
  pub message : Message

pub record Reply : Type 0 where
  pub vote : VoteResponse
  pub append : AppendResponse
  pub error : Bool

-- What an item runs: the closures that the runner makes, with what they capture.
pub data Task : Type 0 where
  injects : Fault → Task
  submits : ℕ → Task
  expires : ℕ → Handle → ℕ → Task
  recovers ticks : Task
  times_out delivers duplicates : Call → Task
  responds : Call → Reply → Task

-- The second argument of `schedule`.
unfoldable pub kind_of : Task → Text
kind_of (injects f) = bytes "fault"
kind_of (submits j) = bytes "client"
kind_of (expires j h i) = bytes "client-timeout"
kind_of recovers = bytes "recover-all"
kind_of ticks = bytes "tick"
kind_of (times_out c) = bytes "rpc-timeout"
kind_of (delivers c) = bytes "message"
kind_of (duplicates c) = bytes "duplicate-message"
kind_of (responds c v) = bytes "response"

pub record Item : Type 0 where
  pub at : ℕ
  pub seq : ℕ
  pub task : Task

-- `Less`
pub less : Item → Item → Bool
less a b = if a.at == b.at then ltb a.seq b.seq else ltb a.at b.at

-- `heap.Push`
unfoldable pub push : Item → List Item → List Item
unfolding less
push x [] = x ∷ []
push x (y ∷ ys) = let rest = push x ys in if less x y then x ∷ y ∷ ys else y ∷ rest

-- The items are in the order of their times, from a time on.
pub IsDue : ℕ → List Item → Type 0
IsDue now [] = Unit
IsDue now (x ∷ xs) = (now ≤ x.at) × IsDue x.at xs

pub IsDue-nil : (now : ℕ) → IsDue now []
unfolding IsDue
IsDue-nil now = tt

pub IsDue-tail :
    (now : ℕ) (x : Item) (xs : List Item) → IsDue now (x ∷ xs) → (now ≤ x.at) × IsDue x.at xs
unfolding IsDue
IsDue-tail now x xs h = h

pub IsDue-earlier :
    (early late : ℕ) (xs : List Item) → early ≤ late → IsDue late xs → IsDue early xs
unfolding IsDue
IsDue-earlier early late [] h due = tt
IsDue-earlier early late (x ∷ xs) h (first, rest) = (omega (arith, h, first), rest)

-- An item that is not before the time finds its place.
pub push-IsDue :
    (now : ℕ) (x : Item) (xs : List Item) → now ≤ x.at → IsDue now xs → IsDue now (push x xs)
unfolding push IsDue less
push-IsDue now x [] h due = (h, tt)
push-IsDue now x (y ∷ ys) h (first, rest) = elim (Bool-cases (less x y)) [
  | inl t ↦ rw t (h, (ground (arith, t), rest))
  | inr f ↦ rw f (first, push-IsDue y.at x ys (ground (arith, f)) rest)
]
