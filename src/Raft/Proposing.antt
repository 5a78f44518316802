-- ===== src/Raft/Proposing.antt =====
-- internal/raft/node.go, Execute, Get and propose: from a call to its return. Between its two critical
-- sections the node takes any steps, and the context decides when a caller stops to wait.
use shard_zero.Prelude.{
  ◌≡◌, Bool, true, false, ◌||◌, Option, none, some, [], Text, text_eq, length, ltb, done, failed,
}
use shard_zero.StateMachine
use shard_zero.StateMachine.{Command, validate, no_result, bad_key}
use shard_zero.Raft.Node.{Node, NodeError, Outcome, no_quorum, context_ended, refused}
use shard_zero.Raft.Client.{Ticket, submit, poll, cancel}
use shard_zero.Raft.Steps.{Reaches}

-- What a proposal returns: the node then, and the result with its error.
pub data Proposes (n : Node) (command : Option Command) (read_key : Option Text)
    : Node → StateMachine.Result × Option NodeError → Type 0 where
  expired : Proposes n command read_key n (no_result, some context_ended)
  turned_down :
      (e : NodeError)
      → (submit n command read_key).1 ≡ failed e
      → Proposes n command read_key (submit n command read_key).0 (no_result, some e)
  received :
      (m : Node) (t : Ticket) (out : Outcome)
      → (submit n command read_key).1 ≡ done t
      → Reaches (submit n command read_key).0 m
      → (poll m t).1 ≡ some out
      → Proposes n command read_key (poll m t).0 (out.result, out.error)
  gave_up :
      (m : Node) (t : Ticket)
      → (submit n command read_key).1 ≡ done t
      → Reaches (submit n command read_key).0 m
      → Proposes n command read_key (cancel m t) (no_result, some no_quorum)

-- `Execute`
pub data Executes (n : Node) (c : Command)
    : Node → StateMachine.Result × Option NodeError → Type 0 where
  not_valid :
      (e : StateMachine.Error) → validate c ≡ some e → Executes n c n (no_result, some (refused e))
  executes :
      (m : Node) (a : StateMachine.Result × Option NodeError)
      → validate c ≡ none
      → Proposes n (some c) none m a
      → Executes n c m a

abbrev pub is_bad_key : Text → Bool
is_bad_key key = text_eq key [] || ltb 1024 (length key)

-- `Get`
pub data Gets (n : Node) (key : Text) : Node → (Text × Bool) × Option NodeError → Type 0 where
  no_such_key :
      is_bad_key key ≡ true
      → Gets n key n (([], false), some (refused (StateMachine.invalid bad_key)))
  gets :
      (m : Node) (r : StateMachine.Result) (e : Option NodeError)
      → is_bad_key key ≡ false
      → Proposes n none (some key) m (r, e)
      → Gets n key m ((r.value, r.found), e)
