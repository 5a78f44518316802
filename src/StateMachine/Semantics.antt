-- ===== src/StateMachine/Semantics.antt =====
-- internal/statemachine/machine.go: `Apply` against a specification on partial functions.
use shard_zero.Prelude.{
  ◌≡◌, refl, Bool, true, false, not, Option, none, some, arith, Text, bytes, text_eq, is_none,
  if◌then◌else◌, inc64, Option-cases, inl, inr, [],
}
use shard_zero.Prelude.Dict.{Dict, get, read, text_key, get-put, get-remove}
use shard_zero.StateMachine.{
  Command, Result, Machine, no_result, validate, check, apply, commit_command, run_command,
  get_value,
}
use shard_zero.StateMachine.Checks.{CheckCases, refused, duplicate, fresh, check_cases, apply_fresh}

-- The operations of a key-value store.
pub data Operation : Type 0 where
  set_key : Text → Text → Operation
  delete_key : Text → Operation
  compare_and_swap : Text → Text → Text → Operation

abbrev pub Contents : Type 0
Contents = Text → Option Text

abbrev update : Contents → Text → Option Text → Contents
update f k v j = if text_eq k j then v else f j

abbrev pub has_value : Option Text → Text → Bool
has_value none v = false
has_value (some w) v = text_eq w v

-- The contents after an operation.
unfoldable pub after : Operation → Contents → Contents
after (set_key k v) f = update f k (some v)
after (delete_key k) f = update f k none
after (compare_and_swap k e v) f = if has_value (f k) e then update f k (some v) else f

-- What a request shows of the value at its key.
abbrev pub observed : Option Text → Bool → Bool → Result
observed none applied conflict = record {
  value = [];
  found = false;
  applied = applied;
  conflict = conflict;
}
observed (some v) applied conflict = record {
  value = v;
  found = true;
  applied = applied;
  conflict = conflict;
}

-- The result of an operation on the contents before it.
pub answer : Operation → Contents → Result
answer (set_key k v) f = observed (some v) true false
answer (delete_key k) f = observed (f k) (not (is_none (f k))) false
answer (compare_and_swap k e v) f =
    if has_value (f k) e then observed (some v) true false else observed (f k) false true

-- The operation that a command asks for.
unfoldable pub operation_of : Command → Option Operation
operation_of c =
    if text_eq c.operation (bytes "SET")
    then some (set_key c.key c.value)
    else if text_eq c.operation (bytes "DELETE")
    then some (delete_key c.key)
    else if text_eq c.operation (bytes "CAS")
    then some (compare_and_swap c.key c.expected c.value)
    else none

module _ (values : Dict Text Text) (c : Command) (op : Operation) where
  run_command-answer : operation_of c ≡ some op → (run_command values c).1 ≡ answer op (get values)
  unfolding run_command operation_of answer read
  run_command-answer h = ground arith

  run_command-after :
      (j : Text)
      → operation_of c ≡ some op
      → get (run_command values c).0 j ≡ after op (get values) j
  unfolding run_command operation_of after read
  run_command-after j h = ground (arith, get-put values c.key j c.value, get-remove values c.key j)

unknown_operation_refused : (c : Command) → validate c ≡ none → operation_of c ≡ none → ⊥
unfolding validate operation_of
unknown_operation_refused c v e = ground arith

validate-operation_of :
    (c : Command) → validate c ≡ none → (op : Operation) × (operation_of c ≡ some op)
validate-operation_of c v = elim (Option-cases (operation_of c)) [
  | inr known ↦ known
  | inl unknown ↦ absurd (unknown_operation_refused c v unknown)
]

-- How the machine after a command stands to the machine before it: every key reads as the
-- specification says, the result is the specification's, and the command is counted.
pub record Performs (m : Machine) (op : Operation) (m' : Machine) (r : Result) : Type 0 where
  pub contents : (j : Text) → get m'.values j ≡ after op (get m.values) j
  pub result : r ≡ answer op (get m.values)
  pub count : m'.count ≡ inc64 m.count

commit_command-Performs :
    (m : Machine) (c : Command) (op : Operation)
    → operation_of c ≡ some op
    → Performs m op (commit_command m c).0 (commit_command m c).1
unfolding commit_command
commit_command-Performs m c op h = record {
  contents = λ j. run_command-after m.values c op j h;
  result = run_command-answer m.values c op h;
  count = refl;
}

-- A command that `Check` finds valid and new performs the operation that it names, on the contents
-- before it, and `Apply` reports no error.
pub apply-Performs :
    (m : Machine) (c : Command)
    → check m c ≡ (no_result, false, none)
    → (op : Operation) × (operation_of c ≡ some op)
      × Performs m op (apply m c).0 (apply m c).1
      × ((apply m c).2 ≡ none)
apply-Performs m c h =
    let (op, named) = validate-operation_of c (go (check_cases m c)) in
    (
      op,
      named,
      rw (apply_fresh m c h) (commit_command-Performs m c op named),
      rw (apply_fresh m c h) (unfold commit_command in refl),
    )
  where
    go : CheckCases m c → validate c ≡ none
    go (refused e k) = cc
    go (duplicate s v g eq k) = v
    go (fresh v newer k) = v

-- Reading a key gives the value that the last write of it left: `Get` shows the contents.
pub get_value_eq :
    (m : Machine) (k : Text)
    → get_value m k ≡ (
      (observed (get m.values k) false false).value,
      (observed (get m.values k) false false).found,
    )
unfolding get_value read
get_value_eq m k = ground arith
