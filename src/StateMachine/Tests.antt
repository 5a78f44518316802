-- ===== src/StateMachine/Tests.antt =====
-- internal/statemachine/machine.go: the theorems at work.
use shard_zero.Prelude.{
  ℕ, ◌≡◌, ◌≢◌, refl, false, none, some, [], ◌∷◌, All, Text, bytes, text_eq, valid_utf8,
}
use shard_zero.Prelude.Dict.{get, put}
use shard_zero.StateMachine.{
  Command, Snapshot, no_result, new, validate, check, apply, snapshot, restore,
}
use shard_zero.StateMachine.Retries.{apply_all, apply_once, apply_at_most_once}
use shard_zero.StateMachine.Semantics.{Operation, operation_of, Performs, apply-Performs}
use shard_zero.StateMachine.Invariant.{new-IsValid, apply_all-IsValid}
use shard_zero.StateMachine.Snapshots.{restore-snapshot}

abbrev command : Text → ℕ → Text → Text → Text → Command
command client request operation value expected = record {
  client_id = client;
  request_id = request;
  operation = operation;
  key = bytes "x";
  value = value;
  expected = expected;
}

abbrev set_one : Command
set_one = command (bytes "alice") 1 (bytes "SET") (bytes "1") []

abbrev swap : Command
swap = command (bytes "bob") 7 (bytes "CAS") (bytes "2") (bytes "1")

abbrev delete_it : Command
delete_it = command (bytes "alice") 2 (bytes "DELETE") [] []

accepted : (apply new set_one).2 ≡ none
unfolding apply check validate valid_utf8 text_eq get
accepted = refl

others : All (λ (d : Command). d.client_id ≢ bytes "alice") (swap ∷ [])
others = (λ e. cc e, tt)

apply_once_example :
    let later = apply_all (apply new set_one).0 (swap ∷ []) in
    apply later set_one ≡ (later, (apply new set_one).1, none)
apply_once_example = apply_once new set_one (swap ∷ []) accepted others

apply_at_most_once_example :
    let later = apply_all (apply new set_one).0 (swap ∷ delete_it ∷ []) in
    (apply later set_one).0 ≡ later
apply_at_most_once_example = apply_at_most_once new set_one (swap ∷ delete_it ∷ []) accepted

is_new : check (apply new set_one).0 swap ≡ (no_result, false, none)
unfolding check validate valid_utf8 text_eq get apply put
is_new = refl

apply-Performs_example :
    (op : Operation) × (operation_of swap ≡ some op)
    × Performs
        (apply new set_one).0
        op
        (apply (apply new set_one).0 swap).0
        (apply (apply new set_one).0 swap).1
    × ((apply (apply new set_one).0 swap).2 ≡ none)
apply-Performs_example = apply-Performs (apply new set_one).0 swap is_new

restore-snapshot_example :
    restore new (snapshot (apply_all new (set_one ∷ swap ∷ [])))
    ≡ (apply_all new (set_one ∷ swap ∷ []), none)
restore-snapshot_example =
    restore-snapshot (apply_all new (set_one ∷ swap ∷ [])) new
      (apply_all-IsValid new (set_one ∷ swap ∷ []) new-IsValid)

-- A snapshot with an empty key.
abbrev bad : Snapshot
bad = record { values = ([], bytes "1") ∷ []; sessions = []; count = 0 }
