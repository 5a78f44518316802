-- ===== src/StateMachine.antt =====
-- internal/statemachine/machine.go. A method that changes `*Machine` returns the new machine beside
-- its results; the mutex makes each call one step. `Digest` is not modelled.
pub mod Checks
pub mod Semantics
pub mod Retries
pub mod Invariant
pub mod Snapshots
mod Tests
use shard_zero.Prelude.{
  ℕ, ◌+◌, ◌*◌, ◌^◌, Bool, true, false, ◌&&◌, ◌||◌, not, Option, none, some, List, [], ◌∷◌, Text,
  bytes, text_eq, valid_utf8, all, length, ltb, ◌==◌, if◌then◌else◌, is_none, inc64,
}
use shard_zero.Prelude.Dict.{Dict, text_key, get, put, remove, read}

-- Why a command or a snapshot is refused; the source puts it in the text of the error.
pub data Reason : Type 0 where
  not_utf8 bad_client bad_key value_too_long set_expected delete_values unknown_operation : Reason
  bad_snapshot_value bad_snapshot_session : Reason

-- `ErrInvalid` with its reason, `ErrStale`, `ErrReused`
pub data Error : Type 0 where
  invalid : Reason → Error
  stale : Error
  reused : Error

abbrev pub max_value_bytes : ℕ
max_value_bytes = 1048576

pub record Command : Type 0 where
  pub client_id : Text
  pub request_id : ℕ
  pub operation : Text
  pub key : Text
  pub value : Text
  pub expected : Text

pub record Result : Type 0 where
  pub value : Text
  pub found : Bool
  pub applied : Bool
  pub conflict : Bool

-- `Result{}`
abbrev pub no_result : Result
no_result = record { value = []; found = false; applied = false; conflict = false }

-- `session`, and `Session` in a snapshot
pub record Session : Type 0 where
  pub command : Command
  pub result : Result

pub record Snapshot : Type 0 where
  pub values : Dict Text Text
  pub sessions : Dict Text Session
  pub count : ℕ

pub record Machine : Type 0 where
  pub values : Dict Text Text
  pub sessions : Dict Text Session
  pub count : ℕ

abbrev pub new : Machine
new = record { values = []; sessions = []; count = 0 }

-- the `switch` of `Validate`
validate_operation : Command → Option Error
validate_operation c =
    if text_eq c.operation (bytes "SET")
    then (if text_eq c.expected [] then none else some (invalid set_expected))
    else if text_eq c.operation (bytes "DELETE")
    then (if not (text_eq c.value []) || not (text_eq c.expected [])
        then some (invalid delete_values)
        else none)
    else if text_eq c.operation (bytes "CAS")
    then none
    else some (invalid unknown_operation)

unfoldable pub validate : Command → Option Error
unfolding validate_operation
validate c =
    if not (all valid_utf8 (c.client_id ∷ c.key ∷ c.value ∷ c.expected ∷ []))
    then some (invalid not_utf8)
    else if text_eq c.client_id [] || ltb 128 (length c.client_id) || c.request_id == 0
    then some (invalid bad_client)
    else if text_eq c.key [] || ltb 1024 (length c.key)
    then some (invalid bad_key)
    else if ltb max_value_bytes (length c.value) || ltb max_value_bytes (length c.expected)
    then some (invalid value_too_long)
    else validate_operation c

-- `==` on two commands
unfoldable pub command_eq : Command → Command → Bool
command_eq a b =
    text_eq a.client_id b.client_id
    && (a.request_id == b.request_id)
    && text_eq a.operation b.operation
    && text_eq a.key b.key
    && text_eq a.value b.value
    && text_eq a.expected b.expected

-- what `check` finds in the client's session
pub check_session : Command → Option Session → Result × Bool × Option Error
unfolding command_eq
check_session c none = (no_result, false, none)
check_session c (some previous) =
    if ltb c.request_id previous.command.request_id
    then (no_result, false, some stale)
    else if c.request_id == previous.command.request_id
    then (if not (command_eq c previous.command)
        then (no_result, false, some reused)
        else (previous.result, true, none))
    else (no_result, false, none)

-- `check` and `Check`
unfoldable pub check : Machine → Command → Result × Bool × Option Error
unfolding check_session
check m c = elim (validate c) [
  | some e ↦ (no_result, false, some e)
  | none ↦ check_session c (get m.sessions c.client_id)
]

-- the `switch` of `Apply`
pub run_command : Dict Text Text → Command → Dict Text Text × Result
run_command values c =
    let value = read values c.key [] in
    let found = not (is_none (get values c.key)) in
    if text_eq c.operation (bytes "SET")
    then (
      put values c.key c.value,
      record { value = c.value; found = true; applied = true; conflict = false },
    )
    else if text_eq c.operation (bytes "DELETE")
    then (
      remove values c.key,
      record { value = value; found = found; applied = found; conflict = false },
    )
    else if text_eq c.operation (bytes "CAS")
    then (if found && text_eq value c.expected
        then (
          put values c.key c.value,
          record { value = c.value; found = true; applied = true; conflict = false },
        )
        else (values, record { value = value; found = found; applied = false; conflict = true }))
    else (values, record { value = value; found = found; applied = false; conflict = false })

-- the rest of `Apply`, after its check
pub commit_command : Machine → Command → Machine × Result × Option Error
unfolding run_command
commit_command m c =
    let (values, result) = run_command m.values c in
    (
      record {
        values = values;
        sessions = put m.sessions c.client_id (record { command = c; result = result });
        count = inc64 m.count;
      },
      result,
      none,
    )

unfoldable pub apply : Machine → Command → Machine × Result × Option Error
unfolding commit_command
apply m c =
    let (result, duplicate, error) = check m c in
    if duplicate || not (is_none error) then (m, result, error) else commit_command m c

-- `Get`: the value and whether it was there
unfoldable pub get_value : Machine → Text → Text × Bool
get_value m key = (read m.values key [], not (is_none (get m.values key)))

unfoldable pub stats : Machine → ℕ × ℕ
stats m = (length m.values, m.count)

-- `for k, v := range m { out[k] = v }`
pub copy_entries : {V : Type 0} → Dict Text V → Dict Text V → Dict Text V
copy_entries out [] = out
copy_entries out ((k, v) ∷ rest) = copy_entries (put out k v) rest

unfoldable pub snapshot : Machine → Snapshot
unfolding copy_entries
snapshot m = record {
  values = copy_entries [] m.values;
  sessions = copy_entries [] m.sessions;
  count = m.count;
}

-- the test on one value of a snapshot, negated
unfoldable pub is_value : Text → Text → Bool
is_value k v = not (
    text_eq k []
    || ltb 1024 (length k)
    || not (valid_utf8 k)
    || not (valid_utf8 v)
    || ltb max_value_bytes (length v))

-- the first loop of `Restore`
pub restore_values : Dict Text Text → Dict Text Text → Option (Dict Text Text)
unfolding is_value
restore_values out [] = some out
restore_values out ((k, v) ∷ rest) =
    let next = restore_values (put out k v) rest in if is_value k v then next else none

-- the test on one session of a snapshot
unfoldable pub session_error : Text → Session → Option Error
session_error id s =
    if not (text_eq id s.command.client_id)
    then some (invalid bad_snapshot_session)
    else validate s.command

-- the second loop of `Restore`: the sessions, or the error that ends it
pub restore_sessions : Dict Text Session → Dict Text Session → Dict Text Session × Option Error
unfolding session_error
restore_sessions out [] = (out, none)
restore_sessions out ((id, s) ∷ rest) =
    let next = restore_sessions (put out id s) rest in
    elim (session_error id s) [ none ↦ next | some e ↦ (out, some e) ]

unfoldable pub restore : Machine → Snapshot → Machine × Option Error
unfolding restore_values restore_sessions
restore m s = elim (restore_values [] s.values) [
  | none ↦ (m, some (invalid bad_snapshot_value))
  | some values ↦
      let (sessions, error) = restore_sessions [] s.sessions in
      if is_none error
      then (record { values = values; sessions = sessions; count = s.count }, none)
      else (m, error)
]
