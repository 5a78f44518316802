-- ===== src/Api/Serving.antt =====
-- internal/api/http.go and internal/database/database.go: what is written is read.
use shard_zero.Prelude.{
  ◌≡◌, inl, inr, ◌≢◌, refl, ap, ◌∙◌, ℕ, Bool, true, false, ◌||◌, none, some, arith, Text, bytes,
  text_eq, text_eq_refl, text_eq_iff, length, ltb, Bool-cases, Option,
}
use shard_zero.Prelude.Dict.{get, text_key}
use shard_zero.StateMachine
use shard_zero.StateMachine.{Command, Machine, validate, check, apply, get_value, no_result}
use shard_zero.StateMachine.Checks.{refused, duplicate, fresh, check_cases}
use shard_zero.StateMachine.Semantics.{
  Operation, set_key, operation_of, after, apply-Performs, get_value_eq,
}
use shard_zero.Database
use shard_zero.Database.{
  Database, CommandLog, get_stored, execute, run_checked, run_written, append_command,
}
use shard_zero.Api.{Response, result_of, handle_error}
use shard_zero.Api.Handlers.{
  WriteRequest, decoded, command_of, write, write_decoded, write_standalone, read_key,
  read_standalone, answer_write, answer_read, handle_database_error,
}

-- After a SET that is new to the machine, its key reads as its value.
set_reads :
    (m : Machine) (c : Command)
    → c.operation ≡ bytes "SET"
    → check m c ≡ (no_result, false, none)
    → get_value (apply m c).0 c.key ≡ (c.value, true)
unfolding operation_of after
set_reads m c set new =
    let (op, named, performs, _) = apply-Performs m c new in
    let same : op ≡ set_key c.key c.value =
      ground (arith, named, (text_eq_iff c.operation (bytes "SET")).1 set) in
    let stored : get (apply m c).0.values c.key ≡ some c.value =
      performs.contents c.key
      ∙ ap (λ (o : Operation). after o (get m.values) c.key) same
      ∙ ground (arith, text_eq_refl c.key) in
    get_value_eq (apply m c).0 c.key ∙ rw stored

new-validate :
    (m : Machine) (c : Command) → check m c ≡ (no_result, false, none) → validate c ≡ none
new-validate m c new = elim (check_cases m c) [
  | refused e k ↦ cc (k, new)
  | duplicate s v g e k ↦ v
  | fresh v newer k ↦ v
]

key_fits : (c : Command) → validate c ≡ none → ltb 1024 (length c.key) ≡ false
unfolding validate
key_fits c v = ground arith

written_reads :
    (d : Database) (c : Command) (p : CommandLog × Bool)
    → (d.closed || d.broken) ≡ false
    → get_value (apply d.machine c).0 c.key ≡ (c.value, true)
    → (run_written d c p).2 ≡ none
    → get_stored (run_written d c p).0 c.key ≡ ((c.value, true), none)
unfolding run_written get_stored
written_reads d c (w, true) up value ok = rw up (rw value refl)
written_reads d c (w, false) up value ok = cc ok

execute_reads :
    (d : Database) (c : Command)
    → c.operation ≡ bytes "SET"
    → check d.machine c ≡ (no_result, false, none)
    → (execute d c).2 ≡ none
    → get_stored (execute d c).0 c.key ≡ ((c.value, true), none)
unfolding execute run_checked
execute_reads d c set new ok = elim (Bool-cases (d.closed || d.broken)) [
  | inl down ↦ cc (rw down at ok)
  | inr up ↦
      let done_ok = rw (up, new) at ok in
      rw up (
        rw new
          (written_reads d c (append_command d.wal c) up (set_reads d.machine c set new) done_ok))
]

-- The answer to a read of a key that has a value.
abbrev pub found_answer : Text → Response
found_answer value = record {
  status = 200;
  location = none;
  body = result_of (record { value = value; found = true; applied = false; conflict = false });
}

abbrev pub put_request : Text → ℕ → Text → WriteRequest
put_request client id value = record {
  client_id = client;
  request_id = id;
  value = some value;
  expected = none;
}

abbrev pub put_command : Text → Text → ℕ → Text → Command
put_command key client id value = command_of (bytes "SET") key (put_request client id value)

put_executes :
    (d : Database) (key client : Text) (id : ℕ) (value : Text)
    → write_standalone (bytes "SET") key (decoded (put_request client id value)) d ≡ (
      (execute d (put_command key client id value)).0,
      answer_write handle_database_error
          (execute d (put_command key client id value)).1
          (execute d (put_command key client id value)).2,
    )
unfolding write write_decoded text_eq
put_executes d key client id value = refl

-- An error is not answered with 200.
error_is_not_200 : (e : Database.Error) → (handle_database_error e).status ≢ 200
unfolding handle_database_error handle_error
error_is_not_200 Database.unavailable h = omega (arith, h)
error_is_not_200 (Database.refused (StateMachine.invalid reason)) h = omega (arith, h)
error_is_not_200 (Database.refused StateMachine.stale) h = omega (arith, h)
error_is_not_200 (Database.refused StateMachine.reused) h = omega (arith, h)

answered_200 :
    (result : StateMachine.Result) (error : Option Database.Error)
    → (answer_write handle_database_error result error).status ≡ 200
    → error ≡ none
unfolding answer_write
answered_200 result none h = refl
answered_200 result (some e) h = absurd (error_is_not_200 e h)

found_reads :
    (d : Database) (key value : Text)
    → ltb 1024 (length key) ≡ false
    → get_stored d key ≡ ((value, true), none)
    → read_standalone key d ≡ found_answer value
unfolding read_key answer_read
found_reads d key value fits got = rw (fits, read_standalone) (rw got refl)

-- If a PUT to the standalone database of a request that is new to its machine is answered with 200,
-- then a GET of the same key that follows it is answered with 200 and the value that was put.
pub put_get :
    (d : Database) (key client : Text) (id : ℕ) (value : Text)
    → check d.machine (put_command key client id value) ≡ (no_result, false, none)
    → (write_standalone (bytes "SET") key (decoded (put_request client id value)) d).1.status ≡ 200
    → read_standalone key
        (write_standalone (bytes "SET") key (decoded (put_request client id value)) d).0
      ≡ found_answer value
put_get d key client id value new ok =
    let c = put_command key client id value in
    let put = put_executes d key client id value in
    let acknowledged : (execute d c).2 ≡ none =
      answered_200 (execute d c).1 (execute d c).2 (rw put at ok) in
    rw put (
      found_reads (execute d c).0 key value (key_fits c (new-validate d.machine c new))
        (execute_reads d c refl new acknowledged))
