-- ===== src/Api/Handlers.antt =====
-- internal/api/http.go: the handlers of reads and writes, of the standalone database and of the
-- administrator. The routes are those of net/http; a request comes with the key or path that its
-- route gives, and a body as encoding/json decodes it.
use shard_zero.Prelude.{
  ℕ, Bool, true, false, ◌&&◌, ◌||◌, not, Option, none, some, [], Text, bytes, text_eq, length, ltb,
  if◌then◌else◌, is_none,
}
use shard_zero.StateMachine
use shard_zero.StateMachine.{Command}
use shard_zero.Database
use shard_zero.Database.{Database, get_stored, database_stats}
use shard_zero.Raft.Node.{Node}
use shard_zero.Raft.Client.{set_paused, status}
use shard_zero.Api.{
  Response, no_body, result_of, status_of, standalone_status, alive, respond_error, handle_error,
}

-- `writeRequest`; a field that is absent or null is none.
pub record WriteRequest : Type 0 where
  pub client_id : Text
  pub request_id : ℕ
  pub value : Option Text
  pub expected : Option Text

-- What the decoder makes of a body: no command, more after the command, or the command alone.
pub data Decoded : Type 0 where
  malformed trailing : Decoded
  decoded : WriteRequest → Decoded

abbrev pub misses_field : Text → WriteRequest → Bool
misses_field operation body =
    ((text_eq operation (bytes "SET") || text_eq operation (bytes "CAS")) && is_none body.value)
    || (text_eq operation (bytes "CAS") && is_none body.expected)

abbrev pub has_extra_field : Text → WriteRequest → Bool
has_extra_field operation body =
    (text_eq operation (bytes "DELETE")
      && (not (is_none body.value) || not (is_none body.expected)))
    || (text_eq operation (bytes "SET") && not (is_none body.expected))

abbrev pub given : Option Text → Text
given none = []
given (some text) = text

abbrev pub command_of : Text → Text → WriteRequest → Command
command_of operation key body = record {
  client_id = body.client_id;
  request_id = body.request_id;
  operation = operation;
  key = key;
  value = given body.value;
  expected = given body.expected;
}

-- The handlers take what they call as arguments, as `handler` does; `refuse` is
-- `handleRequestError` on the errors of the calls.
module _ {E : Type 0} (refuse : E → Response) where
  unfoldable pub answer_write : StateMachine.Result → Option E → Response
  answer_write result (some e) = refuse e
  answer_write result none = record {
    status = if result.conflict then 409 else 200;
    location = none;
    body = result_of result;
  }

  unfoldable pub answer_read : Text × Bool → Option E → Response
  answer_read (value, found) (some e) = refuse e
  answer_read (value, found) none = record {
    status = if found then 200 else 404;
    location = none;
    body = result_of (record { value = value; found = found; applied = false; conflict = false });
  }

  module _ {S : Type 0} (execute : S → Command → S × StateMachine.Result × Option E) where
    -- the handler of a write once the body is decoded
    unfoldable pub write_decoded : Text → Text → WriteRequest → S → S × Response
    unfolding answer_write
    write_decoded operation key body s =
        if misses_field operation body
        then (s, respond_error 400 (bytes "invalid_command"))
        else if has_extra_field operation body
        then (s, respond_error 400 (bytes "invalid_command"))
        else (let (s, result, error) = execute s (command_of operation key body) in
            (s, answer_write result error))

    -- `write(operation)`
    unfoldable pub write : Text → Text → Decoded → S → S × Response
    unfolding write_decoded
    write operation key malformed s = (s, respond_error 400 (bytes "invalid_json"))
    write operation key trailing s = (s, respond_error 400 (bytes "invalid_json"))
    write operation key (decoded body) s = write_decoded operation key body s

  -- the handler of `GET /v1/kv/{key}`
  unfoldable pub read_key :
      {S : Type 0} → (S → Text → S × (Text × Bool) × Option E) → Text → S → S × Response
  unfolding answer_read
  read_key get_key key s =
      if ltb 1024 (length key)
      then (s, respond_error 400 (bytes "invalid_key"))
      else (let (s, found, error) = get_key s key in (s, answer_read found error))

-- `handleRequestError` on an error of the database
unfoldable pub handle_database_error : Database.Error → Response
unfolding handle_error
handle_database_error Database.unavailable = respond_error 503 (bytes "storage_unavailable")
handle_database_error (Database.refused e) = handle_error e

-- `Handler`: the writes and reads of the standalone database.
abbrev pub write_standalone : Text → Text → Decoded → Database → Database × Response
write_standalone = write handle_database_error Database.execute

abbrev pub read_standalone : Text → Database → Response
read_standalone key d =
    (read_key handle_database_error (λ d k. (d, (get_stored d k).0, (get_stored d k).1)) key d).1

-- `GET /health`
abbrev pub health : Response
health = record { status = 200; location = none; body = alive }

-- `GET /v1/status`
abbrev pub status_standalone : Text → Database → Response
status_standalone id d = record {
  status = 200;
  location = none;
  body = standalone_status id (database_stats d);
}

pub record AdminRequest : Type 0 where
  pub token : Text
  pub method : Text
  pub path : Text

abbrev pub status_only : ℕ → Response
status_only code = record { status = code; location = none; body = no_body }

abbrev pub paused_answer : Node → Bool → Node × Response
paused_answer n paused =
    let n = set_paused n paused in
    (n, record { status = 200; location = none; body = status_of (status n) })

-- `AdminHandler`
unfoldable pub admin : Text → AdminRequest → Node → Node × Response
admin token r n =
    if text_eq token [] || not (text_eq r.token token)
    then (n, respond_error 403 (bytes "forbidden"))
    else if not (text_eq r.method (bytes "POST"))
    then (n, status_only 405)
    else if text_eq r.path (bytes "/admin/pause")
    then paused_answer n true
    else if text_eq r.path (bytes "/admin/resume")
    then paused_answer n false
    else (n, status_only 404)
