-- ===== src/Api.antt =====
-- internal/api/http.go: the answers to errors, handleRequestError and handleError. The message of an
-- answer is not modelled, nor is the JSON text; the request's URI is an argument.
pub mod Handlers
pub mod Cluster
pub mod Committing
pub mod Admission
pub mod Serving
mod Tests
mod ClusterTests
use shard_zero.Prelude.{ℕ, Option, none, some, List, [], ◌∷◌, ◌++◌, Text, bytes}
use shard_zero.StateMachine
use shard_zero.StateMachine.{invalid, stale, reused}
use shard_zero.Database.{Stats}
use shard_zero.Raft.Client.{Status}
use shard_zero.Raft.Inspect.{Inspection}
use shard_zero.Raft.Node.{NodeError, no_quorum, not_leader, refused}

-- The bodies of `apiError`, of a redirect and of the other answers; `no_body` is that of an answer
-- with a status only, `alive` that of the health check.
pub data Body : Type 0 where
  no_body : Body
  api_error : Text → Body
  leader_at : Text → Text → Body
  result_of : StateMachine.Result → Body
  status_of : Status → Body
  inspection_of : Inspection → Body
  standalone_status : Text → Stats → Body
  alive : Body

pub record Response : Type 0 where
  pub status : ℕ
  pub location : Option Text
  pub body : Body

abbrev pub respond_error : ℕ → Text → Response
respond_error status code = record { status = status; location = none; body = api_error code }

-- `handleError` on an error of the state machine
unfoldable pub handle_error : StateMachine.Error → Response
handle_error (invalid _) = respond_error 400 (bytes "invalid_command")
handle_error stale = respond_error 409 (bytes "stale_request")
handle_error reused = respond_error 409 (bytes "request_id_reused")

-- `handleRequestError` on a node's refusal to lead
pub redirect : Text → Text → Text → Response
redirect uri id [] = respond_error 503 (bytes "leader_unknown")
redirect uri id (x ∷ url) = record {
  status = 307;
  location = some ((x ∷ url) ++ uri);
  body = leader_at id (x ∷ url);
}

unfoldable pub handle_request_error : Text → NodeError → Response
unfolding handle_error redirect
handle_request_error uri (not_leader id url) = redirect uri id url
handle_request_error uri no_quorum = respond_error 503 (bytes "no_quorum")
handle_request_error uri (refused e) = handle_error e
handle_request_error uri _ = respond_error 503 (bytes "storage_unavailable")
