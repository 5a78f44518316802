-- ===== src/Api/Cluster.antt =====
-- internal/api/http.go, ClusterHandler: the answers of a node of a cluster. What `Execute` and `Get` do
-- is an argument, of which Raft/Proposing says what it may be.
use shard_zero.Prelude.{ℕ, Option, none, some, Text, Bool}
use shard_zero.StateMachine
use shard_zero.StateMachine.{Command, Machine}
use shard_zero.Raft.Types.{Entry}
use shard_zero.Raft.Node.{Node, NodeError}
use shard_zero.Raft.Client.{status}
use shard_zero.Raft.Inspect.{Inspection, inspect}
use shard_zero.Raft.Proposing.{Executes, Gets}
use shard_zero.Api.{Response, status_of, inspection_of, handle_request_error}
use shard_zero.Api.Handlers.{Decoded, write, read_key}

abbrev pub Execute : Type 0
Execute = Node → Command → Node × StateMachine.Result × Option NodeError

abbrev pub Get : Type 0
Get = Node → Text → Node × (Text × Bool) × Option NodeError

-- The functions do what `Execute` and `Get` may do.
abbrev pub IsExecute : Execute → Type 0
IsExecute execute =
    (n : Node) (c : Command) → Executes n c (execute n c).0 ((execute n c).1, (execute n c).2)

abbrev pub IsGet : Get → Type 0
IsGet get = (n : Node) (key : Text) → Gets n key (get n key).0 ((get n key).1, (get n key).2)

-- The writes, whose route gives the operation and the key.
abbrev pub write_cluster : Execute → Text → Text → Text → Decoded → Node → Node × Response
write_cluster execute uri = write (handle_request_error uri) execute

abbrev pub read_cluster : Get → Text → Text → Node → Node × Response
read_cluster get uri = read_key (handle_request_error uri) get

-- `GET /v1/status`
abbrev pub status_cluster : Node → Response
status_cluster n = record { status = 200; location = none; body = status_of (status n) }

inspected : Option Inspection → Option Response
inspected none = none
inspected (some i) = some (record { status = 200; location = none; body = inspection_of i })

-- `GET /v1/inspect`, which gives no answer where Inspect does not return
module _ (entry_hash : Entry → Text) (digest : Machine → Text) where
  unfoldable pub inspect_cluster : ℕ → Node → Option Response
  unfolding inspected
  inspect_cluster after n = inspected (inspect entry_hash digest n after)
