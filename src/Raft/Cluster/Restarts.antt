-- ===== src/Raft/Cluster/Restarts.antt =====
-- internal/raft: a member that starts again from its journal.
use shard_zero.Prelude.{◌≡◌, ◌≢◌, sym, ◌∙◌, subst, [], Text, List}
use shard_zero.Prelude.Dict.{text_key}
use shard_zero.Raft.Store.Recalling.{Remembers, RecallsOn}
use shard_zero.Raft.Node.{Node, follower}
use shard_zero.Raft.Open.Soundness.{open_node-Begins}
use shard_zero.Raft.Open.Beginning.{Begins}
use shard_zero.Raft.Cluster.{Reopens}
use shard_zero.Raft.Cluster.Ballots.{Member}

module _ {ids : List Text} {i : Text} {n m : Node} (again : Reopens n m)
    (was : Member ids i n) where
  begun : Begins n.store.state m
  begun =
      open_node-Begins again.is_origin again.identity again.given again.has_transport again.runtime
        again.wal n.store.state m
        (subst (λ rs. RecallsOn rs n.store.state) (sym again.journal) was.recalls) again.opened

  -- It is a member as before.
  pub Member-Reopens : Member ids i m
  Member-Reopens = record {
    sound = begun.sound;
    named = again.named ∙ was.named;
    size = rw again.members was.size;
    knows = λ j k. rw again.members (was.knows j k);
    recalls = begun.recalls;
  }

  -- It has not gone back to an earlier term, and it has not forgotten a vote.
  pub Remembers-Reopens : Remembers n.store.state m.store.state
  Remembers-Reopens = begun.remembers

  pub role-Reopens : i ≢ [] → m.role ≡ follower
  role-Reopens real = begun.following again.free (λ z. real (sym (again.named ∙ was.named) ∙ z))
