-- ===== src/Raft/Steps/Safety.antt =====
-- internal/raft: what holds of a node after any run of its handlers.
use shard_zero.Prelude.{sym, ap, ◌∙◌, ◌<◌, ◌≡◌, ◌≢◌, ◌≤◌, ℕ, refl, []}
use shard_zero.Raft.Commit.Replay.{replayed, replayed_same}
use shard_zero.Raft.Store.{entry_at}
use shard_zero.Raft.Node.{Node}
use shard_zero.Raft.Node.Effects.{Same-kept, Good, Good-trans, Good-refl, Same-Good, IsSound}
use shard_zero.Raft.Election.Effects.{request_vote-Good, vote_response-Good}
use shard_zero.Raft.Rpc.Effects.{append_entries-Good, accept_append-Good, deliver_append-Good}
use shard_zero.Raft.Replication.Effects.{Same-start_replication}
use shard_zero.Raft.Client.Effects.{
  submit-Good, execute-Good, get_key-Good, poll-Same, cancel-Good, tick-Good, drain_messages-Same,
  deliver_vote-Good, set_paused-Good, close-Good,
}
use shard_zero.Raft.Steps.{
  Step, clock, ticked, submitted, executed, got, polled, cancelled, drained, voted, appended,
  vote_answered, append_answered, sending, append_called, vote_called, paused, closed, Reaches,
  here, step,
}

pub Step-Good : {n m : Node} → Step n m → Good n m
Step-Good (clock n now) = Same-Good (Same-kept refl refl refl refl refl refl refl refl)
Step-Good (ticked n) = tick-Good n
Step-Good (submitted n command read_key) = submit-Good n command read_key
Step-Good (executed n c) = execute-Good n c
Step-Good (got n key) = get_key-Good n key
Step-Good (polled n t) = Same-Good (poll-Same n t)
Step-Good (cancelled n t) = cancel-Good n t
Step-Good (drained n) = Same-Good (drain_messages-Same n)
Step-Good (voted n req) = request_vote-Good n req
Step-Good (appended n req) = append_entries-Good n req
Step-Good (vote_answered n m resp error) = deliver_vote-Good n m resp error
Step-Good (append_answered n m resp error) = deliver_append-Good n m resp error
Step-Good (sending n peer) = Same-Good (Same-start_replication n peer)
Step-Good (append_called n peer req resp error) = accept_append-Good n peer req resp error
Step-Good (vote_called n peer req resp error) = vote_response-Good n peer req resp error
Step-Good (paused n value) = set_paused-Good n value
Step-Good (closed n) = close-Good n

pub Reaches-Good : {n m : Node} → Reaches n m → Good n m
Reaches-Good (here n) = Good-refl n
Reaches-Good (step r s) = Good-trans (Reaches-Good r) (Step-Good s)

-- Whatever requests, answers, ticks, proposals, pauses and disk failures a sound node goes through,
-- driven by hand or by its goroutines, it is sound afterwards: the indexes of its log follow one another from the base, the terms of the
-- log do not decrease and are not above its own, the commit index is inside the log, exactly the
-- committed entries have been applied, and the state machine is well formed and is what the snapshot
-- and the applied entries give.
pub reached-IsSound : (n m : Node) → Reaches n m → IsSound n → IsSound m
reached-IsSound n m r s = (Reaches-Good r s).1

-- No run of a sound node takes its term, its commit index, its base or what it has applied back.
pub reached_order :
    (n m : Node)
    → Reaches n m
    → IsSound n
    → (n.store.state.term ≤ m.store.state.term)
      × (n.store.state.commit ≤ m.store.state.commit)
      × (n.store.state.base ≤ m.store.state.base)
      × (n.applied ≤ m.applied)
reached_order n m r s =
    let (x, _) = Reaches-Good r s in
    (x.state.term_up, x.state.commit_up, x.state.base_up, x.applied)

-- A sound node votes once in a term: while its term is the same, a vote that it has given is the
-- vote that it has, whatever it is asked.
pub one_vote_a_term :
    (n m : Node)
    → Reaches n m
    → IsSound n
    → n.store.state.vote ≢ []
    → m.store.state.term ≡ n.store.state.term
    → m.store.state.vote ≡ n.store.state.vote
one_vote_a_term n m r s given same = (Reaches-Good r s).0.state.one_vote same given

-- An entry that a sound node has committed is in its log for ever, unless a snapshot has replaced it.
pub committed_entries_stay :
    (n m : Node)
    → Reaches n m
    → IsSound n
    → (index : ℕ) → m.store.state.base ≤ index
    → index ≤ n.store.state.commit
    → entry_at m.store.state index ≡ entry_at n.store.state index
committed_entries_stay n m r s index lo hi = (Reaches-Good r s).0.state.committed_kept index lo hi

-- State machine safety: two nodes, each after any run from a sound node, whose bases, snapshots and
-- applied indexes are the same and whose logs agree on the entries from the base to that index, have
-- the same state machine.
pub same_logs_same_machines :
    (n m n' m' : Node)
    → Reaches n n'
    → Reaches m m'
    → IsSound n
    → IsSound m
    → m'.store.state.base ≡ n'.store.state.base
    → m'.store.snapshot ≡ n'.store.snapshot
    → m'.applied ≡ n'.applied
    → ((i : ℕ)
        → n'.store.state.base < i
        → i ≤ n'.applied
        → entry_at m'.store.state i ≡ entry_at n'.store.state i)
    → m'.machine ≡ n'.machine
same_logs_same_machines n m n' m' r q s t base snap applied agree =
    let mine = (Reaches-Good r s).1.ready in
    let theirs = (Reaches-Good q t).1.ready in
    theirs.replayed
    ∙ ap (λ k. replayed m'.store k) applied
    ∙ replayed_same n'.store m'.store n'.applied mine.above_base snap base agree
    ∙ sym mine.replayed
