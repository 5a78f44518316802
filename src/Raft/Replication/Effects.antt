-- ===== src/Raft/Replication/Effects.antt =====
-- internal/raft/rpc.go and runtime.go: sending changes nothing of the log.
use shard_zero.Prelude.{
  ◌≡◌, refl, Bool, true, false, ◌||◌, not, some, List, [], ◌∷◌, arith, text_eq, Bool-cases,
  Option-cases, inl, inr, ◌==◌,
}
use shard_zero.Prelude.Dict.{read, text_key}
use shard_zero.Raft.Types.{Peer, AppendRequest}
use shard_zero.Raft.Node.{Node, available, is_leader}
use shard_zero.Raft.Node.Effects.{Same-kept, Same-if, Same, Same-refl, Same-trans, Good, Same-Good}
use shard_zero.Raft.Replication.{
  prepare_request, prepare_append, started, start_replication, queue_append, queue_all, kick,
}

Same-prepare_append :
    (n m : Node) (peer : Peer) (req : AppendRequest)
    → prepare_append n peer ≡ some (m, req)
    → Same n m
unfolding prepare_append
Same-prepare_append n m peer req h = elim (Option-cases (prepare_request n peer)) [
  | inl e ↦ ground arith
  | inr (q, e) ↦
      Same-kept (ground arith) (ground arith) (ground arith) (ground arith) (ground arith)
        (ground arith) (ground arith) (ground arith)
]

pub Same-start_replication : (n : Node) (peer : Peer) → Same n (start_replication n peer).0
unfolding start_replication started
Same-start_replication n peer = elim (Bool-cases (not (available n) || not (is_leader n.role))) [
  | inl t ↦ rw t (Same-refl n)
  | inr f ↦ rw f (elim (Option-cases (prepare_append n peer)) [
    | inl e ↦ rw (e, started) (Same-kept refl refl refl refl refl refl refl refl)
    | inr ((m, req), e) ↦ rw (e, started) (Same-prepare_append n m peer req e)
  ])
]

queue_append_cases :
    (n : Node) (peer : Peer) (test : Bool)
    → (not (read n.busy peer.id 0 == 0) || not (available n) || not (is_leader n.role)) ≡ test
    → Same n (queue_append n peer)
unfolding queue_append
queue_append_cases n peer true t = rw t (Same-refl n)
queue_append_cases n peer false t = elim (Option-cases (prepare_append n peer)) [
  | inl e ↦ rw t (rw (e, queue_append) (Same-kept refl refl refl refl refl refl refl refl))
  | inr ((m, req), e) ↦ rw t (
      rw (e, queue_append)
        (Same-trans (Same-prepare_append n m peer req e)
          (Same-kept refl refl refl refl refl refl refl refl)))
]

pub Same-queue_append : (n : Node) (peer : Peer) → Same n (queue_append n peer)
Same-queue_append n peer = queue_append_cases n peer _ refl

Same-queue_all : (n : Node) (peers : List Peer) → Same n (queue_all n peers)
unfolding queue_all
Same-queue_all n [] = Same-refl n
Same-queue_all n (p ∷ peers) = elim (Bool-cases (text_eq p.id n.cfg.id)) [
  | inl e ↦ rw e (Same-queue_all n peers)
  | inr e ↦ rw e (Same-trans (Same-queue_append n p) (Same-queue_all (queue_append n p) peers))
]

pub Same-kick : (n : Node) → Same n (kick n)
unfolding kick
Same-kick n =
    Same-if n.runtime.manual (Same-queue_all n n.cfg.peers)
      (Same-kept refl refl refl refl refl refl refl refl)

pub kick-Good : (n : Node) → Good n (kick n)
kick-Good n = Same-Good (Same-kick n)
