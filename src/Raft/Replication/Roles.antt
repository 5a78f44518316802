-- ===== src/Raft/Replication/Roles.antt =====
-- internal/raft/rpc.go: sending entries elects nobody.
use shard_zero.Prelude.{
  ◌≡◌, refl, not, ◌||◌, ◌==◌, some, List, [], ◌∷◌, text_eq, inl, inr, Bool-cases, Option-cases,
  arith,
}
use shard_zero.Prelude.Dict.{text_key, read}
use shard_zero.Raft.Types.{Peer, AppendRequest}
use shard_zero.Raft.Node.{Node, available, is_leader}
use shard_zero.Raft.Node.Roles.{Humble, as_before, Humble-refl, Humble-trans, Humble-if}
use shard_zero.Raft.Replication.{
  prepare_request, prepare_append, started, start_replication, queue_append, queue_all, kick,
}

prepare_append-Humble :
    (n m : Node) (peer : Peer) (req : AppendRequest)
    → prepare_append n peer ≡ some (m, req)
    → (m.role ≡ n.role) × (m.votes ≡ n.votes) × (m.store.state.term ≡ n.store.state.term)
unfolding prepare_append
prepare_append-Humble n m peer req h = elim (Option-cases (prepare_request n peer)) [
  | inl e ↦ ground arith
  | inr (q, e) ↦ (ground arith, ground arith, ground arith)
]

pub start_replication-Humble : (n : Node) (peer : Peer) → Humble n (start_replication n peer).0
unfolding start_replication started
start_replication-Humble n peer = elim (Bool-cases (not (available n) || not (is_leader n.role))) [
  | inl t ↦ rw t (Humble-refl n)
  | inr f ↦ rw f (elim (Option-cases (prepare_append n peer)) [
    | inl e ↦ rw (e, started) (as_before refl refl refl)
    | inr ((m, req), e) ↦
        rw (e, started) (let (r, v, t) = prepare_append-Humble n m peer req e in as_before r v t)
  ])
]

pub queue_append-Humble : (n : Node) (peer : Peer) → Humble n (queue_append n peer)
unfolding queue_append
queue_append-Humble n peer =
    elim (Bool-cases
      (not (read n.busy peer.id 0 == 0) || not (available n) || not (is_leader n.role))) [
        | inl t ↦ rw t (Humble-refl n)
        | inr f ↦ rw f (elim (Option-cases (prepare_append n peer)) [
          | inl e ↦ rw (e, queue_append) (as_before refl refl refl)
          | inr ((m, req), e) ↦
              rw (e, queue_append)
                (let (r, v, t) = prepare_append-Humble n m peer req e in as_before r v t)
        ])
      ]

queue_all-Humble : (n : Node) (peers : List Peer) → Humble n (queue_all n peers)
unfolding queue_all
queue_all-Humble n [] = Humble-refl n
queue_all-Humble n (p ∷ peers) = elim (Bool-cases (text_eq p.id n.cfg.id)) [
  | inl e ↦ rw e (queue_all-Humble n peers)
  | inr e ↦
      rw e (Humble-trans (queue_append-Humble n p) (queue_all-Humble (queue_append n p) peers))
]

pub kick-Humble : (n : Node) → Humble n (kick n)
unfolding kick
kick-Humble n =
    Humble-if n.runtime.manual (queue_all-Humble n n.cfg.peers) (as_before refl refl refl)
