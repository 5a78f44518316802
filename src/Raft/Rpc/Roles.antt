-- ===== src/Raft/Rpc/Roles.antt =====
-- internal/raft/rpc.go: AppendEntries and the answer to it elect nobody.
use shard_zero.Prelude.{
  ℕ, ◌+◌, ◌≡◌, refl, Bool, true, false, not, ◌&&◌, ◌||◌, ◌==◌, Option, none, some, List, [], bytes,
  text_eq, leb, ltb, inl, inr, Bool-cases,
}
use shard_zero.Prelude.Dict.{text_key}
use shard_zero.Raft.Types.{Peer, Entry, AppendRequest, AppendResponse}
use shard_zero.Raft.Node.{
  Node, Message, emit, reset_timer, available, member, is_leader, last_locked, entry_locked,
}
use shard_zero.Raft.Node.Roles.{
  Humble, as_before, Humble-refl, Humble-trans, Humble-if, emit-Humble, persist-Humble,
  step_down-Humble,
}
use shard_zero.Raft.Replication.Roles.{queue_append-Humble}
use shard_zero.Raft.Commit.Roles.{apply_locked-Humble, advance_commit-Humble, maybe_snapshot-Humble}
use shard_zero.Raft.Rpc.{
  Scan, scan_entries, nothing_new, new_from, scan_error, append_answer, note_repair, store_entries,
  next_commit, store_scan, match_log, follow_leader, answer_leader, append_entries, weigh_append,
  note_response, accept_success, accept_refusal, accept_append, free_peer, deliver_request,
  deliver_append,
}

append_answer-Humble :
    (n : Node) (durable : Bool) (req : AppendRequest) → Humble n (append_answer n durable req).0
unfolding append_answer
append_answer-Humble n true req = apply_locked-Humble n
append_answer-Humble n false req = Humble-refl n

note_repair-Humble : (n : Node) (req : AppendRequest) (from : ℕ) → Humble n (note_repair n req from)
unfolding note_repair
note_repair-Humble n req from =
    Humble-if _ (emit-Humble n (bytes "LOG_REPAIRED") from req.leader_id req.message_id)
      (Humble-refl n)

-- The term that is stored is the one that the node had before the event.
term-note_repair :
    (n : Node) (req : AppendRequest) (from : ℕ)
    → n.store.state.term ≡ (note_repair n req from).store.state.term
unfolding note_repair
term-note_repair n req from = elim (Bool-cases (not (from == 0) && leb from (last_locked n))) [
  | inl t ↦ rw t refl
  | inr f ↦ rw f refl
]

store_entries-Humble :
    (n : Node) (req : AppendRequest) (from : ℕ) (entries : List Entry)
    → Humble n (store_entries n req from entries).0
unfolding store_entries
store_entries-Humble n req from entries =
    elim (Bool-cases (not (from == 0) && leb from n.store.state.commit)) [
      | inl t ↦ rw t (Humble-refl n)
      | inr f ↦
          rw f
            (elim (Bool-cases
              (not (from == 0) || not (next_commit n.store.state req == n.store.state.commit))) [
                | inl t ↦ rw t (
                    Humble-trans (note_repair-Humble n req from) (
                      Humble-trans
                        (persist-Humble (note_repair n req from) n.store.state.term
                          n.store.state.vote _ from entries (term-note_repair n req from))
                        (append_answer-Humble _ _ req)))
                | inr f ↦ rw f (Humble-refl n)
              ])
    ]

store_scan-Humble :
    (n : Node) (req : AppendRequest) (scan : Scan) → Humble n (store_scan n req scan).0
unfolding store_scan
store_scan-Humble n req (scan_error e) = Humble-refl n
store_scan-Humble n req nothing_new = store_entries-Humble n req 0 []
store_scan-Humble n req (new_from from entries) = store_entries-Humble n req from entries

match_log-Humble : (n : Node) (req : AppendRequest) → Humble n (match_log n req).0
unfolding match_log
match_log-Humble n req = elim (Bool-cases (ltb (last_locked n) req.prev_log_index)) [
  | inl t ↦ rw t (Humble-refl n)
  | inr f ↦ rw f (elim (Bool-cases (ltb req.prev_log_index n.store.state.base)) [
    | inl t ↦ rw t (Humble-refl n)
    | inr f ↦
        rw f
          (elim (Bool-cases (not ((entry_locked n req.prev_log_index).term == req.prev_log_term))) [
            | inl t ↦ rw t (Humble-refl n)
            | inr f ↦ rw f (
                store_scan-Humble n req
                  (scan_entries n.store.state req.term (req.prev_log_index + 1) req.entries))
          ])
  ])
]

follow_leader-Humble :
    (n : Node) (durable : Bool) (req : AppendRequest) → Humble n (follow_leader n durable req).0
unfolding follow_leader
follow_leader-Humble n true req =
    Humble-trans (as_before refl refl refl) (match_log-Humble (reset_timer n) req)
follow_leader-Humble n false req = Humble-refl n

answer_leader-Humble : (n : Node) (req : AppendRequest) → Humble n (answer_leader n req).0
unfolding answer_leader
answer_leader-Humble n req = elim (Bool-cases (ltb req.term n.store.state.term)) [
  | inl t ↦ rw t (Humble-refl n)
  | inr f ↦
      rw f (Humble-trans (step_down-Humble n req.term req.leader_id) (follow_leader-Humble _ _ req))
]

pub append_entries-Humble : (n : Node) (req : AppendRequest) → Humble n (append_entries n req).0
unfolding append_entries
append_entries-Humble n req = elim (Bool-cases (not (available n))) [
  | inl t ↦ rw t (Humble-refl n)
  | inr f ↦
      rw f
        (elim (Bool-cases (
          not (member n req.leader_id req.cluster_id)
          || (not (text_eq n.cfg.fixed_leader [])
              && not (text_eq req.leader_id n.cfg.fixed_leader)))) [
                | inl t ↦ rw t (Humble-refl n)
                | inr f ↦ rw f (
                    Humble-trans (as_before refl refl refl) (
                      answer_leader-Humble
                        (emit n (bytes "APPEND_RECEIVED") req.prev_log_index req.leader_id
                          req.message_id)
                        req))
              ])
]

accept_success-Humble :
    (n : Node) (peer : Peer) (req : AppendRequest) → Humble n (accept_success n peer req).0
unfolding accept_success
accept_success-Humble n peer req =
    Humble-trans (as_before refl refl refl)
      (Humble-trans (advance_commit-Humble _) (maybe_snapshot-Humble _))

accept_refusal-Humble :
    (n : Node) (peer : Peer) (req : AppendRequest) (resp : AppendResponse)
    → Humble n (accept_refusal n peer req resp).0
unfolding accept_refusal
accept_refusal-Humble n peer req resp = elim (Bool-cases (leb (req.prev_log_index + 1) 1)) [
  | inl t ↦ rw t (Humble-refl n)
  | inr f ↦ rw f (as_before refl refl refl)
]

weigh_append-Humble :
    (n : Node) (peer : Peer) (req : AppendRequest) (resp : AppendResponse) (failed : Bool)
    → Humble n (weigh_append n peer req resp failed).0
unfolding weigh_append
weigh_append-Humble n peer req resp failed =
    elim (Bool-cases (not failed && ltb n.store.state.term resp.term)) [
      | inl t ↦ rw t (step_down-Humble n resp.term [])
      | inr f ↦
          rw f
            (elim (Bool-cases (
              failed
              || not (is_leader n.role)
              || not (n.store.state.term == req.term)
              || not (resp.term == req.term))) [
                | inl t ↦ rw t (Humble-refl n)
                | inr f ↦ rw f (elim (Bool-cases resp.success) [
                  | inl t ↦ rw t (accept_success-Humble n peer req)
                  | inr f ↦ rw f (accept_refusal-Humble n peer req resp)
                ])
              ])
    ]

note_response-Humble :
    (n : Node) (peer : Peer) (req : AppendRequest) (resp : AppendResponse) (failed : Bool)
    → Humble n (note_response n peer req resp failed)
unfolding note_response
note_response-Humble n peer req resp failed =
    Humble-if failed (emit-Humble n (bytes "RPC_FAILED") 0 peer.id req.message_id)
      (emit-Humble n (bytes "APPEND_RESPONSE") resp.match_index peer.id req.message_id)

pub accept_append-Humble :
    (n : Node) (peer : Peer) (req : AppendRequest) (resp : AppendResponse) (failed : Bool)
    → Humble n (accept_append n peer req resp failed).0
unfolding accept_append
accept_append-Humble n peer req resp failed = elim (Bool-cases (not (available n))) [
  | inl t ↦ rw t (Humble-refl n)
  | inr f ↦ rw f (
      Humble-trans (note_response-Humble n peer req resp failed)
        (weigh_append-Humble _ peer req resp failed))
]

deliver_request-Humble :
    (n : Node) (m : Message) (o : Option AppendRequest) (resp : AppendResponse) (failed : Bool)
    → Humble n (deliver_request n m o resp failed)
unfolding deliver_request
deliver_request-Humble n m none resp failed = Humble-refl n
deliver_request-Humble n m (some req) resp failed = Humble-trans (as_before refl refl refl) (
    Humble-trans (accept_append-Humble (free_peer n m) _ req resp failed)
      (Humble-if _ (queue_append-Humble _ _) (Humble-refl _)))

pub deliver_append-Humble :
    (n : Node) (m : Message) (resp : AppendResponse) (failed : Bool)
    → Humble n (deliver_append n m resp failed)
unfolding deliver_append
deliver_append-Humble n m resp failed =
    Humble-if _ (Humble-refl n) (deliver_request-Humble n m m.append resp failed)
