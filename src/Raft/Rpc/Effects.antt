-- ===== src/Raft/Rpc/Effects.antt =====
-- internal/raft/rpc.go: AppendEntries keeps a node sound, on both sides.
use shard_zero.Prelude.{
  ℕ, ◌+◌, ◌≡◌, refl, Bool, true, false, ◌&&◌, ◌||◌, not, Option, none, some, List, [], bytes,
  text_eq, leb, ltb, ◌==◌, Bool-cases, inl, inr, Text,
}
use shard_zero.Prelude.Dict.{text_key}
use shard_zero.Raft.Types.{Peer, Entry, AppendRequest, AppendResponse}
use shard_zero.Raft.Node.{
  Node, Message, available, emit, reset_timer, persist, member, is_leader, last_locked,
  entry_locked,
}
use shard_zero.Raft.Node.Effects.{
  Same-kept, Good, Good-trans, Good-refl, Good-if, Same, Same-refl, Same-if, Same-emit,
  Same-reset_timer, Same-Good, Evolves, Evolves-trans, IsReady, IsSound,
}
use shard_zero.Raft.Node.Persisting.{Spares, persist-Evolves, persist-IsReady, unstored-IsSound}
use shard_zero.Raft.Node.Stepping.{step_down-Good, pending-step_down}
use shard_zero.Raft.Replication.Effects.{Same-queue_append}
use shard_zero.Raft.Commit.Effects.{apply_locked-IsSound, advance_commit-Good}
use shard_zero.Raft.Commit.Compacting.{maybe_snapshot-Good}
use shard_zero.Raft.Rpc.{
  Scan, scan_entries, nothing_new, new_from, scan_error, append_answer, note_repair, store_entries,
  next_commit, store_scan, match_log, follow_leader, answer_leader, append_entries, weigh_append,
  note_response, accept_success, accept_refusal, accept_append, free_peer, deliver_request,
  deliver_append,
}

append_answer-IsSound :
    (n m : Node) (durable : Bool) (req : AppendRequest)
    → Evolves n m × IsReady m
    → (durable ≡ false → IsSound m)
    → Evolves n (append_answer m durable req).0 × IsSound (append_answer m durable req).0
unfolding append_answer
append_answer-IsSound n m true req (x, r) kept =
    let (y, s) = apply_locked-IsSound m r in (Evolves-trans x y, s)
append_answer-IsSound n m false req (x, r) kept = (x, kept refl)

pub Same-note_repair : (n : Node) (req : AppendRequest) (from : ℕ) → Same n (note_repair n req from)
unfolding note_repair
Same-note_repair n req from =
    Same-if _ (Same-emit n (bytes "LOG_REPAIRED") from req.leader_id req.message_id) (Same-refl n)

Spares-note_repair :
    (n : Node) (req : AppendRequest) (from : ℕ)
    → Spares n from
    → Spares (note_repair n req from) from
unfolding note_repair emit
Spares-note_repair n req from spare =
    elim (Bool-cases (not (from == 0) && leb from (last_locked n))) [
      | inl t ↦ rw t spare
      | inr f ↦ rw f spare
    ]

store_noted-Good :
    (n : Node) (req : AppendRequest) (term commit from : ℕ) (vote : Text) (entries : List Entry)
    → Spares n from
    → Good n
        (append_answer
          (persist n term vote commit from entries).0
          (persist n term vote commit from entries).1
          req).0
store_noted-Good n req term commit from vote entries spare s =
    append_answer-IsSound n _ _ req
      (
        persist-Evolves n term vote commit from entries s.ready spare,
        persist-IsReady n term vote commit from entries s.ready,
      )
      (unstored-IsSound n term vote commit from entries s)

store_entries-Good :
    (n : Node) (req : AppendRequest) (from : ℕ) (entries : List Entry)
    → Spares n from
    → Good n (store_entries n req from entries).0
unfolding store_entries
store_entries-Good n req from entries spare =
    elim (Bool-cases (not (from == 0) && leb from n.store.state.commit)) [
      | inl t ↦ rw t (Good-refl n)
      | inr f ↦
          rw f
            (elim (Bool-cases
              (not (from == 0) || not (next_commit n.store.state req == n.store.state.commit))) [
                | inl t ↦ rw t (
                    Good-trans (Same-Good (Same-note_repair n req from)) (
                      store_noted-Good (note_repair n req from) req _ _ from _ entries
                        (Spares-note_repair n req from spare)))
                | inr f ↦ rw f (Good-refl n)
              ])
    ]

store_scan-Good :
    (n : Node) (req : AppendRequest) (scan : Scan)
    → n.pending ≡ []
    → Good n (store_scan n req scan).0
unfolding store_scan
store_scan-Good n req (scan_error e) nobody = Good-refl n
store_scan-Good n req nothing_new nobody = store_entries-Good n req 0 [] (inl refl)
store_scan-Good n req (new_from from entries) nobody =
    store_entries-Good n req from entries (inr (inr nobody))

match_log-Good : (n : Node) (req : AppendRequest) → n.pending ≡ [] → Good n (match_log n req).0
unfolding match_log
match_log-Good n req nobody = elim (Bool-cases (ltb (last_locked n) req.prev_log_index)) [
  | inl t ↦ rw t (Good-refl n)
  | inr f ↦ rw f (elim (Bool-cases (ltb req.prev_log_index n.store.state.base)) [
    | inl t ↦ rw t (Good-refl n)
    | inr f ↦
        rw f
          (elim (Bool-cases (not ((entry_locked n req.prev_log_index).term == req.prev_log_term))) [
            | inl t ↦ rw t (Good-refl n)
            | inr f ↦ rw f (
                store_scan-Good n req
                  (scan_entries n.store.state req.term (req.prev_log_index + 1) req.entries) nobody)
          ])
  ])
]

follow_leader-Good :
    (n : Node) (durable : Bool) (req : AppendRequest)
    → (durable ≡ true → n.pending ≡ [])
    → Good n (follow_leader n durable req).0
unfolding follow_leader reset_timer
follow_leader-Good n true req nobody =
    Good-trans (Same-Good (Same-reset_timer n)) (match_log-Good (reset_timer n) req (nobody refl))
follow_leader-Good n false req nobody = Good-refl n

answer_leader-Good : (n : Node) (req : AppendRequest) → Good n (answer_leader n req).0
unfolding answer_leader
answer_leader-Good n req = elim (Bool-cases (ltb req.term n.store.state.term)) [
  | inl t ↦ rw t (Good-refl n)
  | inr f ↦ rw f (
      Good-trans (step_down-Good n req.term req.leader_id)
        (follow_leader-Good _ _ req (pending-step_down n req.term req.leader_id)))
]

-- AppendEntries keeps a node sound, whatever is answered.
pub append_entries-Good : (n : Node) (req : AppendRequest) → Good n (append_entries n req).0
unfolding append_entries
append_entries-Good n req = elim (Bool-cases (not (available n))) [
  | inl t ↦ rw t (Good-refl n)
  | inr f ↦
      rw f
        (elim (Bool-cases (
          not (member n req.leader_id req.cluster_id)
          || (not (text_eq n.cfg.fixed_leader [])
              && not (text_eq req.leader_id n.cfg.fixed_leader)))) [
                | inl t ↦ rw t (Good-refl n)
                | inr f ↦ rw f (
                    Good-trans
                      (Same-Good (
                        Same-emit n (bytes "APPEND_RECEIVED") req.prev_log_index req.leader_id
                          req.message_id))
                      (answer_leader-Good _ req))
              ])
]

accept_success-Good :
    (n : Node) (peer : Peer) (req : AppendRequest) → Good n (accept_success n peer req).0
unfolding accept_success
accept_success-Good n peer req =
    Good-trans (Same-Good (Same-kept refl refl refl refl refl refl refl refl))
      (Good-trans (advance_commit-Good _) (maybe_snapshot-Good _))

accept_refusal-Good :
    (n : Node) (peer : Peer) (req : AppendRequest) (resp : AppendResponse)
    → Good n (accept_refusal n peer req resp).0
unfolding accept_refusal
accept_refusal-Good n peer req resp = elim (Bool-cases (leb (req.prev_log_index + 1) 1)) [
  | inl t ↦ rw t (Good-refl n)
  | inr f ↦ rw f (Same-Good (Same-kept refl refl refl refl refl refl refl refl))
]

weigh_append-Good :
    (n : Node) (peer : Peer) (req : AppendRequest) (resp : AppendResponse) (failed : Bool)
    → Good n (weigh_append n peer req resp failed).0
unfolding weigh_append
weigh_append-Good n peer req resp failed =
    elim (Bool-cases (not failed && ltb n.store.state.term resp.term)) [
      | inl t ↦ rw t (step_down-Good n resp.term [])
      | inr f ↦
          rw f
            (elim (Bool-cases (
              failed
              || not (is_leader n.role)
              || not (n.store.state.term == req.term)
              || not (resp.term == req.term))) [
                | inl t ↦ rw t (Good-refl n)
                | inr f ↦ rw f (elim (Bool-cases resp.success) [
                  | inl t ↦ rw t (accept_success-Good n peer req)
                  | inr f ↦ rw f (accept_refusal-Good n peer req resp)
                ])
              ])
    ]

Same-note_response :
    (n : Node) (peer : Peer) (req : AppendRequest) (resp : AppendResponse) (failed : Bool)
    → Same n (note_response n peer req resp failed)
unfolding note_response
Same-note_response n peer req resp failed =
    Same-if failed (Same-emit n (bytes "RPC_FAILED") 0 peer.id req.message_id)
      (Same-emit n (bytes "APPEND_RESPONSE") resp.match_index peer.id req.message_id)

pub accept_append-Good :
    (n : Node) (peer : Peer) (req : AppendRequest) (resp : AppendResponse) (failed : Bool)
    → Good n (accept_append n peer req resp failed).0
unfolding accept_append
accept_append-Good n peer req resp failed = elim (Bool-cases (not (available n))) [
  | inl t ↦ rw t (Good-refl n)
  | inr f ↦ rw f (
      Good-trans (Same-Good (Same-note_response n peer req resp failed))
        (weigh_append-Good _ peer req resp failed))
]

deliver_request-Good :
    (n : Node) (m : Message) (o : Option AppendRequest) (resp : AppendResponse) (failed : Bool)
    → Good n (deliver_request n m o resp failed)
unfolding deliver_request
deliver_request-Good n m none resp failed = Good-refl n
deliver_request-Good n m (some req) resp failed =
    Good-trans (Same-Good (Same-kept refl refl refl refl refl refl refl refl)) (
      Good-trans (accept_append-Good (free_peer n m) _ req resp failed)
        (Good-if _ (Same-Good (Same-queue_append _ _)) (Good-refl _)))

-- The answer to an AppendEntries keeps a leader sound.
pub deliver_append-Good :
    (n : Node) (m : Message) (resp : AppendResponse) (failed : Bool)
    → Good n (deliver_append n m resp failed)
unfolding deliver_append
deliver_append-Good n m resp failed =
    Good-if _ (Good-refl n) (deliver_request-Good n m m.append resp failed)
