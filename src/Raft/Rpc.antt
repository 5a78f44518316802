-- ===== src/Raft/Rpc.antt =====
-- internal/raft/rpc.go and runtime.go: AppendEntries on both sides.
pub mod Effects
pub mod Roles
pub mod Scanning
pub mod Matching
pub mod Conflicts
use shard_zero.Prelude.{
  ℕ, zero, suc, ◌+◌, ◌-◌, min, max, Bool, true, false, ◌&&◌, ◌||◌, not, Option, none, some, List,
  [], ◌∷◌, bytes, text_eq, length, ltb, leb, ◌==◌, if◌then◌else◌, is_none,
}
use shard_zero.Prelude.Dict.{text_key, put, remove, read}
use shard_zero.Raft.Types.{Peer, Entry, AppendRequest, AppendResponse, entry_eq}
use shard_zero.Raft.Store.{Durable, entry_at, last_index}
use shard_zero.Raft.Node.{
  Node, Message, NodeError, unavailable, unknown_leader, malformed_entry, conflicting_entry,
  overwrites_committed, available, member, is_leader, no_peer, last_locked, entry_locked, emit,
  reset_timer, persist, step_down,
}
use shard_zero.Raft.Replication.{queue_append}
use shard_zero.Raft.Commit.{apply_locked, advance_commit, maybe_snapshot}

-- The answer of every branch but success.
abbrev pub refusal : Node → AppendResponse
refusal n = record {
  term = n.store.state.term;
  success = false;
  match_index = 0;
  conflict_index = last_locked n + 1;
}

-- The loop that goes back over the entries of one term: `base + distance` is where it has come to.
unfoldable pub conflict_from : Durable → ℕ → ℕ → ℕ
conflict_from s term zero = s.base
conflict_from s term (suc distance) =
    let rest = conflict_from s term distance in
    if (entry_at s (s.base + distance)).term == term then rest else s.base + suc distance

-- What the loop over the request's entries finds: the first entry that the log lacks, or an error.
pub data Scan : Type 0 where
  nothing_new : Scan
  new_from : ℕ → List Entry → Scan
  scan_error : NodeError → Scan

unfoldable pub scan_entries : Durable → ℕ → ℕ → List Entry → Scan
scan_entries s term index [] = nothing_new
scan_entries s term index (e ∷ es) =
    let rest = scan_entries s term (index + 1) es in
    if not (e.index == index) || ltb term e.term || e.term == 0
    then scan_error malformed_entry
    else if leb e.index s.base
    then rest
    else if ltb (last_index s) e.index || not ((entry_at s e.index).term == e.term)
    then new_from e.index (e ∷ es)
    else if not (entry_eq e (entry_at s e.index))
    then scan_error conflicting_entry
    else rest

-- The commit index that a request leads to.
unfoldable pub next_commit : Durable → AppendRequest → ℕ
next_commit s req =
    if ltb s.commit req.leader_commit
    then max (min req.leader_commit (req.prev_log_index + length req.entries)) s.commit
    else s.commit

abbrev success_reply : Node → AppendRequest → AppendResponse
success_reply n req = record {
  term = n.store.state.term;
  success = true;
  match_index = req.prev_log_index + length req.entries;
  conflict_index = 0;
}

abbrev pub AppendAnswer : Type 0
AppendAnswer = Node × AppendResponse × Option NodeError

-- the end of `AppendEntries`, once the entries are durable or could not be stored
unfoldable pub append_answer : Node → Bool → AppendRequest → AppendAnswer
append_answer n durable req =
    if durable
    then (let n = apply_locked n in (n, success_reply n req, none))
    else (n, refusal n, some unavailable)

unfoldable pub note_repair : Node → AppendRequest → ℕ → Node
unfolding emit
note_repair n req from =
    if not (from == 0) && leb from (last_locked n)
    then emit n (bytes "LOG_REPAIRED") from req.leader_id req.message_id
    else n

-- the last part of `AppendEntries`: `from` is 0 if there is nothing new
unfoldable pub store_entries : Node → AppendRequest → ℕ → List Entry → AppendAnswer
unfolding next_commit note_repair append_answer
store_entries n req from entries =
    let s = n.store.state in
    let commit = next_commit s req in
    if not (from == 0) && leb from s.commit
    then (n, refusal n, some overwrites_committed)
    else if not (from == 0) || not (commit == s.commit)
    then (let (n, durable) = persist (note_repair n req from) s.term s.vote commit from entries in
        append_answer n durable req)
    else (n, success_reply n req, none)

-- `AppendEntries` after its loop
unfoldable pub store_scan : Node → AppendRequest → Scan → AppendAnswer
unfolding store_entries
store_scan n req (scan_error e) = (n, refusal n, some e)
store_scan n req nothing_new = store_entries n req 0 []
store_scan n req (new_from from entries) = store_entries n req from entries

-- the middle part of `AppendEntries`, once the leader is known
unfoldable pub match_log : Node → AppendRequest → AppendAnswer
unfolding store_scan scan_entries conflict_from
match_log n req =
    let s = n.store.state in
    let prev = req.prev_log_index in
    if ltb (last_locked n) prev
    then (n, refusal n, none)
    else if ltb prev s.base
    then (n, record (refusal n) { conflict_index = s.base + 1 }, none)
    else if not ((entry_locked n prev).term == req.prev_log_term)
    then (
      n,
      record (refusal n) {
        conflict_index = conflict_from s (entry_locked n prev).term (prev - s.base);
      },
      none,
    )
    else store_scan n req (scan_entries s req.term (prev + 1) req.entries)

-- `AppendEntries` after the call of `stepDownLocked`
unfoldable pub follow_leader : Node → Bool → AppendRequest → AppendAnswer
unfolding reset_timer match_log
follow_leader n durable req =
    if durable then match_log (reset_timer n) req else (n, refusal n, some unavailable)

-- `AppendEntries` of a known leader
unfoldable pub answer_leader : Node → AppendRequest → AppendAnswer
unfolding follow_leader
answer_leader n req =
    if ltb req.term n.store.state.term
    then (n, refusal n, none)
    else (let (n, durable) = step_down n req.term req.leader_id in follow_leader n durable req)

-- `AppendEntries`
unfoldable pub append_entries : Node → AppendRequest → AppendAnswer
unfolding available member emit answer_leader
append_entries n req =
    if not (available n)
    then (n, refusal n, some unavailable)
    else if not (member n req.leader_id req.cluster_id)
        || (not (text_eq n.cfg.fixed_leader []) && not (text_eq req.leader_id n.cfg.fixed_leader))
    then (n, refusal n, some unknown_leader)
    else answer_leader
        (emit n (bytes "APPEND_RECEIVED") req.prev_log_index req.leader_id req.message_id) req

-- `acceptAppendLocked` on a success
unfoldable pub accept_success : Node → Peer → AppendRequest → Node × Bool
accept_success n peer req =
    let matched = req.prev_log_index + length req.entries in
    let best = max (read n.match peer.id 0) matched in
    let n = record n { match = put n.match peer.id best; next = put n.next peer.id (best + 1) } in
    let n = maybe_snapshot (advance_commit n) in (n, leb (read n.next peer.id 0) (last_locked n))

-- `acceptAppendLocked` on a refusal
unfoldable pub accept_refusal : Node → Peer → AppendRequest → AppendResponse → Node × Bool
accept_refusal n peer req resp =
    let next = req.prev_log_index + 1 in
    if leb next 1
    then (n, false)
    else (record n { next = put n.next peer.id (max 1 (min (next - 1) resp.conflict_index)) }, true)

-- `acceptAppendLocked` after it has noted the response
unfoldable pub weigh_append : Node → Peer → AppendRequest → AppendResponse → Bool → Node × Bool
unfolding accept_success accept_refusal
weigh_append n peer req resp failed =
    if not failed && ltb n.store.state.term resp.term
    then ((step_down n resp.term []).0, false)
    else if failed
        || not (is_leader n.role)
        || not (n.store.state.term == req.term)
        || not (resp.term == req.term)
    then (n, false)
    else if resp.success
    then accept_success n peer req
    else accept_refusal n peer req resp

unfoldable pub note_response : Node → Peer → AppendRequest → AppendResponse → Bool → Node
unfolding emit
note_response n peer req resp failed =
    if failed
    then emit n (bytes "RPC_FAILED") 0 peer.id req.message_id
    else emit n (bytes "APPEND_RESPONSE") resp.match_index peer.id req.message_id

-- `acceptAppendLocked`: whether the leader has more to send. `failed` says that the call returned an
-- error.
unfoldable pub accept_append : Node → Peer → AppendRequest → AppendResponse → Bool → Node × Bool
unfolding available note_response weigh_append
accept_append n peer req resp failed =
    if not (available n)
    then (n, false)
    else weigh_append (note_response n peer req resp failed) peer req resp failed

abbrev pub free_peer : Node → Message → Node
free_peer n m = record n { busy = remove n.busy m.to }

pub deliver_request : Node → Message → Option AppendRequest → AppendResponse → Bool → Node
deliver_request n m none resp failed = n
deliver_request n m (some req) resp failed =
    let peer = read n.peers m.to no_peer in
    let (n, more) = accept_append (free_peer n m) peer req resp failed in
    if more then queue_append n peer else n

-- `DeliverAppend`
unfoldable pub deliver_append : Node → Message → AppendResponse → Bool → Node
unfolding deliver_request
deliver_append n m resp failed =
    if is_none m.append || not (read n.busy m.to 0 == m.sequence)
    then n
    else deliver_request n m m.append resp failed
