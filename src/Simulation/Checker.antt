-- ===== src/Simulation/Checker.antt =====
-- internal/simulation/simulation.go, check and converged: what the simulator holds against each step.
-- The hash of an entry, its chaining and the hash of a machine (SHA-256) are parameters. The error for
-- a lost prefix does not carry the index.
pub mod Clock
pub mod Consistent
pub mod Remembering
mod Tests
use shard_zero.Prelude.{
  ℕ, zero, suc, ◌+◌, Bool, true, false, ◌&&◌, ◌||◌, not, Option, none, some, List, [], ◌∷◌, ◌++◌,
  Text, bytes, decimal, text_eq, length, get_or, drop, ltb, leb, ◌==◌, is_none, if◌then◌else◌,
}
use shard_zero.Prelude.Dict.{Key, Dict, text_key, nat_key, get, put, read}
use shard_zero.Events
use shard_zero.Events.{Event}
use shard_zero.StateMachine.{Machine}
use shard_zero.Raft.Types.{Entry, no_entry}
use shard_zero.Raft.Node.{Node, is_leader}
use shard_zero.Raft.Client.{Status, status}
use shard_zero.Raft.Inspect.{Audit, audit}

pub record Trace : Type 0 where
  pub at_ms : ℕ
  pub type : Text
  pub node : Text
  pub detail : Text

pub data CheckError : Type 0 where
  not_monotone two_votes two_leaders log_mismatch prefix_changed prefix_lost : CheckError

-- What the runner keeps for its checks; `hashed` is what its hash was given.
pub record Ledger : Type 0 where
  pub now : ℕ
  pub trace : List Trace
  pub hashed : List Trace
  pub leaders : Dict ℕ Text
  pub votes : Dict Text Text
  pub committed : Dict ℕ Text
  pub committed_terms : Dict ℕ ℕ
  pub log_matching : Dict Text Text
  pub previous_commit : List ℕ
  pub previous_applied : List ℕ
  pub event_cursor : List ℕ

-- `xs[i] = x`
unfoldable pub set_at : List ℕ → ℕ → ℕ → List ℕ
set_at [] i x = []
set_at (y ∷ ys) zero x = x ∷ ys
set_at (y ∷ ys) (suc i) x = y ∷ set_at ys i x

-- `record`
unfoldable pub note : Ledger → Text → Text → Text → Ledger
note l type node detail =
    let e : Trace = record { at_ms = l.now; type = type; node = node; detail = detail } in
    record l {
      hashed = l.hashed ++ (e ∷ []);
      trace = if ltb (length l.trace) 600 then l.trace ++ (e ∷ []) else l.trace;
    }

event_detail : Event → Text
event_detail e =
    decimal e.term
    ++ (bytes "/" ++ (decimal e.index ++ (bytes "/" ++ (e.peer ++ (bytes "/" ++ e.message_id)))))

-- the loop over the events of a node
unfoldable pub note_events : Ledger → ℕ → List Event → Ledger
unfolding note event_detail
note_events l i [] = l
note_events l i (e ∷ events) =
    note_events
      (note (record l { event_cursor = set_at l.event_cursor i e.id }) e.kind e.node_id
        (event_detail e))
      i events

abbrev pub Checked : Type 0
Checked = Ledger × Option CheckError

-- An error ends the check.
abbrev pub also : Checked → (Ledger → Checked) → Checked
also (l, some e) f = (l, some e)
also (l, none) f = f l

unfoldable pub check_order : Ledger → ℕ → Status → Checked
check_order l i s =
    if ltb s.commit_index (get_or l.previous_commit i 0)
      || ltb s.last_applied (get_or l.previous_applied i 0)
      || ltb s.commit_index s.last_applied
    then (l, some not_monotone)
    else (
      record l {
        previous_commit = set_at l.previous_commit i s.commit_index;
        previous_applied = set_at l.previous_applied i s.last_applied;
      },
      none,
    )

-- `r.m[k]` unless it is "", when it becomes `v`; false where it is another.
unfoldable pub claim : {K : Type 0} ⦃e : Key K⦄ → Dict K Text → K → Text → Dict K Text × Bool
claim m k v =
    let old = read m k [] in
    if not (text_eq old []) && not (text_eq old v) then (m, false) else (put m k v, true)

unfoldable pub vote_key : Status → Text
vote_key s = s.node_id ++ (bytes "/" ++ decimal s.term)

unfoldable pub check_vote : Ledger → Status → Text → Checked
unfolding vote_key claim
check_vote l s vote =
    let (m, agrees) = claim l.votes (vote_key s) vote in
    if text_eq vote []
    then (l, none)
    else if agrees
    then (record l { votes = m }, none)
    else (l, some two_votes)

unfoldable pub check_leader : Ledger → Status → Checked
unfolding claim
check_leader l s =
    let (m, agrees) = claim l.leaders s.term s.node_id in
    if not (is_leader s.role)
    then (l, none)
    else if agrees
    then (record l { leaders = m }, none)
    else (l, some two_leaders)

-- an entry that is committed
unfoldable pub check_committed : Ledger → Status → Entry → Text → Checked
unfolding claim
check_committed l s e h =
    let (m, agrees) = claim l.committed e.index h in
    let terms =
      if is_none (get l.committed_terms e.index)
      then put l.committed_terms e.index s.term
      else l.committed_terms in
    if ltb s.commit_index e.index
    then (l, none)
    else if agrees
    then (record l { committed = m; committed_terms = terms }, none)
    else (l, some prefix_changed)

-- the other nodes agree with the first
unfoldable pub agree : (Machine → Text) → Text → ℕ → List (Option Node) → Bool
agree digest first index [] = true
agree digest first index (none ∷ nodes) = false
agree digest first index (some n ∷ nodes) =
    let s = status n in
    let rest = agree digest first index nodes in
    s.healthy
    && s.commit_index == s.last_log_index
    && text_eq first (digest n.machine)
    && index == s.last_applied
    && rest

-- `converged`
unfoldable pub converged : (Machine → Text) → List (Option Node) → Bool
unfolding agree
converged digest [] = true
converged digest (none ∷ nodes) = false
converged digest (some n ∷ nodes) =
    let s = status n in
    s.healthy
    && s.commit_index == s.last_log_index
    && agree digest (digest n.machine) s.last_applied nodes

module _ (entry_hash : Entry → Text) (chain_hash : Text → Text) where
  unfoldable pub check_entry : Ledger → Status → Text → Entry → Checked
  unfolding claim check_committed
  check_entry l s prefix e =
      let (m, agrees) =
        claim l.log_matching (decimal e.index ++ (bytes "/" ++ decimal e.term)) prefix in
      if agrees
      then check_committed (record l { log_matching = m }) s e (entry_hash e)
      else (l, some log_mismatch)

  -- the loop over the log
  unfoldable pub check_entries : Ledger → Status → Text → List Entry → Checked
  unfolding check_entry
  check_entries l s prefix [] = (l, none)
  check_entries l s prefix (e ∷ entries) =
      let prefix = chain_hash (prefix ++ entry_hash e) in
      also (check_entry l s prefix e) (λ l'. check_entries l' s prefix entries)

  -- the loop over the committed entries
  unfoldable pub loses : Dict ℕ Text → Dict ℕ ℕ → Status → List Entry → Bool
  loses [] terms s log = false
  loses ((index, h) ∷ committed) terms s log =
      (leb (read terms index 0) s.term
        && (leb (length log) index || not (text_eq (entry_hash (get_or log index no_entry)) h)))
      || loses committed terms s log

  unfoldable pub check_prefix : Ledger → Status → List Entry → Checked
  unfolding loses
  check_prefix l s log =
      if is_leader s.role && loses l.committed l.committed_terms s log
      then (l, some prefix_lost)
      else (l, none)

  -- the body of the loop over the nodes
  unfoldable pub check_node : Ledger → ℕ → Node → Checked
  unfolding note_events check_order check_vote check_leader check_entries check_prefix
  check_node l i n =
      let s = status n in
      let log = n.store.state.log in
      let l = note_events l i (Events.after n.events (get_or l.event_cursor i 0)) in
      also (check_order l i s) (λ l. also (check_vote l s n.store.state.vote) (λ l.
        also (check_leader l s)
          (λ l. also (check_entries l s [] (drop 1 log)) (λ l. check_prefix l s log))))

  -- `check`, from the i-th node on
  unfoldable pub check : Ledger → ℕ → List (Option Node) → Checked
  unfolding check_node
  check l i [] = (l, none)
  check l i (none ∷ nodes) = check l (i + 1) nodes
  check l i (some n ∷ nodes) = also (check_node l i n) (λ l'. check l' (i + 1) nodes)
