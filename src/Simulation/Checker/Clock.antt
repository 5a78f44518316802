-- ===== src/Simulation/Checker/Clock.antt =====
-- internal/simulation/simulation.go, check: the checks take no time.
use shard_zero.Prelude.{
  ℕ, ◌+◌, ◌≡◌, refl, ◌∙◌, Option, none, some, List, [], ◌∷◌, ◌++◌, Text, drop, get_or, inl, inr,
  Bool-cases, decimal, bytes, arith,
}
use shard_zero.Prelude.Dict.{nat_key, text_key}
use shard_zero.Events
use shard_zero.Events.{Event}
use shard_zero.Raft.Types.{Entry}
use shard_zero.Raft.Node.{Node}
use shard_zero.Raft.Client.{Status, status}
use shard_zero.Simulation.Checker.{
  Ledger, set_at, event_detail, note, note_events, Checked, also, claim, check_order, check_vote,
  check_leader, check_committed, check_entry, check_entries, check_prefix, check_node, check,
}

also-now :
    (t : ℕ) (p : Checked) (f : Ledger → Checked)
    → p.0.now ≡ t
    → ((l : Ledger) → l.now ≡ t → (f l).0.now ≡ t)
    → (also p f).0.now ≡ t
also-now t (l, some e) f h k = h
also-now t (l, none) f h k = k l h

now-note_events : (l : Ledger) (i : ℕ) (events : List Event) → (note_events l i events).now ≡ l.now
unfolding note_events note
now-note_events l i [] = refl
now-note_events l i (e ∷ events) =
    now-note_events
      (note (record l { event_cursor = set_at l.event_cursor i e.id }) e.kind e.node_id
        (event_detail e))
      i events

now-check_order : (l : Ledger) (i : ℕ) (s : Status) → (check_order l i s).0.now ≡ l.now
unfolding check_order
now-check_order l i s = ground arith

now-check_vote : (l : Ledger) (s : Status) (vote : Text) → (check_vote l s vote).0.now ≡ l.now
unfolding check_vote
now-check_vote l s vote = ground arith

now-check_leader : (l : Ledger) (s : Status) → (check_leader l s).0.now ≡ l.now
unfolding check_leader
now-check_leader l s = ground arith

now-check_committed :
    (l : Ledger) (s : Status) (e : Entry) (h : Text) → (check_committed l s e h).0.now ≡ l.now
unfolding check_committed
now-check_committed l s e h = ground arith

module _ (entry_hash : Entry → Text) (chain_hash : Text → Text) where
  now-check_entry :
      (l : Ledger) (s : Status) (prefix : Text) (e : Entry)
      → (check_entry entry_hash chain_hash l s prefix e).0.now ≡ l.now
  unfolding check_entry
  now-check_entry l s prefix e =
      elim (Bool-cases
        (claim l.log_matching (decimal e.index ++ (bytes "/" ++ decimal e.term)) prefix).1) [
          | inl t ↦ rw t (now-check_committed _ s e (entry_hash e))
          | inr f ↦ rw f refl
        ]

  now-check_entries :
      (t : ℕ) (l : Ledger) (s : Status) (prefix : Text) (entries : List Entry)
      → l.now ≡ t
      → (check_entries entry_hash chain_hash l s prefix entries).0.now ≡ t
  unfolding check_entries
  now-check_entries t l s prefix [] h = h
  now-check_entries t l s prefix (e ∷ entries) h =
      let next = chain_hash (prefix ++ entry_hash e) in
      also-now t (check_entry entry_hash chain_hash l s next e)
        (λ l'. check_entries entry_hash chain_hash l' s next entries)
        (now-check_entry l s next e ∙ h) (λ l' k. now-check_entries t l' s next entries k)

  now-check_prefix :
      (l : Ledger) (s : Status) (log : List Entry)
      → (check_prefix entry_hash chain_hash l s log).0.now ≡ l.now
  unfolding check_prefix
  now-check_prefix l s log = ground arith

  now-check_node :
      (t : ℕ) (l : Ledger) (i : ℕ) (n : Node)
      → l.now ≡ t
      → (check_node entry_hash chain_hash l i n).0.now ≡ t
  unfolding check_node
  now-check_node t l i n h =
      let s = status n in
      let log = n.store.state.log in
      let l' = note_events l i (Events.after n.events (get_or l.event_cursor i 0)) in
      let prefix = λ (l : Ledger). check_prefix entry_hash chain_hash l s log in
      let entries =
        λ (l : Ledger). also (check_entries entry_hash chain_hash l s [] (drop 1 log)) prefix in
      let leader = λ (l : Ledger). also (check_leader l s) entries in
      let vote = λ (l : Ledger). also (check_vote l s n.store.state.vote) leader in
      also-now t (check_order l' i s) vote
        (now-check_order l' i s
          ∙ now-note_events l i (Events.after n.events (get_or l.event_cursor i 0))
          ∙ h)
        (λ l k.
          also-now t (check_vote l s n.store.state.vote) leader (now-check_vote l s _ ∙ k) (λ l k.
            also-now t (check_leader l s) entries (now-check_leader l s ∙ k) (λ l k.
              also-now t (check_entries entry_hash chain_hash l s [] (drop 1 log)) prefix
                (now-check_entries t l s [] (drop 1 log) k) (λ l k. now-check_prefix l s log ∙ k))))

  pub now-check :
      (t : ℕ) (l : Ledger) (i : ℕ) (nodes : List (Option Node))
      → l.now ≡ t
      → (check entry_hash chain_hash l i nodes).0.now ≡ t
  unfolding check
  now-check t l i [] h = h
  now-check t l i (none ∷ nodes) h = now-check t l (i + 1) nodes h
  now-check t l i (some n ∷ nodes) h =
      also-now t (check_node entry_hash chain_hash l i n)
        (λ l'. check entry_hash chain_hash l' (i + 1) nodes) (now-check_node t l i n h)
        (λ l' k. now-check t l' (i + 1) nodes k)
