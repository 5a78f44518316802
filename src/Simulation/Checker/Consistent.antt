-- ===== src/Simulation/Checker/Consistent.antt =====
-- internal/simulation/simulation.go, check: what checks that pass say of the nodes that they saw.
use shard_zero.Prelude.{
  Option, Includes, ℕ, ◌≡◌, ◌≢◌, ◌+◌, refl, sym, ◌∙◌, subst, false, ◌&&◌, not, none, some, List, [],
  ◌∷◌, ◌++◌, Text, bytes, decimal, text_eq, text_eq_iff, inl, inr, get_or, drop, Bool-cases,
}
use shard_zero.Prelude.Dict.{text_key, nat_key, get}
use shard_zero.Events
use shard_zero.Events.{Event}
use shard_zero.Raft.Types.{Entry}
use shard_zero.Raft.Node.{Node, leader, is_leader}
use shard_zero.Raft.Client.{Status, status}
use shard_zero.Simulation.Checker.{
  check, Ledger, note_events, Checked, also, check_order, claim, vote_key, check_vote, check_leader,
  check_entry, check_entries, loses, check_prefix, check_node,
}
use shard_zero.Simulation.Checker.Remembering.{
  some-injective, claim-get, Remembers, Remembers-refl, Remembers-trans, Passes, also-Passes,
  note_events-Remembers, check_order-Passes, check_vote-Passes, check_leader-Passes,
  check_committed-Passes,
}

module _ (entry_hash : Entry → Text) (chain_hash : Text → Text) where
  check_entry-Passes :
      (l : Ledger) (s : Status) (prefix : Text) (e : Entry)
      → Passes l (check_entry entry_hash chain_hash l s prefix e)
  unfolding check_entry
  check_entry-Passes l s prefix e =
      let key = decimal e.index ++ (bytes "/" ++ decimal e.term) in
      elim (Bool-cases (claim l.log_matching key prefix).1) [
        | inr clash ↦ rw clash (λ ok. cc)
        | inl agrees ↦ rw agrees (λ ok.
            Remembers-trans (record { votes = λ k v n x. x; leaders = λ k v n x. x })
              (check_committed-Passes
                (record l { log_matching = (claim l.log_matching key prefix).0 }) s e (entry_hash e)
                ok))
      ]

  check_entries-Passes :
      (l : Ledger) (s : Status) (prefix : Text) (entries : List Entry)
      → Passes l (check_entries entry_hash chain_hash l s prefix entries)
  unfolding check_entries
  check_entries-Passes l s prefix [] = λ ok. Remembers-refl l
  check_entries-Passes l s prefix (e ∷ entries) =
      let chained = chain_hash (prefix ++ entry_hash e) in
      also-Passes l (check_entry entry_hash chain_hash l s chained e)
        (λ l'. check_entries entry_hash chain_hash l' s chained entries)
        (check_entry-Passes l s chained e) (λ m. check_entries-Passes m s chained entries)

  check_prefix-Passes :
      (l : Ledger) (s : Status) (log : List Entry)
      → Passes l (check_prefix entry_hash chain_hash l s log)
  unfolding check_prefix
  check_prefix-Passes l s log =
      elim (Bool-cases
        (is_leader s.role && loses entry_hash chain_hash l.committed l.committed_terms s log)) [
          | inl lost ↦ rw lost (λ ok. Remembers-refl l)
          | inr held ↦ rw held (λ ok. Remembers-refl l)
        ]

  -- The ledger has the vote of a node, and that it leads.
  pub record Records (l : Ledger) (n : Node) : Type 0 where
    pub vote : n.store.state.vote ≢ [] → get l.votes (vote_key (status n)) ≡ some n.store.state.vote
    pub leads : n.role ≡ leader → n.cfg.id ≢ [] → get l.leaders n.store.state.term ≡ some n.cfg.id

  Records-Remembers : {l m : Ledger} {n : Node} → Remembers l m → Records l n → Records m n
  Records-Remembers k r = record {
    vote = λ voted. k.votes _ _ voted (r.vote voted);
    leads = λ lead named. k.leaders _ _ named (r.leads lead named);
  }

  vote-recorded :
      (l : Ledger) (s : Status) (vote : Text)
      → (check_vote l s vote).1 ≡ none
      → vote ≢ []
      → get (check_vote l s vote).0.votes (vote_key s) ≡ some vote
  unfolding check_vote
  vote-recorded l s vote ok voted = elim (Bool-cases (text_eq vote [])) [
    | inl free ↦ absurd (voted ((text_eq_iff vote []).0 free))
    | inr some_vote ↦ elim (Bool-cases (claim l.votes (vote_key s) vote).1) [
      | inr clash ↦ cc (rw (some_vote, clash) at ok)
      | inl agrees ↦ rw (some_vote, agrees) (claim-get l.votes (vote_key s) vote agrees)
    ]
  ]

  leader-recorded :
      (l : Ledger) (s : Status)
      → (check_leader l s).1 ≡ none
      → s.role ≡ leader
      → get (check_leader l s).0.leaders s.term ≡ some s.node_id
  unfolding check_leader
  leader-recorded l s ok lead =
      let leads : not (is_leader s.role) ≡ false = rw lead refl in
      elim (Bool-cases (claim l.leaders s.term s.node_id).1) [
        | inr clash ↦ cc (rw (leads, clash) at ok)
        | inl agrees ↦ rw (leads, agrees) (claim-get l.leaders s.term s.node_id agrees)
      ]

  -- A composed check with no error: both parts have none.
  also-parts :
      (c : Checked) (f : Ledger → Checked)
      → (also c f).1 ≡ none
      → (c.1 ≡ none) × ((f c.0).1 ≡ none) × ((also c f).0 ≡ (f c.0).0)
  also-parts (m, some e) f ok = cc
  also-parts (m, none) f ok = (refl, ok, refl)

  after_leader : Node → Ledger → Checked
  after_leader n m =
      also (check_entries entry_hash chain_hash m (status n) [] (drop 1 n.store.state.log))
        (λ k. check_prefix entry_hash chain_hash k (status n) n.store.state.log)

  after_leader-Passes : (n : Node) (m : Ledger) → Passes m (after_leader n m)
  unfolding after_leader
  after_leader-Passes n m =
      also-Passes m (check_entries entry_hash chain_hash m (status n) [] (drop 1 n.store.state.log))
        (λ k. check_prefix entry_hash chain_hash k (status n) n.store.state.log)
        (check_entries-Passes m (status n) [] (drop 1 n.store.state.log))
        (λ k. check_prefix-Passes k (status n) n.store.state.log)

  check_node-Records :
      (l : Ledger) (i : ℕ) (n : Node)
      → (check_node entry_hash chain_hash l i n).1 ≡ none
      → Remembers l (check_node entry_hash chain_hash l i n).0
        × Records (check_node entry_hash chain_hash l i n).0 n
  unfolding check_node after_leader status
  check_node-Records l i n ok =
      let s = status n in
      let vote = n.store.state.vote in
      let events = Events.after n.events (get_or l.event_cursor i 0) in
      let noted = note_events l i events in
      let ordered = check_order noted i s in
      let (ok1, rest1, e1) =
        also-parts ordered
          (λ m. also (check_vote m s vote) (λ m. also (check_leader m s) (after_leader n))) ok in
      let voted = check_vote ordered.0 s vote in
      let (ok2, rest2, e2) =
        also-parts voted (λ m. also (check_leader m s) (after_leader n)) rest1 in
      let led = check_leader voted.0 s in
      let (ok3, rest3, e3) = also-parts led (after_leader n) rest2 in
      let end : (check_node entry_hash chain_hash l i n).0 ≡ (after_leader n led.0).0 =
        e1 ∙ e2 ∙ e3 in
      let last = after_leader-Passes n led.0 rest3 in
      let since_vote = Remembers-trans (check_leader-Passes voted.0 s ok3) last in
      rw end (
        Remembers-trans (note_events-Remembers events l i) (
            Remembers-trans (check_order-Passes noted i s ok1)
              (Remembers-trans (check_vote-Passes ordered.0 s vote ok2) since_vote)),
        record {
          vote = λ given. since_vote.votes _ _ given (vote-recorded ordered.0 s vote ok2 given);
          leads = λ lead named. last.leaders _ _ named (leader-recorded voted.0 s ok3 lead);
        },
      )

  check-Records :
      (nodes : List (Option Node)) (l : Ledger) (i : ℕ)
      → (check entry_hash chain_hash l i nodes).1 ≡ none
      → Remembers l (check entry_hash chain_hash l i nodes).0
        × ((n : Node)
            → Includes nodes (some n)
            → Records (check entry_hash chain_hash l i nodes).0 n)
  unfolding check
  check-Records [] l i ok = (Remembers-refl l, λ n h. absurd h)
  check-Records (none ∷ nodes) l i ok =
      let (kept, all) = check-Records nodes l (i + 1) ok in
      (
        kept,
        λ n h. elim h as (λ _. Records (check entry_hash chain_hash l (i + 1) nodes).0 n) [
          | inl e ↦ cc
          | inr rest ↦ all n rest
        ],
      )
  check-Records (some first ∷ nodes) l i ok =
      let now = check_node entry_hash chain_hash l i first in
      let (ok1, ok2, end) = also-parts now (λ m. check entry_hash chain_hash m (i + 1) nodes) ok in
      let (kept, here) = check_node-Records l i first ok1 in
      let (later, all) = check-Records nodes now.0 (i + 1) ok2 in
      rw end (
        Remembers-trans kept later,
        λ n h. elim h as (λ _. Records (check entry_hash chain_hash now.0 (i + 1) nodes).0 n) [
          | inl e ↦
              let same : first ≡ n = some-injective first n e in
              subst (Records (check entry_hash chain_hash now.0 (i + 1) nodes).0) same
                (Records-Remembers later here)
          | inr rest ↦ all n rest
        ],
      )

  -- Checks that gave no error, one after another, of the nodes as they were then. In between, the
  -- runner changes neither the votes nor the leaders that it has seen.
  pub data Checks : Ledger → List (List (Option Node)) → Ledger → Type 0 where
    begins : (l : Ledger) → Checks l [] l
    passes :
        {l m : Ledger} {seen : List (List (Option Node))}
        → Checks l seen m
        → (k : Ledger) (nodes : List (Option Node)) → k.votes ≡ m.votes
        → k.leaders ≡ m.leaders
        → (check entry_hash chain_hash k 0 nodes).1 ≡ none
        → Checks l (nodes ∷ seen) (check entry_hash chain_hash k 0 nodes).0

  Checks-Records :
      {l m : Ledger} {seen : List (List (Option Node))}
      → Checks l seen m
      → (nodes : List (Option Node)) (n : Node) → Includes seen nodes
      → Includes nodes (some n)
      → Records m n
  Checks-Records (begins l) nodes n h k = absurd h
  Checks-Records (passes {l} {m} {seen} before k now votes leaders ok) nodes n h inside =
      let (kept, all) = check-Records now k 0 ok in
      elim h as (λ _. Records (check entry_hash chain_hash k 0 now).0 n) [
        | inl e ↦ all n (subst (λ x. Includes x (some n)) (sym e) inside)
        | inr earlier ↦
            let old = Checks-Records before nodes n earlier inside in
            Records-Remembers
              (record {
                votes = λ j v named g. kept.votes j v named (rw votes g);
                leaders = λ j v named g. kept.leaders j v named (rw leaders g);
              })
              old
      ]

  -- If all checks of a run gave no error, then of all nodes that they saw, at whatever steps, two that
  -- led in the same term and whose names are not empty have the same name, and two that had voted in the
  -- same term and have the same name had voted for the same candidate.
  pub Checks-agree :
      (l m : Ledger) (seen : List (List (Option Node)))
      → Checks l seen m
      → (nodes nodes' : List (Option Node)) (n n' : Node) → Includes seen nodes
      → Includes nodes (some n)
      → Includes seen nodes'
      → Includes nodes' (some n')
      → n.store.state.term ≡ n'.store.state.term
      → (n.role ≡ leader → n'.role ≡ leader → n.cfg.id ≢ [] → n'.cfg.id ≢ [] → n.cfg.id ≡ n'.cfg.id)
        × (n.cfg.id ≡ n'.cfg.id
            → n.store.state.vote ≢ []
            → n'.store.state.vote ≢ []
            → n.store.state.vote ≡ n'.store.state.vote)
  unfolding vote_key status
  Checks-agree l m seen checks nodes nodes' n n' h k h' k' term =
      let mine = Checks-Records checks nodes n h k in
      let theirs = Checks-Records checks nodes' n' h' k' in
      (
        λ lead lead' named named'.
            some-injective _ _ (sym (mine.leads lead named) ∙ rw term (theirs.leads lead' named')),
        λ same voted voted'.
            some-injective _ _ (sym (mine.vote voted) ∙ rw (term, same) (theirs.vote voted')),
      )
