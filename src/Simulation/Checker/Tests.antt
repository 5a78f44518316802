-- ===== src/Simulation/Checker/Tests.antt =====
-- internal/simulation/simulation.go, check: a leader that is seen twice.
use shard_zero.Prelude.{
  ◌≡◌, ◌≢◌, refl, none, some, [], ◌∷◌, inl, inr, List, bytes, ◌++◌, Option, Text, decimal, text_eq,
}
use shard_zero.Prelude.Dict.{text_key, nat_key, get, put, read}
use shard_zero.Events.{after}
use shard_zero.Raft.Types.{Entry}
use shard_zero.Raft.Node.{Node, leader}
use shard_zero.Raft.Client.{status}
use shard_zero.Raft.Samples.{state, leader_a}
use shard_zero.Simulation.Checker.{
  Ledger, set_at, claim, note_events, check_order, check_vote, check_leader, check_entries,
  check_entry, check_committed, check_prefix, loses, check_node, check,
}
use shard_zero.Simulation.Checker.Consistent.{Checks, begins, passes, Checks-agree}

abbrev empty : Ledger
empty = record {
  now = 0;
  trace = [];
  hashed = [];
  leaders = [];
  votes = [];
  committed = [];
  committed_terms = [];
  log_matching = [];
  previous_commit = 0 ∷ [];
  previous_applied = 0 ∷ [];
  event_cursor = 0 ∷ [];
}

abbrev hash : Entry → Text
hash e = decimal e.index

abbrev chain : Text → Text
chain t = t

-- A leader that voted for itself, and the same later with one more entry in its log.
abbrev voted_a : Node
voted_a = record leader_a {
  store = record (leader_a.store) { state = record state { vote = bytes "a" } };
}

abbrev later_a : Node
later_a = record voted_a {
  store = record (voted_a.store) {
    state = record (voted_a.store.state) {
      log = voted_a.store.state.log ++ (record { index = 3; term = 2; command = none } ∷ []);
    };
  };
}

abbrev first_ledger : Ledger
first_ledger = (check hash chain empty 0 (some voted_a ∷ [])).0

abbrev last_ledger : Ledger
last_ledger = (check hash chain first_ledger 0 (some later_a ∷ [])).0

passes_first : (check hash chain empty 0 (some voted_a ∷ [])).1 ≡ none
unfolding check check_node note_events check_order check_vote check_leader check_entries check_entry
    check_committed check_prefix loses claim get put read status text_eq decimal after
passes_first = refl

passes_later : (check hash chain first_ledger 0 (some later_a ∷ [])).1 ≡ none
unfolding check check_node note_events check_order check_vote check_leader check_entries check_entry
    check_committed check_prefix loses claim get put read status text_eq decimal after set_at
passes_later = refl

abbrev seen : List (List (Option Node))
seen = (some later_a ∷ []) ∷ (some voted_a ∷ []) ∷ []

seen_twice : Checks hash chain empty seen last_ledger
seen_twice =
    passes (passes (begins empty) empty (some voted_a ∷ []) refl refl passes_first) first_ledger
      (some later_a ∷ []) refl refl passes_later

Checks-agree_example :
    (later_a.role ≡ leader
      → voted_a.role ≡ leader
      → later_a.cfg.id ≢ []
      → voted_a.cfg.id ≢ []
      → later_a.cfg.id ≡ voted_a.cfg.id)
    × (later_a.cfg.id ≡ voted_a.cfg.id
        → later_a.store.state.vote ≢ []
        → voted_a.store.state.vote ≢ []
        → later_a.store.state.vote ≡ voted_a.store.state.vote)
Checks-agree_example =
    Checks-agree hash chain empty last_ledger seen seen_twice (some later_a ∷ [])
      (some voted_a ∷ []) later_a voted_a (inl refl) (inl refl) (inr (inl refl)) (inl refl) refl
