-- ===== src/Raft/Cluster/Tests.antt =====
-- internal/raft: an election in a cluster of three.
use shard_zero.Prelude.{
  ◌/◌, ◌<◌, ◌≤◌, ◌≡◌, ◌≢◌, inl, inr, refl, false, none, some, List, [], ◌∷◌, Text, bytes, text_eq,
  length, Includes, subst, true, Attempt, done, failed, valid_utf8,
}
use shard_zero.StateMachine
use shard_zero.Prelude.Dict.{text_key, get, put, read, HasUniqueKeys}
use shard_zero.Raft.Store.{
  open_store, replay, accept, save, validate, validate_record, validate_replacement,
  validate_entries,
}
use shard_zero.Raft.Store.Journal.{append_record}
use shard_zero.Raft.Node.{Node, Message, leader, no_peer, step_down, persist}
use shard_zero.Raft.Election.{request_vote, vote_response, start_election, ask_votes, become_leader}
use shard_zero.Raft.Replication.{
  kick, queue_all, queue_append, prepare_append, prepare_request, batch_end,
}
use shard_zero.Raft.Commit.{
  advance_commit, commit_candidate, acks, apply_locked, maybe_snapshot, apply_entries, apply_entry,
}
use shard_zero.Raft.Client.{tick, deliver_vote}
use shard_zero.Raft.Steps.{at_time, clock, ticked}
use shard_zero.Raft.Cluster.{
  set_node, Cluster, Runs, start, next, handles, votes, hears, Reopens, restarts,
}
use shard_zero.Raft.Open.{OpenError, open_node, add_addresses}
use shard_zero.Raft.Cluster.Quorums.{HasKey}
use shard_zero.Raft.Cluster.Ballots.{Member}
use shard_zero.Raft.Cluster.Safety.{Starts, one_leader_a_term, leader_has_votes}
use shard_zero.Raft.Types.{Transaction}
use shard_zero.Raft.Store.Recalling.{last_record-Recalls}
use shard_zero.Raft.Samples.{set_x, config, member_a, member_a-IsSound, ask}

abbrev ids : List Text
ids = bytes "a" ∷ bytes "b" ∷ bytes "c" ∷ []

-- The record of the samples' state.
abbrev record_a : Transaction
record_a = record {
  identity = [];
  term = 2;
  vote = [];
  commit = 1;
  from = 1;
  entries =
      record { index = 1; term = 1; command = none }
      ∷ record { index = 2; term = 2; command = some set_x }
      ∷ [];
  checkpoint = none;
}

abbrev at_start : Cluster
at_start = record {
  nodes = λ id. record member_a {
    cfg = record config { id = id };
    store = record member_a.store { wal = record member_a.store.wal { records = record_a ∷ [] } };
  };
  answers = [];
}

named_member : (i : Text) → Member ids i (at_start.nodes i)
unfolding read text_eq
named_member i = record {
  sound = record {
    ready = record {
      log = member_a-IsSound.ready.log;
      above_base = member_a-IsSound.ready.above_base;
      committed = member_a-IsSound.ready.committed;
      machine = member_a-IsSound.ready.machine;
      replayed = member_a-IsSound.ready.replayed;
    };
    caught_up = member_a-IsSound.caught_up;
  };
  named = refl;
  size = refl;
  knows = λ j h. elim h as (λ _. (read member_a.peers j no_peer).id ≡ j) [
    | inl e ↦ subst (λ x. (read member_a.peers x no_peer).id ≡ x) e refl
    | inr h ↦ elim h as (λ _. (read member_a.peers j no_peer).id ≡ j) [
      | inl e ↦ subst (λ x. (read member_a.peers x no_peer).id ≡ x) e refl
      | inr h ↦ elim h as (λ _. (read member_a.peers j no_peer).id ≡ j) [
        | inl e ↦ subst (λ x. (read member_a.peers x no_peer).id ≡ x) e refl
        | inr h ↦ absurd h
      ]
    ]
  ];
  recalls = last_record-Recalls [] record_a (at_start.nodes i).store.state refl refl refl;
}

nonempty : (i : Text) → Includes ids i → i ≢ []
nonempty i (inl e) z = cc (e, z)
nonempty i (inr (inl e)) z = cc (e, z)
nonempty i (inr (inr (inl e))) z = cc (e, z)
nonempty i (inr (inr (inr e))) z = elim e [ ]

start_lem : Starts ids at_start
start_lem = record {
  real = nonempty;
  member = λ i _. named_member i;
  follows = λ _ _. refl;
  silent = refl;
}

-- The clock of a passes its deadline, a stands, b votes for it, and a hears of it.
abbrev late : Node
late = at_time (at_start.nodes (bytes "a")) 15

abbrev message : Message
message = record {
  sequence = 0;
  from = bytes "a";
  to = bytes "b";
  vote = some (ask (bytes "a"));
  append = none;
}

abbrev clocked : Cluster
clocked = record at_start { nodes = set_node at_start.nodes (bytes "a") late }

abbrev asked : Cluster
asked = record clocked {
  nodes = set_node clocked.nodes (bytes "a") (tick (clocked.nodes (bytes "a")));
}

abbrev answered : Cluster
answered = record {
  nodes =
      set_node asked.nodes (bytes "b") (request_vote (asked.nodes (bytes "b")) (ask (bytes "a"))).0;
  answers =
      record {
        voter = bytes "b";
        request = ask (bytes "a");
        response = (request_vote (asked.nodes (bytes "b")) (ask (bytes "a"))).1;
      }
      ∷ [];
}

abbrev elected : Cluster
elected = record answered {
  nodes = set_node answered.nodes (bytes "a") (
      deliver_vote (answered.nodes (bytes "a")) message
        (request_vote (asked.nodes (bytes "b")) (ask (bytes "a"))).1 false);
}

election : Runs ids at_start elected
election =
    next
      (next
        (next
          (next (start at_start) (
            handles at_start (bytes "a") late (inl refl) (clock (at_start.nodes (bytes "a")) 15)
              tt))
          (handles clocked (bytes "a") (tick (clocked.nodes (bytes "a"))) (inl refl)
            (ticked (clocked.nodes (bytes "a"))) tt))
        (votes asked (bytes "b") (ask (bytes "a")) (inr (inl refl))))
      (hears answered (bytes "a") message _ (inl refl) (inl refl) refl refl refl)

-- b stops, and starts again from its journal, in which the vote is.
abbrev attempt : Attempt Node OpenError
attempt =
    open_node (λ _. true) (λ _ _ _ _. []) (record config { id = bytes "b" }) true member_a.runtime
      (elected.nodes (bytes "b")).store.wal

abbrev opened_node : Attempt Node OpenError → Node
opened_node (done n) = n
opened_node (failed e) = member_a

abbrev restarted : Cluster
restarted = record elected { nodes = set_node elected.nodes (bytes "b") (opened_node attempt) }

again : Reopens (elected.nodes (bytes "b")) (opened_node attempt)
unfolding open_node text_eq get add_addresses read put open_store replay validate validate_record
    validate_replacement validate_entries accept apply_locked maybe_snapshot apply_entries
    apply_entry tick request_vote step_down persist save append_record start_election ask_votes
    StateMachine.validate valid_utf8
again = record {
  is_origin = λ _. true;
  identity = λ _ _ _ _. [];
  given = record config { id = bytes "b" };
  has_transport = true;
  runtime = member_a.runtime;
  wal = (elected.nodes (bytes "b")).store.wal;
  journal = refl;
  opened = refl;
  free = refl;
  named = refl;
  members = refl;
}

run : Runs ids at_start restarted
run = next election (restarts elected (bytes "b") (opened_node attempt) (inr (inl refl)) again)

leads : (restarted.nodes (bytes "a")).role ≡ leader
unfolding text_eq tick get put read request_vote deliver_vote step_down persist save validate
    validate_record validate_replacement append_record vote_response start_election ask_votes
    become_leader validate_entries kick advance_commit commit_candidate acks queue_all queue_append
    prepare_append prepare_request batch_end
leads = refl

one_leader_a_term_example : ◌≡◌ {A = Text} (bytes "a") (bytes "a")
one_leader_a_term_example =
    one_leader_a_term ids at_start restarted run start_lem (bytes "a") (bytes "a") (inl refl)
      (inl refl) leads leads refl

leader_has_votes_example :
    (length ids / 2 < length (restarted.nodes (bytes "a")).votes)
    × HasUniqueKeys (restarted.nodes (bytes "a")).votes
    × ((p : Text)
        → HasKey (restarted.nodes (bytes "a")).votes p
        → Includes ids p
          × ((restarted.nodes (bytes "a")).store.state.term ≤ (restarted.nodes p).store.state.term)
          × ((restarted.nodes p).store.state.term ≡ (restarted.nodes (bytes "a")).store.state.term
              → (restarted.nodes p).store.state.vote ≡ bytes "a"))
leader_has_votes_example =
    leader_has_votes ids at_start restarted run start_lem (bytes "a") (inl refl) leads
