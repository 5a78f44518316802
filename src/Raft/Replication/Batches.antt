-- ===== src/Raft/Replication/Batches.antt =====
-- internal/raft/rpc.go, prepareAppendLocked: what a leader sends, and when it cannot.
use shard_zero.Prelude.{
  ℕ, zero, suc, ◌+◌, ◌-◌, ◌<◌, ◌≤◌, ◌≡◌, ◌⊎◌, refl, ap, ◌∙◌, false, ◌&&◌, Option, none, some, arith,
  length, get_or, ltb, leb, Bool-cases, inl, inr, ◌++◌, bytes, decimal, inc64,
}
use shard_zero.Prelude.Dict.{text_key}
use shard_zero.Raft.Types.{Peer, no_entry, AppendRequest}
use shard_zero.StateMachine.{Command, validate}
use shard_zero.Raft.Store.{Durable, entry_at, last_index, command_error}
use shard_zero.Raft.Store.Shape.{IsLog, command-IsLog}
use shard_zero.Raft.Node.{Node, last_locked, entry_locked}
use shard_zero.Raft.Replication.{
  entry_size, batch_end, entries_from, first_to_send, append_request, prepare_request,
}

-- The size of `count` entries from `from` on.
batch_size : Durable → ℕ → ℕ → ℕ
batch_size s from zero = 0
batch_size s from (suc count) = entry_size (entry_at s from).command + batch_size s (from + 1) count

-- The batch that starts at `next` and has come to `end`, with `size` bytes, stops at `stop`: at the
-- end of the log, after 32 entries, or before an entry that does not fit.
record StopsAt (s : Durable) (next end size stop : ℕ) : Type 0 where
  count : ℕ
  reached : stop ≡ end + count
  inside : stop ≤ last_index s + 1
  few : stop ≤ next + 32
  fits : size + batch_size s end count ≤ 15728640
  reason :
      (last_index s < stop)
      ⊎ (stop ≡ next + 32)
      ⊎ (15728640 < size + batch_size s end count + entry_size (entry_at s stop).command)

StopsAt-here :
    (s : Durable) (next end size : ℕ)
    → end ≤ last_index s + 1
    → end ≤ next + 32
    → size ≤ 15728640
    → ((last_index s < end)
        ⊎ (end ≡ next + 32)
        ⊎ (15728640 < size + entry_size (entry_at s end).command))
    → StopsAt s next end size end
unfolding batch_size
StopsAt-here s next end size inside few fits reason = record {
  count = 0;
  reached = omega arith;
  inside = inside;
  few = few;
  fits = omega arith;
  reason = elim reason [
    | inl past ↦ inl past
    | inr (inl full) ↦ inr (inl full)
    | inr (inr big) ↦ inr (inr (omega (arith, big)))
  ];
}

StopsAt-step :
    (s : Durable) (next end size stop : ℕ)
    → StopsAt s next (end + 1) (size + entry_size (entry_at s end).command) stop
    → StopsAt s next end size stop
unfolding batch_size
StopsAt-step s next end size stop b = record {
  count = suc b.count;
  reached = omega (arith, b.reached);
  inside = b.inside;
  few = b.few;
  fits = omega (arith, b.fits);
  reason = elim b.reason [
    | inl past ↦ inl past
    | inr (inl full) ↦ inr (inl full)
    | inr (inr big) ↦ inr (inr (omega (arith, big)))
  ];
}

-- With fuel for 32 rounds and one more, the loop stops for one of the three reasons.
batch_end_lem :
    (fuel : ℕ) (s : Durable) (next end size : ℕ)
    → next + 33 ≤ fuel + end
    → next ≤ end
    → s.base ≤ end
    → end ≤ last_index s + 1
    → end ≤ next + 32
    → size ≤ 15728640
    → (stop : ℕ) × (batch_end fuel s next end size ≡ some stop) × StopsAt s next end size stop
unfolding batch_end
batch_end_lem zero s next end size fuel lo above inside few fits = absurd (omega arith)
batch_end_lem (suc fuel) s next end size enough lo above inside few fits =
    elim (Bool-cases (leb end (last_index s) && ltb (end - next) 32)) [
      | inr over ↦ (
        end,
        rw over,
        StopsAt-here s next end size inside few fits (elim (Bool-cases (leb end (last_index s))) [
          | inr past ↦ inl (ground (arith, past))
          | inl more ↦ inr (inl (ground (arith, over, more)))
        ]),
      )
      | inl more ↦
          let not_below : ltb end s.base ≡ false = ground arith in
          elim (Bool-cases (ltb 15728640 (size + entry_size (entry_at s end).command))) [
            | inl big ↦ (
              end,
              rw (more, not_below, big),
              StopsAt-here s next end size inside few fits (inr (inr (ground (arith, big)))),
            )
            | inr small ↦
                let (stop, found, b) =
                  batch_end_lem fuel s next (end + 1) (size + entry_size (entry_at s end).command)
                    (omega arith) (omega arith) (omega arith) (ground (arith, more))
                    (ground (arith, more)) (ground (arith, small)) in
                (stop, rw (more, not_below, small) found, StopsAt-step s next end size stop b)
          ]
    ]

-- What a request for `peer` carries: the entries from `next` on, after one with the given term.
pub record Sends (n : Node) (next : ℕ) (req : AppendRequest) : Type 0 where
  pub term : req.term ≡ n.store.state.term
  pub prev : req.prev_log_index + 1 ≡ next
  pub prev_term : req.prev_log_term ≡ (entry_locked n req.prev_log_index).term
  pub few : length req.entries ≤ 32
  pub inside : req.prev_log_index + length req.entries ≤ last_locked n
  pub entries :
      (j : ℕ) → j < length req.entries → get_or req.entries j no_entry ≡ entry_locked n (next + j)
  pub commit : req.leader_commit ≡ n.store.state.commit
  pub progress : next ≤ last_locked n → 0 < length req.entries

length-entries_from : (s : Durable) (next count : ℕ) → length (entries_from s next count) ≡ count
unfolding entries_from
length-entries_from s next zero = refl
length-entries_from s next (suc count) = ap suc (length-entries_from s (next + 1) count)

entry-entries_from :
    (s : Durable) (next count j : ℕ)
    → j < count
    → get_or (entries_from s next count) j no_entry ≡ entry_at s (next + j)
unfolding entries_from
entry-entries_from s next zero j h = elim h [ ]
entry-entries_from s next (suc count) zero h = ap (entry_at s) (omega arith)
entry-entries_from s next (suc count) (suc j) h =
    entry-entries_from s (next + 1) count j (omega arith) ∙ ap (entry_at s) (omega arith)

-- A valid command fits in a batch of its own.
command_fits : (c : Option Command) → command_error c ≡ none → 1024 + entry_size c ≤ 15728640
unfolding validate
command_fits none v = omega arith
command_fits (some c) v = ground arith

module _ (n : Node) (next stop : ℕ) (h : IsLog n.store.state) (above : n.store.state.base < next)
    (inside : next ≤ last_locked n + 1) (b : StopsAt n.store.state next next 1024 stop) where
  too_big :
      15728640
        < 1024 + batch_size n.store.state next 0 + entry_size (entry_at n.store.state next).command
      → 1024 + entry_size (entry_at n.store.state next).command ≤ 15728640
      → ⊥
  unfolding batch_size
  too_big big fits = omega (arith, big, fits)

  progress_lem : next ≤ last_locked n → next < stop
  progress_lem more = elim (Bool-cases (ltb next stop)) [
    | inl moved ↦ ground (arith, moved)
    | inr stuck ↦ absurd (go (ground (arith, stuck, b.reached)))
  ]
    where
      go : stop ≡ next → ⊥
      go e =
          let zero_count : b.count ≡ 0 = omega (arith, b.reached, e) in
          let fits =
            command_fits (entry_at n.store.state next).command
              (command-IsLog n.store.state next h above more) in
          elim b.reason [
            | inl past ↦ omega (arith, past, e, more)
            | inr (inl full) ↦ omega (arith, full, e)
            | inr (inr big) ↦ too_big (rw (e, zero_count) at big) fits
          ]

  append_request-Sends :
      (req : AppendRequest) × (append_request n next stop ≡ some req) × Sends n next req
  unfolding append_request
  append_request-Sends =
      let above_base : ltb (next - 1) n.store.state.base ≡ false = ground arith in
      let nonneg : ltb stop next ≡ false = ground (arith, b.reached) in
      (
        record {
          message_id = n.boot_id ++ (bytes "/" ++ decimal (inc64 n.sequence));
          cluster_id = n.cfg.cluster_id;
          term = n.store.state.term;
          leader_id = n.cfg.id;
          prev_log_index = next - 1;
          prev_log_term = (entry_locked n (next - 1)).term;
          entries = entries_from n.store.state next (stop - next);
          leader_commit = n.store.state.commit;
        },
        rw (above_base, nonneg),
        record {
          term = refl;
          prev = omega arith;
          prev_term = refl;
          few = omega (arith, length-entries_from n.store.state next (stop - next), b.few);
          inside =
              omega
                (arith, length-entries_from n.store.state next (stop - next), b.inside, b.reached);
          entries = λ j lt.
              entry-entries_from n.store.state next (stop - next) j
                (omega (arith, lt, length-entries_from n.store.state next (stop - next)));
          commit = refl;
          progress = λ more.
              omega
                (arith, length-entries_from n.store.state next (stop - next), progress_lem more);
        },
      )

first_to_send_range : (n : Node) (peer : Peer) → first_to_send n peer ≤ last_locked n + 1
unfolding first_to_send
first_to_send_range n peer = omega arith

prepare_request-some :
    (n : Node) (peer : Peer) (stop : ℕ)
    → batch_end 33 n.store.state (first_to_send n peer) (first_to_send n peer) 1024 ≡ some stop
    → prepare_request n peer ≡ append_request n (first_to_send n peer) stop
unfolding prepare_request
prepare_request-some n peer stop h = rw (h, prepare_request)

-- A node whose log has its shape, and that is to send from above its base, builds a request: it
-- carries at most 32 entries of the log, in order and from that index on, after the index and term of
-- the entry before, with the node's term and commit index, and at least one entry if there is one to
-- send, since a valid command always fits.
pub prepare_request-Sends :
    (n : Node) (peer : Peer)
    → IsLog n.store.state
    → n.store.state.base < first_to_send n peer
    → (req : AppendRequest) × (prepare_request n peer ≡ some req)
      × Sends n (first_to_send n peer) req
prepare_request-Sends n peer h above =
    let next = first_to_send n peer in
    let (stop, found, b) =
      batch_end_lem 33 n.store.state next next 1024 (omega arith) (omega arith) (omega arith)
        (first_to_send_range n peer) (omega arith) (omega arith) in
    let (req, built, sends) =
      append_request-Sends n next stop h above (first_to_send_range n peer) b in
    (req, prepare_request-some n peer stop found ∙ built, sends)
