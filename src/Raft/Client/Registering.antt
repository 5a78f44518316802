-- ===== src/Raft/Client/Registering.antt =====
-- internal/raft/node.go, submitLocked: the waiter of a proposal stands for the entry that was proposed.
use shard_zero.Prelude.{
  ℕ, ◌+◌, ◌-◌, ◌<◌, ◌≤◌, ◌≡◌, inl, inr, refl, sym, ap, ◌∙◌, subst, Option, [], ◌∷◌, Text, arith,
  ◌==◌, if◌then◌else◌, Bool, true, false,
}
use shard_zero.Prelude.Dict.{nat_key, text_key, put, Includes-put}
use shard_zero.StateMachine.{Command, Machine}
use shard_zero.Raft.Types.{Entry}
use shard_zero.Raft.Store.{entry, entry_at, last_index}
use shard_zero.Raft.Store.Shape.{inside_log}
use shard_zero.Raft.Node.Persisting
use shard_zero.Raft.Node.Persisting.{after_save, persist_outcome, persist_cases, applied-persist}
use shard_zero.Raft.Store.Durability.{snapshot-save, base-save, entry-save_below}
use shard_zero.Raft.Commit.Replay.{replayed, replayed_same}
use shard_zero.Raft.Node.{Node, Waiter, persist, last_locked}
use shard_zero.Raft.Node.Effects.{IsSound}
use shard_zero.Raft.Commit.Answers.{Claim, Waits, Answers, Answering, IsAnswer}
use shard_zero.Raft.Client.{proposed}

abbrev pub claim : Entry → Option Text → Machine → Claim
claim e read_key meets = record { entry = e; read_key = read_key; meets = meets }

-- What an entry and a read stand for at a node.
abbrev pub claim_at : Node → Entry → Option Text → Claim
claim_at n e read_key = claim e read_key (replayed n.store (e.index - 1))

-- What a proposal to a node stands for: its entry, on the machine that the whole log gives.
abbrev pub claim_proposed : Node → Option Command → Option Text → Claim
claim_proposed n command read_key =
    claim (proposed n command) read_key (replayed n.store (last_locked n))

-- The claims with that of the next channel.
abbrev pub with_claim : (ℕ → Claim) → ℕ → Claim → ℕ → Claim
with_claim claims channel c d = if d == channel then c else claims d

-- A node with a new waiter, before it tries to commit.
abbrev pub registered : Node → Entry → Option Text → Node
registered n e read_key = record n {
  channels = n.channels + 1;
  pending = put n.pending e.index (record { read_key = read_key; done = n.channels });
  match = put n.match n.cfg.id e.index;
}

with_claim_old :
    (claims : ℕ → Claim) (channel d : ℕ) (c : Claim)
    → d < channel
    → with_claim claims channel c d ≡ claims d
with_claim_old claims channel d c h =
    let other : (d == channel) ≡ false = ground (arith, h) in rw other

pub with_claim_new :
    (claims : ℕ → Claim) (channel : ℕ) (c : Claim) → with_claim claims channel c channel ≡ c
with_claim_new claims channel c = let same : (channel == channel) ≡ true = ground arith in rw same

module _ (n : Node) (e : Entry) (read_key : Option Text) (claims : ℕ → Claim)
    (stands : entry_at n.store.state e.index ≡ e) (new : n.applied < e.index)
    (inside : e.index ≤ last_index n.store.state) where
  abbrev pub claims_after : ℕ → Claim
  claims_after = with_claim claims n.channels (claim_at n e read_key)

  Waits-old :
      (j : ℕ) (w : Waiter) → Waits claims n j w → Waits claims_after (registered n e read_key) j w
  Waits-old j w waits =
      let same = with_claim_old claims n.channels w.done (claim_at n e read_key) waits.made in
      record {
        made = omega (arith, waits.made);
        index = rw same waits.index;
        read_key = rw same waits.read_key;
        entry = rw same waits.entry;
        not_applied = waits.not_applied;
        in_log = waits.in_log;
        meets = rw same waits.meets;
      }

  Waits-new :
      Waits claims_after
        (registered n e read_key)
        e.index
        (record { read_key = read_key; done = n.channels })
  Waits-new =
      let same = with_claim_new claims n.channels (claim_at n e read_key) in
      record {
        made = omega arith;
        index = rw same refl;
        read_key = rw same refl;
        entry = rw same stands;
        not_applied = new;
        in_log = inside;
        meets = rw same refl;
      }

  pub Answers-registered : Answers claims n → Answers claims_after (registered n e read_key)
  Answers-registered a = record {
    waiting = λ j w h.
        elim (Includes-put n.pending e.index j (record { read_key = read_key; done = n.channels }) w
          h) [
            | inl (same, it) ↦
                subst (λ k. Waits claims_after (registered n e read_key) k w) (sym same)
                  (subst (Waits claims_after (registered n e read_key) e.index) (sym it) Waits-new)
            | inr old ↦ Waits-old j w (a.waiting j w old)
          ];
    settled = λ d out h.
        let (made, answer) = a.settled d out h in
        (
          omega (arith, made),
          subst (λ c. IsAnswer c n.store.state out)
              (sym (with_claim_old claims n.channels d (claim_at n e read_key) made)) answer,
        );
  }

pub Answering-registered :
    (n : Node) (e : Entry) (read_key : Option Text)
    → entry_at n.store.state e.index ≡ e
    → n.applied < e.index
    → e.index ≤ last_index n.store.state
    → Answering n (registered n e read_key)
Answering-registered n e read_key stands new inside = record {
  channels = omega arith;
  answers = λ claims a. (
    with_claim claims n.channels (claim_at n e read_key),
    λ d made. with_claim_old claims n.channels d (claim_at n e read_key) made,
    Answers-registered n e read_key claims stands new inside a,
  );
}

-- A proposal that is stored stands in the log as it was proposed, and has not been applied.
module _ (n : Node) (command : Option Command) (s : IsSound n)
    (durable : (persist n n.store.state.term n.store.state.vote n.store.state.commit
        (last_locked n + 1)
        (proposed n command ∷ [])).1
      ≡ true) where
  abbrev pub stored : Node
  stored =
      (persist n n.store.state.term n.store.state.vote n.store.state.commit (last_locked n + 1)
        (proposed n command ∷ [])).0

  abbrev storing : Node
  storing =
      after_save n n.store.state.term n.store.state.vote n.store.state.commit (last_locked n + 1)
        (proposed n command ∷ [])

  pub stands-stored : entry_at stored.store.state (last_locked n + 1) ≡ proposed n command
  unfolding entry
  stands-stored =
      let at_end : last_locked n + 1 ≡ last_locked n + 1 + 0 = omega arith in
      elim (persist_outcome n n.store.state.term n.store.state.vote n.store.state.commit
        (last_locked n + 1) (proposed n command ∷ []) s.ready.log) [
          | inl o ↦
              subst
                (λ (x : Node × Bool).
                  entry_at x.0.store.state (last_locked n + 1) ≡ proposed n command)
                (sym o.0) (ap (entry_at storing.store.state) at_end ∙ o.4 0 (omega arith))
          | inr o ↦ cc (o.0, durable)
        ]

  -- The machine that its entry is to meet is that of the log before.
  pub meets-stored : replayed stored.store (last_locked n) ≡ replayed n.store (last_locked n)
  meets-stored =
      elim (persist_cases n n.store.state.term n.store.state.vote n.store.state.commit
        (last_locked n + 1) (proposed n command ∷ [])) [
          | Persisting.stored ok k ↦
              subst
                (λ (x : Node × Bool).
                  replayed x.0.store (last_locked n) ≡ replayed n.store (last_locked n))
                (sym k)
                (replayed_same n.store storing.store (last_locked n)
                  (omega (arith, s.ready.above_base, s.caught_up, s.ready.log.commit_in))
                  (snapshot-save n.store n.store.state.term n.store.state.vote n.store.state.commit
                    (last_locked n + 1) (proposed n command ∷ []))
                  (base-save n.store n.store.state.term n.store.state.vote n.store.state.commit
                    (last_locked n + 1) (proposed n command ∷ []))
                  (λ i lo hi.
                    entry-save_below n.store n.store.state.term n.store.state.vote
                      n.store.state.commit (last_locked n + 1) (proposed n command ∷ []) i
                      (omega (arith, lo)) (inr (omega (arith, hi)))))
          | Persisting.unstored e bad k ↦ cc (k, durable)
        ]

  pub unapplied-stored : stored.applied < last_locked n + 1
  unapplied-stored = omega (
    arith,
    applied-persist n n.store.state.term n.store.state.vote n.store.state.commit (last_locked n + 1)
        (proposed n command ∷ []),
    s.caught_up,
    s.ready.log.commit_in,
  )

  pub inside-stored : last_locked n + 1 ≤ last_index stored.store.state
  inside-stored =
      inside_log stored.store.state (last_locked n + 1)
        (omega (arith, ap (λ (e : Entry). e.index) stands-stored))
