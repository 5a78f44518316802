-- ===== src/Raft/Commit/Answers.antt =====
-- internal/raft/node.go and runtime.go: whose answer a ticket gets. A waiter stands for the entry that
-- was proposed with it, and what is sent to it is the result of that entry, or a failure.
use shard_zero.Prelude.{
  ℕ, ◌-◌, ◌<◌, ◌≤◌, ◌≡◌, ◌⊎◌, inl, inr, refl, sym, ap, ◌∙◌, subst, Option, some, [], ◌∷◌, ◌++◌,
  Text, Includes, Includes-append, arith,
}
use shard_zero.Prelude.Dict.{Dict}
use shard_zero.StateMachine.{Machine, no_result}
use shard_zero.Raft.Types.{Entry}
use shard_zero.Raft.Store.{Durable, entry_at, last_index}
use shard_zero.Raft.Store.Durability.{Extends, Extends-refl}
use shard_zero.Raft.Node.{Node, Outcome, Waiter, NodeError, unavailable, not_leader, failures}
use shard_zero.Raft.Commit.{run_entry, with_read}
use shard_zero.Raft.Commit.Replay.{replayed}

-- What was proposed: an entry of the log, for a read its key, and the machine that the log below the
-- entry gave when it was proposed.
pub record Claim : Type 0 where
  pub entry : Entry
  pub read_key : Option Text
  pub meets : Machine

-- What the entry answers, applied to a machine.
abbrev pub answer_of : Machine → Claim → Outcome
answer_of m c = let (m', out) = run_entry m c.entry.command in with_read m' c.read_key out

abbrev pub IsFailure : NodeError → Type 0
IsFailure e = (e ≡ unavailable) ⊎ ((id : Text) × (url : Text) × (e ≡ not_leader id url))

-- An outcome is a failure, or the answer of the entry on the machine that it was to meet, and then the
-- entry is committed: the commit index covers it, and it stands in the log unless it has been compacted.
pub data IsAnswer (c : Claim) (now : Durable) (out : Outcome) : Type 0 where
  fails :
      (e : NodeError)
      → IsFailure e
      → out ≡ record { result = no_result; error = some e }
      → IsAnswer c now out
  replies :
      c.entry.index ≤ now.commit
      → (now.base < c.entry.index → entry_at now c.entry.index ≡ c.entry)
      → out ≡ answer_of c.meets c
      → IsAnswer c now out

-- The waiter at `j` stands for an entry of the log that has not been applied.
pub record Waits (claims : ℕ → Claim) (n : Node) (j : ℕ) (w : Waiter) : Type 0 where
  pub made : w.done < n.channels
  pub index : (claims w.done).entry.index ≡ j
  pub read_key : (claims w.done).read_key ≡ w.read_key
  pub entry : entry_at n.store.state j ≡ (claims w.done).entry
  pub not_applied : n.applied < j
  pub in_log : j ≤ last_index n.store.state
  pub meets : replayed n.store (j - 1) ≡ (claims w.done).meets

-- `claims` gives what each channel was made for.
pub record Answers (claims : ℕ → Claim) (n : Node) : Type 0 where
  pub waiting : (j : ℕ) (w : Waiter) → Includes n.pending (j, w) → Waits claims n j w
  pub settled :
      (d : ℕ) (out : Outcome)
      → Includes n.outcomes (d, out)
      → (d < n.channels) × IsAnswer (claims d) n.store.state out

-- What a step does: the channels that were made keep what they were made for.
pub record Answering (n m : Node) : Type 0 where
  pub channels : n.channels ≤ m.channels
  pub answers :
      (claims : ℕ → Claim)
      → Answers claims n
      → (after : ℕ → Claim) × ((d : ℕ) → d < n.channels → after d ≡ claims d) × Answers after m

pub Answering-trans : {n m k : Node} → Answering n m → Answering m k → Answering n k
Answering-trans {n} {m} {k} p q = record {
  channels = omega (arith, p.channels, q.channels);
  answers = λ claims a.
      let (after, same, b) = p.answers claims a in
      let (later, same', c) = q.answers after b in
      (later, λ d made. same' d (omega (arith, p.channels, made)) ∙ same d made, c);
}

IsAnswer-Extends :
    {c : Claim} {s t : Durable} {out : Outcome} → Extends s t → IsAnswer c s out → IsAnswer c t out
IsAnswer-Extends x (fails e f k) = fails e f k
IsAnswer-Extends {c} x (replies h e k) =
    replies (omega (arith, h, x.commit_up))
      (λ above.
        x.committed_kept c.entry.index (omega (arith, above)) h
        ∙ e (omega (arith, above, x.base_up)))
      k

-- What is waited for was waited for before, and what was sent is an answer.
pub Answering-step :
    {n m : Node}
    → n.channels ≡ m.channels
    → Extends n.store.state m.store.state
    → ((j : ℕ) (w : Waiter) → Includes m.pending (j, w) → Includes n.pending (j, w))
    → ((j : ℕ) (w : Waiter)
        → Includes m.pending (j, w)
        → n.applied < j
        → j ≤ last_index n.store.state
        → (m.applied < j)
          × (entry_at m.store.state j ≡ entry_at n.store.state j)
          × (j ≤ last_index m.store.state)
          × (replayed m.store (j - 1) ≡ replayed n.store (j - 1)))
    → ((claims : ℕ → Claim) (d : ℕ) (out : Outcome)
        → Answers claims n
        → Includes m.outcomes (d, out)
        → Includes n.outcomes (d, out) ⊎ ((d < n.channels) × IsAnswer (claims d) m.store.state out))
    → Answering n m
Answering-step {n} {m} channels state before kept sent = record {
  channels = omega (arith, channels);
  answers = λ claims a. (
    claims,
    λ d made. refl,
    record {
      waiting = λ j w h.
          let waits = a.waiting j w (before j w h) in
          let (later, same, inside, machine) = kept j w h waits.not_applied waits.in_log in
          record {
            made = omega (arith, channels, waits.made);
            index = waits.index;
            read_key = waits.read_key;
            entry = same ∙ waits.entry;
            not_applied = later;
            in_log = inside;
            meets = machine ∙ waits.meets;
          };
      settled = λ d out h. elim (sent claims d out a h) [
        | inl old ↦
            let (made, answer) = a.settled d out old in
            (omega (arith, channels, made), IsAnswer-Extends state answer)
        | inr (made, answer) ↦ (omega (arith, channels, made), answer)
      ];
    },
  );
}

-- The waiters and what was sent stay, and so do the entries that are waited for.
pub Answering-kept :
    {n m : Node}
    → m.pending ≡ n.pending
    → m.outcomes ≡ n.outcomes
    → m.channels ≡ n.channels
    → m.applied ≡ n.applied
    → Extends n.store.state m.store.state
    → ((j : ℕ) (w : Waiter)
        → Includes n.pending (j, w)
        → n.applied < j
        → j ≤ last_index n.store.state
        → (entry_at m.store.state j ≡ entry_at n.store.state j)
          × (j ≤ last_index m.store.state)
          × (replayed m.store (j - 1) ≡ replayed n.store (j - 1)))
    → Answering n m
Answering-kept pending outcomes channels applied state kept =
    Answering-step (sym channels) state (λ j w h. rw pending at h)
      (λ j w h lo hi.
        let (same, inside, machine) = kept j w (rw pending at h) lo hi in
        (omega (arith, applied, lo), same, inside, machine))
      (λ claims d out a h. inl (rw outcomes at h))

-- A step that leaves all this.
pub Answering-still :
    {n m : Node}
    → m.pending ≡ n.pending
    → m.outcomes ≡ n.outcomes
    → m.channels ≡ n.channels
    → m.applied ≡ n.applied
    → m.store.state ≡ n.store.state
    → m.store.snapshot ≡ n.store.snapshot
    → Answering n m
Answering-still {n} {m} pending outcomes channels applied state snapshot =
    Answering-kept pending outcomes channels applied (rw state (Extends-refl n.store.state))
      (λ j w h lo hi. (rw state refl, rw state hi, rw (state, snapshot) refl))

-- A step that leaves out waiters and reads what was sent.
pub Answering-fewer :
    {n m : Node}
    → ((j : ℕ) (w : Waiter) → Includes m.pending (j, w) → Includes n.pending (j, w))
    → ((d : ℕ) (out : Outcome) → Includes m.outcomes (d, out) → Includes n.outcomes (d, out))
    → m.channels ≡ n.channels
    → m.applied ≡ n.applied
    → m.store.state ≡ n.store.state
    → m.store.snapshot ≡ n.store.snapshot
    → Answering n m
Answering-fewer {n} {m} pending outcomes channels applied state snapshot =
    Answering-step (sym channels) (rw state (Extends-refl n.store.state)) pending
      (λ j w h lo hi.
        (omega (arith, applied, lo), rw state refl, rw state hi, rw (state, snapshot) refl))
      (λ claims d out a h. inl (outcomes d out h))

Includes-failures :
    (e : NodeError) (pending : Dict ℕ Waiter) (d : ℕ) (out : Outcome)
    → Includes (failures e pending) (d, out)
    → (j : ℕ) × (w : Waiter) × Includes pending (j, w)
      × (w.done ≡ d)
      × (out ≡ record { result = no_result; error = some e })
unfolding failures
Includes-failures e [] d out h = absurd h
Includes-failures e ((j, w) ∷ rest) d out (inl same) =
    (j, w, inl refl, ap (λ (p : ℕ × Outcome). p.0) same, sym (ap (λ (p : ℕ × Outcome). p.1) same))
Includes-failures e (_ ∷ rest) d out (inr h) =
    let (j, w, here, same, failed) = Includes-failures e rest d out h in
    (j, w, inr here, same, failed)

-- All who wait get the same failure.
pub Answering-lapse :
    {n m : Node} (e : NodeError)
    → IsFailure e
    → m.pending ≡ []
    → m.outcomes ≡ n.outcomes ++ failures e n.pending
    → m.channels ≡ n.channels
    → m.store.state ≡ n.store.state
    → Answering n m
Answering-lapse {n} {m} e f pending outcomes channels state =
    Answering-step (sym channels) (rw state (Extends-refl n.store.state))
      (λ j w h. absurd (rw pending at h)) (λ j w h lo hi. absurd (rw pending at h))
      (λ claims d out a h.
        elim (Includes-append n.outcomes (failures e n.pending) (d, out) (rw outcomes at h)) [
          | inl old ↦ inl old
          | inr new ↦
              let (j, w, here, same, failed) = Includes-failures e n.pending d out new in
              inr (subst (λ k. k < n.channels) same (a.waiting j w here).made, fails e f failed)
        ])
