-- ===== src/Raft/Store/Compaction.antt =====
-- internal/raft/store.go: `checkpoint` drops a committed prefix and loses nothing else.
use shard_zero.Prelude.{
  ℕ, ◌+◌, ◌-◌, ◌<◌, ◌≤◌, ◌≡◌, ◌≢◌, ◌⊎◌, refl, ap, ◌∙◌, true, false, Option, none, some, [], ◌∷◌,
  arith, Bool-cases, Option-cases, inl, inr, leb, ltb, ◌||◌, length-drop, drop, get_or, get_or-drop,
}
use shard_zero.StateMachine.{Snapshot}
use shard_zero.Raft.Types.{no_entry, Transaction, Checkpoint}
use shard_zero.Raft.Store.{
  Durable, Store, Error, bad_checkpoint_index, no_compaction, journal_failed, entry_at, last_index,
  validate, checkpoint_record, accept_checkpoint, accept, write_checkpoint, checkpoint,
}
use shard_zero.Raft.Store.Journal.{
  Wal, replace_records, records-replace_records, records-replace_records_failed,
}
use shard_zero.Raft.Store.Shape.{IsLog}
use shard_zero.Raft.Store.Accept.{accept-IsLog, accept_with}

-- What `checkpoint` can do.
pub data CheckpointCases (s : Store) (r : Transaction) (index : ℕ) (out : Store × Option Error)
    : Type 0 where
  refused : (e : Error) → out ≡ (s, some e) → CheckpointCases s r index out
  lost :
      (w : Wal)
      → (w.records ≡ s.wal.records) ⊎ (w.records ≡ r ∷ [])
      → out ≡ (record s { wal = w }, some journal_failed)
      → CheckpointCases s r index out
  compacted :
      (w : Wal)
      → s.state.base < index
      → index ≤ s.state.commit
      → index ≤ last_index s.state
      → validate s.identity s.state r ≡ none
      → w.records ≡ r ∷ []
      → out ≡ (accept (record s { wal = w }) r, none)
      → CheckpointCases s r index out

module _ (s : Store) (machine : Snapshot) (index : ℕ) where
  abbrev r : Transaction
  r = checkpoint_record s machine index

  write_cases :
      s.state.base < index
      → index ≤ s.state.commit
      → index ≤ last_index s.state
      → validate s.identity s.state r ≡ none
      → CheckpointCases s r index (write_checkpoint s r)
  unfolding write_checkpoint
  write_cases lo hi inside v = elim (Bool-cases s.wal.compacts) [
    | inr no_way ↦ refused no_compaction (rw (no_way, write_checkpoint))
    | inl can ↦ elim (Bool-cases (replace_records s.wal (r ∷ [])).1) [
      | inl stored ↦
          compacted (replace_records s.wal (r ∷ [])).0 lo hi inside v
            (records-replace_records s.wal (r ∷ []) stored) (ground arith)
      | inr failed ↦
          lost (replace_records s.wal (r ∷ [])).0
            (records-replace_records_failed s.wal (r ∷ []) failed) (ground arith)
    ]
  ]

  out_of_range :
      (leb index s.state.base || ltb s.state.commit index || ltb (last_index s.state) index) ≡ true
      → checkpoint s machine index ≡ (s, some bad_checkpoint_index)
  unfolding checkpoint
  out_of_range h = rw h

  invalid :
      (e : Error)
      → (leb index s.state.base || ltb s.state.commit index || ltb (last_index s.state) index)
        ≡ false
      → validate s.identity s.state r ≡ some e
      → checkpoint s machine index ≡ (s, some e)
  unfolding checkpoint
  invalid e h v = rw h (rw (v, checkpoint))

  passed :
      (leb index s.state.base || ltb s.state.commit index || ltb (last_index s.state) index) ≡ false
      → validate s.identity s.state r ≡ none
      → checkpoint s machine index ≡ write_checkpoint s r
  unfolding checkpoint
  passed h v = rw h (rw (v, checkpoint))

  pub checkpoint_cases : CheckpointCases s r index (checkpoint s machine index)
  checkpoint_cases =
      elim (Bool-cases
        (leb index s.state.base || ltb s.state.commit index || ltb (last_index s.state) index)) [
          | inl h ↦ refused bad_checkpoint_index (out_of_range h)
          | inr h ↦ elim (Option-cases (validate s.identity s.state r)) [
            | inr (e, v) ↦ refused e (invalid e h v)
            | inl v ↦ rw (passed h v) (write_cases (ground arith) (ground arith) (ground arith) v)
          ]
        ]

compacted-entry :
    (s : Durable) (index i : ℕ)
    → s.base ≤ index
    → index ≤ i
    → get_or (drop (index - s.base) s.log) (i - index) no_entry ≡ entry_at s i
compacted-entry s index i lo hi =
    let e : index - s.base + (i - index) ≡ i - s.base = omega arith in
    get_or-drop (index - s.base) s.log (i - index) no_entry ∙ ap (λ k. get_or s.log k no_entry) e

-- What a compaction to `index` leaves.
pub record Compacts (s : Durable) (index : ℕ) (t : Durable) : Type 0 where
  pub above : s.base < index
  pub base : t.base ≡ index
  pub term : t.term ≡ s.term
  pub vote : t.vote ≡ s.vote
  pub commit : t.commit ≡ s.commit
  pub last : last_index t ≡ last_index s
  pub entries : (i : ℕ) → index ≤ i → entry_at t i ≡ entry_at s i

module _ (s : Store) (machine : Snapshot) (index : ℕ) where
  abbrev out : Store × Option Error
  out = checkpoint s machine index

  abbrev value : Checkpoint
  value = record {
    index = index;
    term = (entry_at s.state index).term;
    machine = machine;
    raft_term = s.state.term;
    vote = s.state.vote;
    commit = s.state.commit;
    log = drop (index - s.state.base) s.state.log;
  }

  accepted :
      (w : Wal)
      → accept (record s { wal = w }) (checkpoint_record s machine index)
        ≡ accept_checkpoint (record s { wal = w }) value
  accepted w = accept_with (record s { wal = w }) (checkpoint_record s machine index) value refl

  accept_checkpoint-Compacts :
      (w : Wal)
      → s.state.base < index
      → index ≤ last_index s.state
      → Compacts s.state index (accept_checkpoint (record s { wal = w }) value).state
  unfolding accept_checkpoint
  accept_checkpoint-Compacts w lo inside = record {
    above = lo;
    base = refl;
    term = refl;
    vote = refl;
    commit = refl;
    last = omega (arith, length-drop (index - s.state.base) s.state.log);
    entries = λ i hi. compacted-entry s.state index i (omega arith) hi;
  }

  -- On a log with its shape, a `checkpoint` with no error keeps the shape, the term, the vote, the
  -- commit index, the last index and every entry from `index` on, and moves the base to `index`; its
  -- snapshot is the machine's; one with an error keeps the state and the snapshot.
  pub checkpoint_outcome :
      IsLog s.state
      → ((out.1 ≡ none)
          × Compacts s.state index out.0.state
          × IsLog out.0.state
          × (out.0.snapshot ≡ machine))
        ⊎ ((out.1 ≢ none) × (out.0.state ≡ s.state) × (out.0.snapshot ≡ s.snapshot))
  checkpoint_outcome h = go (checkpoint_cases s machine index)
    where
      go :
          CheckpointCases s (checkpoint_record s machine index) index out
          → ((out.1 ≡ none)
              × Compacts s.state index out.0.state
              × IsLog out.0.state
              × (out.0.snapshot ≡ machine))
            ⊎ ((out.1 ≢ none) × (out.0.state ≡ s.state) × (out.0.snapshot ≡ s.snapshot))
      go (refused e k) = rw k (inr (λ x. cc, refl, refl))
      go (lost w _ k) = rw k (inr (λ x. cc, refl, refl))
      go (compacted w lo hi inside v rs k) = rw k (
          inl (
            refl,
            rw (accepted w) (accept_checkpoint-Compacts w lo inside),
            accept-IsLog (record s { wal = w }) _ v h,
            rw (accepted w) (unfold accept_checkpoint in refl),
          ))
