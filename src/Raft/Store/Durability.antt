-- ===== src/Raft/Store/Durability.antt =====
-- internal/raft/store.go: what `save` keeps and what it makes durable, on every branch.
use shard_zero.Prelude.{
  ℕ, ◌+◌, ◌-◌, ◌<◌, ◌≤◌, ◌≡◌, ◌≢◌, ◌⊎◌, refl, sym, ap, ◌∙◌, false, Option, none, some, List, [],
  ◌∷◌, ◌++◌, arith, length, length-take, take, get_or, get_or-take, get_or-append_left,
  get_or-append_right, Text, Bool-cases, Option-cases, inl, inr, ◌==◌,
}
use shard_zero.Raft.Types.{Entry, no_entry, Transaction}
use shard_zero.Raft.Store.{
  Durable, Store, Error, journal_failed, entry_at, entry, validate, transaction, accept_record,
  write_transaction, save,
}
use shard_zero.Raft.Store.Journal.{
  Wal, append_record, records-append_record, records-append_record_failed,
}
use shard_zero.Raft.Store.Shape.{IsLog}
use shard_zero.Raft.Store.Accept.{
  Passes, Keeps, Replaces, validate_record-Passes, validate_without, accept_without, accept-IsLog,
}

-- What `save` can do: refuse the record, fail to store it, or store and accept it.
pub data SaveCases (s : Store) (r : Transaction) (out : Store × Option Error) : Type 0 where
  refused : (e : Error) → out ≡ (s, some e) → SaveCases s r out
  lost :
      (w : Wal)
      → validate s.identity s.state r ≡ none
      → (w.records ≡ s.wal.records) ⊎ (w.records ≡ s.wal.records ++ (r ∷ []))
      → out ≡ (record s { wal = w }, some journal_failed)
      → SaveCases s r out
  saved :
      (w : Wal)
      → validate s.identity s.state r ≡ none
      → w.records ≡ s.wal.records ++ (r ∷ [])
      → out ≡ (record s { wal = w; state = accept_record s.state r }, none)
      → SaveCases s r out

write_cases :
    (s : Store) (r : Transaction)
    → r.checkpoint ≡ none
    → validate s.identity s.state r ≡ none
    → SaveCases s r (write_transaction s r)
unfolding write_transaction
write_cases s r e v = elim (Bool-cases (append_record s.wal r).1) [
  | inl written ↦
      saved (append_record s.wal r).0 v (records-append_record s.wal r written)
        (rw (written, accept_without (record s { wal = (append_record s.wal r).0 }) r e))
  | inr failed ↦
      lost (append_record s.wal r).0 v (records-append_record_failed s.wal r failed) (rw failed)
]

module _ (s : Store) (term : ℕ) (vote : Text) (commit from : ℕ) (entries : List Entry) where
  abbrev the_record : Transaction
  the_record = transaction s term vote commit from entries

  save_refused :
      (e : Error)
      → validate s.identity s.state the_record ≡ some e
      → save s term vote commit from entries ≡ (s, some e)
  unfolding save
  save_refused e v = rw (v, save)

  save_passed :
      validate s.identity s.state the_record ≡ none
      → save s term vote commit from entries ≡ write_transaction s the_record
  unfolding save
  save_passed v = rw (v, save)

  pub save_cases : SaveCases s the_record (save s term vote commit from entries)
  save_cases = elim (Option-cases (validate s.identity s.state the_record)) [
    | inr (e, v) ↦ refused e (save_refused e v)
    | inl v ↦ rw (save_passed v) (write_cases s the_record refl v)
  ]

accept_record_below :
    (s : Durable) (r : Transaction) (i : ℕ)
    → Replaces s r
    → s.base ≤ i
    → i < r.from
    → entry_at (accept_record s r) i ≡ entry_at s i
unfolding accept_record
accept_record_below s r i new lo hi =
    let replacing : (r.from == 0) ≡ false = ground arith in
    rw replacing (
      get_or-append_left (take (r.from - s.base) s.log) r.entries (i - s.base) no_entry
        (omega (arith, length-take (r.from - s.base) s.log, new.no_gap))
      ∙ get_or-take (r.from - s.base) s.log (i - s.base) no_entry (omega arith))

accept_record-entry :
    (s : Durable) (r : Transaction) (i : ℕ)
    → Keeps s r ⊎ Replaces s r
    → s.base ≤ i
    → i ≤ s.commit
    → entry_at (accept_record s r) i ≡ entry_at s i
accept_record-entry s r i (inl same) lo hi = unfold accept_record in rw same.no_suffix
accept_record-entry s r i (inr new) lo hi =
    accept_record_below s r i new lo (omega (arith, new.above_commit))

accept_record-new :
    (s : Durable) (r : Transaction) (j : ℕ)
    → IsLog s
    → Replaces s r
    → j < length r.entries
    → entry_at (accept_record s r) (r.from + j) ≡ get_or r.entries j no_entry
unfolding accept_record
accept_record-new s r j h new inside =
    let replacing : (r.from == 0) ≡ false = ground (arith, new.above_commit) in
    rw replacing (
      get_or-append_right (take (r.from - s.base) s.log) r.entries (r.from + j - s.base) j no_entry
        (omega (
          arith,
          length-take (r.from - s.base) s.log,
          new.above_commit,
          new.no_gap,
          h.base_committed,
        )))

pub passes :
    (s : Store) (r : Transaction)
    → r.checkpoint ≡ none
    → validate s.identity s.state r ≡ none
    → Passes s.identity s.state r
passes s r e v =
    validate_record-Passes s.identity s.state r (sym (validate_without s.identity s.state r e) ∙ v)

-- How the durable state after an operation stands to the state before it: terms and the commit
-- index never go back, a vote given in a term is kept for that term, and every committed entry that
-- the log still holds is the entry that it was.
pub record Extends (s t : Durable) : Type 0 where
  pub term_up : s.term ≤ t.term
  pub commit_up : s.commit ≤ t.commit
  pub one_vote : t.term ≡ s.term → s.vote ≢ [] → t.vote ≡ s.vote
  pub base_up : s.base ≤ t.base
  pub committed_kept : (i : ℕ) → t.base ≤ i → i ≤ s.commit → entry_at t i ≡ entry_at s i

pub Extends-refl : (s : Durable) → Extends s s
Extends-refl s = record {
  term_up = omega arith;
  commit_up = omega arith;
  one_vote = λ _ _. refl;
  base_up = omega arith;
  committed_kept = λ i _ _. refl;
}

pub Extends-trans : {s t u : Durable} → Extends s t → Extends t u → Extends s u
Extends-trans {s} {t} {u} p q = record {
  term_up = omega (arith, p.term_up, q.term_up);
  commit_up = omega (arith, p.commit_up, q.commit_up);
  one_vote = λ same voted.
      let early : t.term ≡ s.term = omega (arith, p.term_up, q.term_up) in
      let late : u.term ≡ t.term = omega (arith, p.term_up, q.term_up) in
      let kept : t.vote ≡ s.vote = p.one_vote early voted in
      q.one_vote late (λ e. voted (sym kept ∙ e)) ∙ kept;
  base_up = omega (arith, p.base_up, q.base_up);
  committed_kept = λ i lo hi.
      q.committed_kept i lo (omega (arith, p.commit_up))
      ∙ p.committed_kept i (omega (arith, q.base_up)) hi;
}

accept_record-Extends :
    (identity : Text) (s : Durable) (r : Transaction)
    → IsLog s
    → Passes identity s r
    → Extends s (accept_record s r)
unfolding accept_record
accept_record-Extends identity s r h w = record {
  term_up = w.term_up;
  commit_up = w.commit_up;
  one_vote = w.one_vote;
  base_up = omega arith;
  committed_kept = λ i lo hi. accept_record-entry s r i w.log lo hi;
}

module _ (s : Store) (term : ℕ) (vote : Text) (commit from : ℕ) (entries : List Entry) where
  abbrev out : Store × Option Error
  out = save s term vote commit from entries

  -- On a log with its shape, `save` on every branch keeps the shape, never takes back the term or the
  -- commit index, keeps a vote within its term, and keeps every committed entry.
  pub save-Extends : IsLog s.state → Extends s.state out.0.state × IsLog out.0.state
  save-Extends h = go (save_cases s term vote commit from entries)
    where
      go :
          SaveCases s (transaction s term vote commit from entries) out
          → Extends s.state out.0.state × IsLog out.0.state
      go (refused e k) = rw k (Extends-refl s.state, h)
      go (lost w _ _ k) = rw k (Extends-refl s.state, h)
      go (saved w v _ k) = rw k (
        accept_record-Extends s.identity s.state _ h (passes s _ refl v),
        rw (accept_without s (transaction s term vote commit from entries) refl) at
            (accept-IsLog s _ v h),
      )

  -- On a log with its shape, if `save` reports no error, the state has the term, the vote and the
  -- commit index that it was given and the new entries stand in the log from `from` on; if it reports
  -- one, the state is the one before.
  pub save_outcome :
      IsLog s.state
      → ((out.1 ≡ none)
          × (out.0.state.term ≡ term)
          × (out.0.state.vote ≡ vote)
          × (out.0.state.commit ≡ commit)
          × ((j : ℕ) → j < length entries → entry out.0 (from + j) ≡ get_or entries j no_entry))
        ⊎ ((out.1 ≢ none) × (out.0.state ≡ s.state))
  unfolding entry
  save_outcome h = go (save_cases s term vote commit from entries)
    where
      appended :
          (r : Transaction) (j : ℕ)
          → Keeps s.state r ⊎ Replaces s.state r
          → j < length r.entries
          → entry_at (accept_record s.state r) (r.from + j) ≡ get_or r.entries j no_entry
      appended r j (inl same) inside = absurd (omega (arith, ap length same.no_entries))
      appended r j (inr new) inside = accept_record-new s.state r j h new inside

      go :
          SaveCases s (transaction s term vote commit from entries) out
          → ((out.1 ≡ none)
              × (out.0.state.term ≡ term)
              × (out.0.state.vote ≡ vote)
              × (out.0.state.commit ≡ commit)
              × ((j : ℕ)
                  → j < length entries
                  → entry_at out.0.state (from + j) ≡ get_or entries j no_entry))
            ⊎ ((out.1 ≢ none) × (out.0.state ≡ s.state))
      go (refused e k) = rw k (inr (λ x. cc, refl))
      go (lost w _ _ k) = rw k (inr (λ x. cc, refl))
      go (saved w v _ k) = rw k (
          inl (
            refl,
            (unfold accept_record in refl),
            (unfold accept_record in refl),
            (unfold accept_record in refl),
            λ j inside.
                appended (transaction s term vote commit from entries) j (passes s _ refl v).log
                  inside,
          ))

  -- `save` never moves the base.
  pub base-save : out.0.state.base ≡ s.state.base
  base-save = go (save_cases s term vote commit from entries)
    where
      go :
          SaveCases s (transaction s term vote commit from entries) out
          → out.0.state.base ≡ s.state.base
      go (refused e k) = rw k
      go (lost w _ _ k) = rw k
      go (saved w v _ k) = rw k (unfold accept_record in refl)

  -- `save` never changes the snapshot.
  pub snapshot-save : out.0.snapshot ≡ s.snapshot
  snapshot-save = go (save_cases s term vote commit from entries)
    where
      go :
          SaveCases s (transaction s term vote commit from entries) out
          → out.0.snapshot ≡ s.snapshot
      go (refused e k) = rw k
      go (lost w _ _ k) = rw k
      go (saved w v _ k) = rw k

  -- Without a suffix, the log stays as it is.
  pub log-save : from ≡ 0 → out.0.state.log ≡ s.state.log
  log-save z = go (save_cases s term vote commit from entries)
    where
      go :
          SaveCases s (transaction s term vote commit from entries) out
          → out.0.state.log ≡ s.state.log
      go (refused e k) = rw k
      go (lost w _ _ k) = rw k
      go (saved w v _ k) = rw k (unfold accept_record in rw z)

  -- The entries below a suffix stay as they are.
  pub entry-save_below :
      (i : ℕ)
      → s.state.base ≤ i
      → (from ≡ 0) ⊎ (i < from)
      → entry_at out.0.state i ≡ entry_at s.state i
  entry-save_below i lo hi = go (save_cases s term vote commit from entries)
    where
      kept :
          (r : Transaction)
          → Keeps s.state r ⊎ Replaces s.state r
          → (r.from ≡ 0) ⊎ (i < r.from)
          → entry_at (accept_record s.state r) i ≡ entry_at s.state i
      kept r (inl same) hi = unfold accept_record in rw same.no_suffix
      kept r (inr new) (inl z) = absurd (omega (arith, new.above_commit))
      kept r (inr new) (inr below) = accept_record_below s.state r i new lo below

      go :
          SaveCases s (transaction s term vote commit from entries) out
          → entry_at out.0.state i ≡ entry_at s.state i
      go (refused e k) = rw k
      go (lost w _ _ k) = rw k
      go (saved w v _ k) =
          rw k (kept (transaction s term vote commit from entries) (passes s _ refl v).log hi)
