-- ===== src/Raft/Rpc/Scanning.antt =====
-- internal/raft/rpc.go, AppendEntries: what the loop over the request's entries finds.
use shard_zero.Prelude.{
  ℕ, suc, ◌+◌, ◌<◌, ◌≤◌, ◌≡◌, refl, sym, ap, ◌∙◌, subst, true, ◌||◌, not, List, [], ◌∷◌, ◌++◌,
  arith, length, get_or, ltb, leb, ◌==◌, Bool-cases, inl, inr,
}
use shard_zero.Raft.Types.{Entry, no_entry, entry_eq, entry_eq_eq}
use shard_zero.Raft.Store.{Durable, entry_at, last_index}
use shard_zero.Raft.Node.{NodeError}
use shard_zero.Raft.Rpc.{Scan, nothing_new, new_from, scan_error, scan_entries}

-- The entries stand in the log from `index` on, but for those at or below the base, which a snapshot
-- has replaced.
abbrev pub Stands : Durable → ℕ → List Entry → Type 0
Stands s index [] = Unit
Stands s index (e ∷ es) = (s.base < index → entry_at s index ≡ e) × Stands s (index + 1) es

-- What the scan of `es` from `index` on says of the log.
pub data ScanCases (s : Durable) (index : ℕ) (es : List Entry) : Scan → Type 0 where
  refused : (e : NodeError) → ScanCases s index es (scan_error e)
  all_there : Stands s index es → ScanCases s index es nothing_new
  missing :
      (from : ℕ) (known rest : List Entry)
      → es ≡ known ++ rest
      → from ≡ index + length known
      → s.base < from
      → Stands s index known
      → ScanCases s index es (new_from from rest)

known_entry :
    (s : Durable) (index : ℕ) (e : Entry) (es : List Entry) (scan : Scan)
    → (s.base < index → entry_at s index ≡ e)
    → ScanCases s (index + 1) es scan
    → ScanCases s index (e ∷ es) scan
known_entry s index e es _ here (refused x) = refused x
known_entry s index e es _ here (all_there there) = all_there (here, there)
known_entry s index e es _ here (missing from known rest split at_from above there) =
    missing from (e ∷ known) rest (ap (λ l. e ∷ l) split) (omega (arith, at_from)) above
      (here, there)

pub scan_entries_lem :
    (s : Durable) (term index : ℕ) (es : List Entry)
    → ScanCases s index es (scan_entries s term index es)
unfolding scan_entries
scan_entries_lem s term index [] = all_there tt
scan_entries_lem s term index (e ∷ es) =
    elim (Bool-cases (not (e.index == index) || ltb term e.term || e.term == 0)) [
      | inl bad ↦ rw bad (refused _)
      | inr fine ↦ elim (Bool-cases (leb e.index s.base)) [
        | inl old ↦
            rw (fine, old)
              (known_entry s index e es _ (λ above. absurd (ground (arith, fine, old, above)))
                (scan_entries_lem s term (index + 1) es))
        | inr newer ↦
            elim (Bool-cases
              (ltb (last_index s) e.index || not ((entry_at s e.index).term == e.term))) [
                | inl lacking ↦
                    rw (fine, newer, lacking)
                      (missing e.index [] (e ∷ es) refl (ground (arith, fine))
                        (ground (arith, newer)) tt)
                | inr present ↦ elim (Bool-cases (not (entry_eq e (entry_at s e.index)))) [
                  | inl differs ↦ rw (fine, newer, present, differs) (refused _)
                  | inr same ↦
                      rw (fine, newer, present, same)
                        (known_entry s index e es _
                          (λ _. at_index s index e (ground (arith, fine)) (ground (arith, same)))
                          (scan_entries_lem s term (index + 1) es))
                ]
              ]
      ]
    ]
  where
    at_index :
        (s : Durable) (index : ℕ) (e : Entry)
        → e.index ≡ index
        → entry_eq e (entry_at s e.index) ≡ true
        → entry_at s index ≡ e
    at_index s index e i h = ap (entry_at s) (sym i) ∙ sym (entry_eq_eq e (entry_at s e.index) h)

module _ (s t : Durable) (same_base : t.base ≡ s.base) where
  -- Entries stand where the log is as it was.
  pub Stands-below :
      (from index : ℕ) (es : List Entry)
      → index + length es ≤ from
      → ((i : ℕ) → s.base ≤ i → i < from → entry_at t i ≡ entry_at s i)
      → Stands s index es
      → Stands t index es
  Stands-below from index [] inside kept there = tt
  Stands-below from index (e ∷ es) inside kept there = (
    λ above.
        kept index (omega (arith, same_base)) (omega arith) ∙ there.0 (omega (arith, same_base)),
    Stands-below from (index + 1) es (omega arith) kept there.1,
  )

-- Entries stand where they have been stored.
pub Stands-stored :
    (t : Durable) (from : ℕ) (es : List Entry)
    → ((j : ℕ) → j < length es → entry_at t (from + j) ≡ get_or es j no_entry)
    → Stands t from es
Stands-stored t from [] stored = tt
Stands-stored t from (e ∷ es) stored = (
  λ above. ap (entry_at t) (omega arith) ∙ stored 0 (omega arith),
  Stands-stored t (from + 1) es
      (λ j inside. ap (entry_at t) (omega arith) ∙ stored (suc j) (omega arith)),
)

pub Stands-append :
    (t : Durable) (index from : ℕ) (known rest : List Entry)
    → from ≡ index + length known
    → Stands t index known
    → Stands t from rest
    → Stands t index (known ++ rest)
Stands-append t index from [] rest at_from there new =
    subst (λ i. Stands t i rest) (omega (arith, at_from)) new
Stands-append t index from (e ∷ known) rest at_from there new =
    (there.0, Stands-append t (index + 1) from known rest (omega (arith, at_from)) there.1 new)
