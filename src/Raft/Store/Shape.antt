-- ===== src/Raft/Store/Shape.antt =====
-- internal/raft/store.go: the shape of a log, and what the loop over new entries establishes.
use shard_zero.Prelude.{
  ◌-◌, ℕ, zero, suc, ◌+◌, ◌<◌, ◌≤◌, ◌≡◌, ap, none, List, [], ◌∷◌, ◌++◌, arith, length, drop, take,
  get_or,
}
use shard_zero.Raft.Types.{Entry, no_entry}
use shard_zero.Raft.Store.{
  entry_at, Durable, Error, validate_entries, command_error, last_index, first_entry,
}

-- The entries that may follow `p` in a log at term `term`: their indexes count up, their terms go
-- up to at most `term`, and their commands are valid.
abbrev pub Chain : ℕ → Entry → List Entry → Type 0
Chain term p [] = Unit
Chain term p (e ∷ es) =
    (e.index ≡ p.index + 1)
    × (0 < e.term)
    × (p.term ≤ e.term)
    × (e.term ≤ term)
    × (command_error e.command ≡ none)
    × Chain term e es

-- A log with its sentinel at `base`, of which a prefix is committed.
pub record IsLog (s : Durable) : Type 0 where
  pub nonempty : 0 < length s.log
  pub sentinel : (first_entry s.log).index ≡ s.base
  pub chain : Chain s.term (first_entry s.log) (drop 1 s.log)
  pub base_committed : s.base ≤ s.commit
  pub commit_in : s.commit ≤ last_index s

-- What the loop accepts may follow an entry at `index - 1` with term `previous`.
pub validate_entries-Chain :
    (x : Error) (term index previous : ℕ) (p : Entry) (es : List Entry)
    → validate_entries x term index previous es ≡ none
    → p.index + 1 ≡ index
    → p.term ≡ previous
    → Chain term p es
unfolding validate_entries
validate_entries-Chain x term index previous p [] h i t = tt
validate_entries-Chain x term index previous p (e ∷ es) h i t =
    let rest = validate_entries-Chain x term (index + 1) e.term e es in ground (arith, rest)

pub Chain-mono : (t u : ℕ) (p : Entry) (es : List Entry) → t ≤ u → Chain t p es → Chain u p es
Chain-mono t u p [] h c = tt
Chain-mono t u p (e ∷ es) h c = (c.0, c.1, c.2, omega arith, c.4, Chain-mono t u e es h c.5)

-- A suffix may be replaced after the `k`-th entry.
pub Chain-replace :
    (term k : ℕ) (p d : Entry) (xs es : List Entry)
    → k ≤ length xs
    → Chain term p xs
    → Chain term (get_or (p ∷ xs) k d) es
    → Chain term p (take k xs ++ es)
Chain-replace term zero p d xs es h c n = n
Chain-replace term (suc k) p d [] es h c n = elim h [ ]
Chain-replace term (suc k) p d (x ∷ xs) es h c n =
    (c.0, c.1, c.2, c.3, c.4, Chain-replace term k x d xs es (omega arith) c.5 n)

-- The `k`-th entry of a chain has the index `k` above its first.
pub index-Chain :
    (term k : ℕ) (p d : Entry) (xs : List Entry)
    → k ≤ length xs
    → Chain term p xs
    → (get_or (p ∷ xs) k d).index ≡ p.index + k
index-Chain term zero p d xs h c = omega arith
index-Chain term (suc k) p d [] h c = elim h [ ]
index-Chain term (suc k) p d (x ∷ xs) h c =
    omega (arith, index-Chain term k x d xs (omega arith) c.5)

-- Its commands are valid.
pub command-Chain :
    (term k : ℕ) (p d : Entry) (xs : List Entry)
    → k < length xs
    → Chain term p xs
    → command_error (get_or (p ∷ xs) (suc k) d).command ≡ none
command-Chain term k p d [] h c = elim h [ ]
command-Chain term zero p d (x ∷ xs) h c = c.4
command-Chain term (suc k) p d (x ∷ xs) h c = command-Chain term k x d xs (omega arith) c.5

-- Every entry above the base has a valid command.
pub command-IsLog :
    (s : Durable) (index : ℕ)
    → IsLog s
    → s.base < index
    → index ≤ last_index s
    → command_error (entry_at s index).command ≡ none
command-IsLog s index h lo hi = go s.log h.nonempty h.chain (omega (arith, h.nonempty))
  where
    go :
        (l : List Entry)
        → 0 < length l
        → Chain s.term (first_entry l) (drop 1 l)
        → index ≤ s.base + (length l - 1)
        → command_error (get_or l (index - s.base) no_entry).command ≡ none
    go [] n c hi = elim n [ ]
    go (p ∷ xs) n c hi =
        let e : index - s.base ≡ suc (index - s.base - 1) = omega arith in
        rw e (command-Chain s.term (index - s.base - 1) p no_entry xs (omega arith) c)

-- Every entry has the index at which it stands.
pub index-IsLog :
    (s : Durable) (index : ℕ)
    → IsLog s
    → s.base ≤ index
    → index ≤ last_index s
    → (entry_at s index).index ≡ index
index-IsLog s index h lo hi = go s.log h.nonempty h.sentinel h.chain (omega (arith, h.nonempty))
  where
    go :
        (l : List Entry)
        → 0 < length l
        → (first_entry l).index ≡ s.base
        → Chain s.term (first_entry l) (drop 1 l)
        → index ≤ s.base + (length l - 1)
        → (get_or l (index - s.base) no_entry).index ≡ index
    go [] n e c hi = elim n [ ]
    go (p ∷ xs) n e c hi =
        omega (arith, index-Chain s.term (index - s.base) p no_entry xs (omega arith) c)

-- What reads as an entry with an index is in the log.
pub inside_log : (s : Durable) (index : ℕ) → 0 < (entry_at s index).index → index ≤ last_index s
inside_log s index h =
    let here : index - s.base < length s.log = go s.log (index - s.base) h in omega (arith, here)
  where
    go : (l : List Entry) (i : ℕ) → 0 < (get_or l i no_entry).index → i < length l
    go [] i h = elim h [ ]
    go (e ∷ es) zero h = omega arith
    go (e ∷ es) (suc i) h = omega (arith, go es i h)

-- An entry of a log that another log has too is inside that log.
pub inside_kept :
    (s t : Durable) (index : ℕ)
    → IsLog s
    → s.base < index
    → index ≤ last_index s
    → entry_at t index ≡ entry_at s index
    → index ≤ last_index t
inside_kept s t index h lo hi same =
    inside_log t index
      (omega (arith, index-IsLog s index h (omega arith) hi, ap (λ (e : Entry). e.index) same))
