-- ===== src/Raft/Store/Accept.antt =====
-- internal/raft/store.go: a record that `validate` passes keeps the shape of the log.
use shard_zero.Prelude.{
  ℕ, suc, ◌+◌, ◌-◌, ◌<◌, ◌≤◌, ◌≡◌, ◌≢◌, ◌⊎◌, refl, sym, ◌∙◌, subst, true, false, none, some, List,
  [], ◌∷◌, ◌++◌, arith, length, length-append, length-take, drop, take, get_or, Text, text_eq_iff,
  Bool-cases, Option-cases, inl, inr, ◌==◌,
}
use shard_zero.Raft.Types.{Entry, no_entry, Checkpoint, Transaction}
use shard_zero.Raft.Store.{
  Durable, Store, bad_entry, bad_checkpoint_log, entry_at, first_entry, is_empty, validate_entries,
  validate_checkpoint, validate_replacement, validate_record, validate, accept_record,
  accept_checkpoint, accept,
}
use shard_zero.Raft.Store.Shape.{
  Chain, IsLog, validate_entries-Chain, Chain-mono, Chain-replace, index-Chain,
}

-- What `validate` makes sure of about a suffix.
pub record Replaces (s : Durable) (r : Transaction) : Type 0 where
  pub above_commit : s.commit < r.from
  pub no_gap : r.from ≤ s.base + length s.log
  pub entries :
      validate_entries bad_entry r.term r.from (entry_at s (r.from - 1)).term r.entries ≡ none
  pub commit_in : r.commit < r.from + length r.entries

pub record Keeps (s : Durable) (r : Transaction) : Type 0 where
  pub no_suffix : r.from ≡ 0
  pub no_entries : r.entries ≡ []
  pub commit_in : r.commit < s.base + length s.log

-- What `validate` makes sure of about a record without a checkpoint.
pub record Passes (identity : Text) (s : Durable) (r : Transaction) : Type 0 where
  pub ours : r.identity ≡ identity
  pub term_up : s.term ≤ r.term
  pub commit_up : s.commit ≤ r.commit
  pub one_vote : r.term ≡ s.term → s.vote ≢ [] → r.vote ≡ s.vote
  pub log : Keeps s r ⊎ Replaces s r

is_empty-nil : (es : List Entry) → is_empty es ≡ true → es ≡ []
is_empty-nil [] h = refl
is_empty-nil (e ∷ es) h = cc

module _ (identity : Text) (s : Durable) (r : Transaction)
    (h : validate_record identity s r ≡ none) where
  validate_record-log : Keeps s r ⊎ Replaces s r
  unfolding validate_record validate_replacement
  validate_record-log = elim (Bool-cases (r.from == 0)) [
    | inl e ↦ inl (record {
      no_suffix = ground arith;
      no_entries = ground (arith, is_empty-nil r.entries);
      commit_in = ground arith;
    })
    | inr e ↦ inr (record {
      above_commit = ground arith;
      no_gap = ground arith;
      entries = ground arith;
      commit_in = ground arith;
    })
  ]

  pub validate_record-Passes : Passes identity s r
  unfolding validate_record
  validate_record-Passes = record {
    ours = ground (arith, text_eq_iff r.identity identity);
    term_up = ground arith;
    commit_up = ground arith;
    one_vote = λ t v. ground (arith, text_eq_iff s.vote [], text_eq_iff r.vote s.vote);
    log = validate_record-log;
  }

-- A log that is `p ∷ xs` from `base` on, and a suffix that starts `k + 1` entries above `base`.
module _ (term base k : ℕ) (p : Entry) (xs es : List Entry) (at_base : p.index ≡ base)
    (inside : k ≤ length xs) (c : Chain term p xs)
    (new : validate_entries bad_entry term (base + suc k) (get_or (p ∷ xs) k no_entry).term es
      ≡ none) where
  replaced-Chain : Chain term p (take k xs ++ es)
  replaced-Chain = Chain-replace term k p no_entry xs es inside c (
      validate_entries-Chain bad_entry term (base + suc k) _ (get_or (p ∷ xs) k no_entry) es new
        (omega (arith, index-Chain term k p no_entry xs inside c)) refl)

replace_log :
    (term base from : ℕ) (log es : List Entry)
    → 0 < length log
    → (first_entry log).index ≡ base
    → base < from
    → from ≤ base + length log
    → Chain term (first_entry log) (drop 1 log)
    → validate_entries bad_entry term from (get_or log (from - 1 - base) no_entry).term es ≡ none
    → let l = take (from - base) log ++ es in
      (0 < length l)
      × ((first_entry l).index ≡ base)
      × Chain term (first_entry l) (drop 1 l)
      × (base + length l ≡ from + length es)
replace_log term base from [] es n i lo hi c v = elim n [ ]
replace_log term base from (p ∷ xs) es n i lo hi c v = rw offset (
  omega arith,
  i,
  replaced-Chain term base k p xs es i (omega arith) c (
      subst (λ f. validate_entries bad_entry term f (get_or (p ∷ xs) k no_entry).term es ≡ none)
        from_eq
        (subst
          (λ j. validate_entries bad_entry term from (get_or (p ∷ xs) j no_entry).term es ≡ none)
          k_eq v)),
  omega (arith, length-append (take k xs) es, length-take k xs),
)
  where
    k : ℕ
    k = from - base - 1

    offset : from - base ≡ suc k
    offset = omega arith

    from_eq : from ≡ base + suc k
    from_eq = omega arith

    k_eq : from - 1 - base ≡ k
    k_eq = omega arith

accept_record-IsLog :
    (identity : Text) (s : Durable) (r : Transaction)
    → Passes identity s r
    → IsLog s
    → IsLog (accept_record s r)
accept_record-IsLog identity s r w h = elim w.log [
  | inl same ↦
      unfold accept_record in
      rw same.no_suffix (record {
        nonempty = h.nonempty;
        sentinel = h.sentinel;
        chain = Chain-mono s.term r.term _ _ w.term_up h.chain;
        base_committed = omega arith;
        commit_in = omega arith;
      })
  | inr new ↦
      let (n, i, c, l) =
        replace_log r.term s.base r.from s.log r.entries h.nonempty h.sentinel (omega arith)
          new.no_gap (Chain-mono s.term r.term _ _ w.term_up h.chain) new.entries in
      unfold accept_record in
      rw (positive r.from (omega arith)) (record {
        nonempty = n;
        sentinel = i;
        chain = c;
        base_committed = omega arith;
        commit_in = omega arith;
      })
]
  where
    positive : (n : ℕ) → 0 < n → (n == 0) ≡ false
    positive n p = ground arith

-- What `validate` makes sure of about a record with a checkpoint.
pub record CheckpointPasses (s : Durable) (c : Checkpoint) : Type 0 where
  pub base_up : s.base ≤ c.index
  pub term_up : s.term ≤ c.raft_term
  pub commit_up : s.commit ≤ c.commit
  pub base_committed : c.index ≤ c.commit
  pub nonempty : 0 < length c.log
  pub sentinel_index : (first_entry c.log).index ≡ c.index
  pub sentinel_term : (first_entry c.log).term ≡ c.term
  pub entries :
      validate_entries bad_checkpoint_log c.raft_term (c.index + 1) c.term (drop 1 c.log) ≡ none
  pub commit_in : c.commit ≤ c.index + (length c.log - 1)

nonempty_log : (es : List Entry) → is_empty es ≡ false → 0 < length es
nonempty_log [] h = cc
nonempty_log (e ∷ es) h = omega arith

pub validate_checkpoint-CheckpointPasses :
    (identity : Text) (s : Durable) (r : Transaction) (c : Checkpoint)
    → validate_checkpoint identity s r c ≡ none
    → CheckpointPasses s c
unfolding validate_checkpoint
validate_checkpoint-CheckpointPasses identity s r c h = record {
  base_up = ground arith;
  term_up = ground arith;
  commit_up = ground arith;
  base_committed = ground arith;
  nonempty = ground (arith, nonempty_log c.log);
  sentinel_index = ground arith;
  sentinel_term = ground arith;
  entries = ground arith;
  commit_in = ground arith;
}

accept_checkpoint-IsLog :
    (s : Store) (c : Checkpoint) → CheckpointPasses s.state c → IsLog (accept_checkpoint s c).state
unfolding accept_checkpoint
accept_checkpoint-IsLog s c w = record {
  nonempty = w.nonempty;
  sentinel = w.sentinel_index;
  chain =
      validate_entries-Chain bad_checkpoint_log c.raft_term (c.index + 1) c.term _ _ w.entries
        (omega (arith, w.sentinel_index)) w.sentinel_term;
  base_committed = w.base_committed;
  commit_in = w.commit_in;
}

-- `validate` and `accept` on a record with a checkpoint and on one without.
pub record_cases :
    (r : Transaction) → ((c : Checkpoint) × (r.checkpoint ≡ some c)) ⊎ (r.checkpoint ≡ none)
record_cases r = elim (Option-cases r.checkpoint) [ inl e ↦ inr e | inr e ↦ inl e ]

module _ (identity : Text) (s : Durable) (r : Transaction) where
  pub validate_with :
      (c : Checkpoint)
      → r.checkpoint ≡ some c
      → validate identity s r ≡ validate_checkpoint identity s r c
  unfolding validate
  validate_with c e = ground arith

  pub validate_without : r.checkpoint ≡ none → validate identity s r ≡ validate_record identity s r
  unfolding validate
  validate_without e = ground arith

module _ (s : Store) (r : Transaction) where
  pub accept_with : (c : Checkpoint) → r.checkpoint ≡ some c → accept s r ≡ accept_checkpoint s c
  unfolding accept
  accept_with c e = ground arith

  pub accept_without :
      r.checkpoint ≡ none → accept s r ≡ record s { state = accept_record s.state r }
  unfolding accept
  accept_without e = ground arith

  -- A record that `validate` passes, of either kind, keeps the shape of the log: indexes that count
  -- up from the sentinel, terms that never go down nor pass the current term, valid commands, and a
  -- commit index inside the log.
  pub accept-IsLog : validate s.identity s.state r ≡ none → IsLog s.state → IsLog (accept s r).state
  accept-IsLog v h = elim (record_cases r) [
    | inl (c, e) ↦ rw (accept_with c e) (
        accept_checkpoint-IsLog s c (
          validate_checkpoint-CheckpointPasses s.identity s.state r c
            (sym (validate_with s.identity s.state r c e) ∙ v)))
    | inr e ↦ rw (accept_without e) (
        accept_record-IsLog s.identity s.state r
          (validate_record-Passes s.identity s.state r
            (sym (validate_without s.identity s.state r e) ∙ v))
          h)
  ]
