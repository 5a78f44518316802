-- ===== src/Raft/Store/Validation.antt =====
-- internal/raft/store.go: the durable state, and `validate`.
use shard_zero.Prelude.{
  ℕ, ◌+◌, ◌-◌, Bool, true, false, ◌&&◌, ◌||◌, not, Option, none, some, List, [], ◌∷◌, Text, text_eq,
  length, drop, get_or, ltb, leb, ◌==◌, if◌then◌else◌,
}
use shard_zero.StateMachine
use shard_zero.StateMachine.{Command, Snapshot, restore}
use shard_zero.Raft.Types.{Entry, no_entry, Checkpoint, Transaction}

-- `durableState`
pub record Durable : Type 0 where
  pub term : ℕ
  pub vote : Text
  pub commit : ℕ
  pub base : ℕ
  pub log : List Entry

-- The errors of this file. `bad_command` and `bad_machine` pass on those of the state machine, and
-- `journal_failed` that of the journal.
pub data Error : Type 0 where
  bad_checkpoint_record bad_checkpoint_state bad_checkpoint_log checkpoint_commit : Error
  wrong_identity regressed vote_changed bad_replacement bad_entry stray_entries : Error
  commit_exceeds_log bad_checkpoint_index no_compaction journal_failed : Error
  bad_command bad_machine : StateMachine.Error → Error

-- The log before any record, with its sentinel.
abbrev pub empty_state : Durable
empty_state = record { term = 0; vote = []; commit = 0; base = 0; log = no_entry ∷ [] }

abbrev pub empty_snapshot : Snapshot
empty_snapshot = record { values = []; sessions = []; count = 0 }

-- An index out of range is a fault in Go. Here one past the log reads `no_entry`, and one below the
-- base the sentinel.
abbrev pub entry_at : Durable → ℕ → Entry
entry_at s index = get_or s.log (index - s.base) no_entry

abbrev pub last_index : Durable → ℕ
last_index s = s.base + (length s.log - 1)

abbrev pub command_error : Option Command → Option Error
command_error none = none
command_error (some c) = elim (StateMachine.validate c) [
  | none ↦ none
  | some e ↦ some (bad_command e)
]

-- The loop over new entries: they count up from `index`, and their terms go up from `previous` to
-- at most `term`. `refusal` is the error for one that does not.
unfoldable pub validate_entries : Error → ℕ → ℕ → ℕ → List Entry → Option Error
validate_entries refusal term index previous [] = none
validate_entries refusal term index previous (e ∷ es) =
    let rest = validate_entries refusal term (index + 1) e.term es in
    if not (e.index == index) || e.term == 0 || ltb term e.term || ltb e.term previous
    then some refusal
    else elim (command_error e.command) [ none ↦ rest | some x ↦ some x ]

abbrev pub first_entry : List Entry → Entry
first_entry [] = no_entry
first_entry (e ∷ es) = e

abbrev pub is_empty {ℓ} : {A : Type ℓ} → List A → Bool
is_empty [] = true
is_empty (_ ∷ _) = false

-- `validate` on a record with a checkpoint
unfoldable pub validate_checkpoint : Text → Durable → Transaction → Checkpoint → Option Error
validate_checkpoint identity s r c =
    if not (text_eq r.identity identity)
      || not (r.term == 0)
      || not (text_eq r.vote [])
      || not (r.commit == 0)
      || not (r.from == 0)
      || not (is_empty r.entries)
    then some bad_checkpoint_record
    else if ltb c.index s.base
        || ltb c.commit c.index
        || ltb c.raft_term s.term
        || ltb c.commit s.commit
        || is_empty c.log
        || not ((first_entry c.log).index == c.index)
        || not ((first_entry c.log).term == c.term)
    then some bad_checkpoint_state
    else elim (restore StateMachine.new c.machine).1 [
      | some e ↦ some (bad_machine e)
      | none ↦
          elim (validate_entries bad_checkpoint_log c.raft_term (c.index + 1) c.term
            (drop 1 c.log)) [
              | some e ↦ some e
              | none ↦
                  if ltb (c.index + (length c.log - 1)) c.commit
                  then some checkpoint_commit
                  else none
            ]
    ]

-- The checks of `validate` on the entries of a record, with the length of the log that it leaves.
unfoldable pub validate_replacement : Durable → Transaction → ℕ × Option Error
validate_replacement s r =
    let length' = s.base + length s.log in
    if not (r.from == 0)
    then (if leb r.from s.commit || ltb length' r.from then (length', some bad_replacement) else (
      r.from + length r.entries,
      validate_entries bad_entry r.term r.from (entry_at s (r.from - 1)).term r.entries,
    ))
    else (length', if is_empty r.entries then none else some stray_entries)

-- `validate` on a record without one
unfoldable pub validate_record : Text → Durable → Transaction → Option Error
validate_record identity s r =
    if not (text_eq r.identity identity)
    then some wrong_identity
    else if ltb r.term s.term || ltb r.commit s.commit
    then some regressed
    else if r.term == s.term && not (text_eq s.vote []) && not (text_eq r.vote s.vote)
    then some vote_changed
    else (let (length', error) = validate_replacement s r in
        elim error [
          | some e ↦ some e
          | none ↦ if leb length' r.commit then some commit_exceeds_log else none
        ])

unfoldable pub validate : Text → Durable → Transaction → Option Error
validate identity s r = elim r.checkpoint [
  | some c ↦ validate_checkpoint identity s r c
  | none ↦ validate_record identity s r
]
