-- ===== src/StateMachine/Invariant.antt =====
-- internal/statemachine/machine.go: what holds of every machine that commands have built.
use shard_zero.Prelude.{
  ◌⊎◌, inl, inr, ◌≡◌, refl, true, none, arith, Text, text_eq_iff, List, [], ◌∷◌,
}
use shard_zero.Prelude.Dict.{
  Dict, put, remove, text_key, HasUniqueKeys, HasUniqueKeys-put, HasUniqueKeys-remove, AllEntries,
  AllEntries-put, AllEntries-remove,
}
use shard_zero.StateMachine.{
  Command, Session, Machine, new, is_value, session_error, validate, apply, commit_command,
  run_command,
}
use shard_zero.StateMachine.Checks.{
  CheckCases, refused, duplicate, fresh, check_cases, apply_fresh, apply_refused, apply_duplicate,
}
use shard_zero.StateMachine.Retries.{apply_all}

-- Keys stand once, values and keys are within the limits, and each session is that of a valid
-- command of its client.
pub record IsValid (m : Machine) : Type 0 where
  pub unique_values : HasUniqueKeys m.values
  pub unique_sessions : HasUniqueKeys m.sessions
  pub values_fit : AllEntries (λ k v. is_value k v ≡ true) m.values
  pub sessions_fit : AllEntries (λ id s. session_error id s ≡ none) m.sessions

pub new-IsValid : IsValid new
new-IsValid = record {
  unique_values = tt;
  unique_sessions = tt;
  values_fit = tt;
  sessions_fit = tt;
}

command_value_fits : (c : Command) → validate c ≡ none → is_value c.key c.value ≡ true
unfolding validate is_value
command_value_fits c v = ground arith

session_fits :
    (c : Command) (s : Session)
    → validate c ≡ none
    → s.command ≡ c
    → session_error c.client_id s ≡ none
unfolding session_error
session_fits c s v e = ground (arith, text_eq_iff c.client_id s.command.client_id)

run_command_cases :
    (values : Dict Text Text) (c : Command)
    → ((run_command values c).0 ≡ values)
      ⊎ ((run_command values c).0 ≡ put values c.key c.value)
      ⊎ ((run_command values c).0 ≡ remove values c.key)
unfolding run_command
run_command_cases values c = ground arith

-- The values after a command are those before it, with the key set or removed.
run_command_induction :
    (P : Dict Text Text → Type 0) (values : Dict Text Text) (c : Command)
    → P values
    → P (put values c.key c.value)
    → P (remove values c.key)
    → P (run_command values c).0
run_command_induction P values c same set removed = elim (run_command_cases values c) [
  | inl e ↦ rw e same
  | inr (inl e) ↦ rw e set
  | inr (inr e) ↦ rw e removed
]

module _ (m : Machine) (c : Command) (v : validate c ≡ none) (h : IsValid m) where
  run_command_unique : HasUniqueKeys (run_command m.values c).0
  run_command_unique =
      run_command_induction (λ d. HasUniqueKeys d) m.values c h.unique_values
        (HasUniqueKeys-put m.values c.key c.value h.unique_values)
        (HasUniqueKeys-remove m.values c.key h.unique_values)

  run_command-fits : AllEntries (λ k w. is_value k w ≡ true) (run_command m.values c).0
  run_command-fits =
      run_command_induction (λ d. AllEntries (λ k w. is_value k w ≡ true) d) m.values c h.values_fit
        (AllEntries-put _ m.values c.key c.value (command_value_fits c v) h.values_fit)
        (AllEntries-remove _ m.values c.key h.values_fit)

  commit_command-IsValid : IsValid (commit_command m c).0
  unfolding commit_command
  commit_command-IsValid = record {
    unique_values = run_command_unique;
    unique_sessions = HasUniqueKeys-put m.sessions c.client_id _ h.unique_sessions;
    values_fit = run_command-fits;
    sessions_fit =
        AllEntries-put (λ id s. session_error id s ≡ none) m.sessions c.client_id _
          (session_fits c _ v refl) h.sessions_fit;
  }

-- `Apply` keeps the machine well formed, whatever the command.
pub apply-IsValid : (m : Machine) (c : Command) → IsValid m → IsValid (apply m c).0
apply-IsValid m c h = go (check_cases m c)
  where
    go : CheckCases m c → IsValid (apply m c).0
    go (refused e k) = rw (apply_refused m c e k) h
    go (duplicate s v g eq k) = rw (apply_duplicate m c s.result k) h
    go (fresh v newer k) = rw (apply_fresh m c k) (commit_command-IsValid m c v h)

-- Any commands take a well-formed machine to a well-formed machine.
pub apply_all-IsValid : (m : Machine) (cs : List Command) → IsValid m → IsValid (apply_all m cs)
unfolding apply_all
apply_all-IsValid m [] h = h
apply_all-IsValid m (c ∷ cs) h = apply_all-IsValid (apply m c).0 cs (apply-IsValid m c h)
