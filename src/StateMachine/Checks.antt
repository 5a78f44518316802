-- ===== src/StateMachine/Checks.antt =====
-- internal/statemachine/machine.go: what `Check` promises of the `Apply` that follows it.
use shard_zero.Prelude.{
  ◌≡◌, refl, sym, ◌∙◌, ltb, ◌==◌, ◌↔◌, inl, inr, ◌<◌, true, false, none, some, arith, text_eq_iff,
  text_eq_refl, Option-cases, Bool-cases, ap,
}
use shard_zero.Prelude.Dict.{get, text_key}
use shard_zero.StateMachine.{
  Command, Result, Session, Machine, Error, reused, stale, no_result, validate, command_eq,
  check_session, check, apply, commit_command,
}

-- `==` on two commands compares every field.
pub command_eq_iff : (a b : Command) → (command_eq a b ≡ true) ↔ (a ≡ b)
unfolding command_eq
command_eq_iff a b = (
  λ h. ground (
    arith,
    text_eq_iff a.client_id b.client_id,
    text_eq_iff a.operation b.operation,
    text_eq_iff a.key b.key,
    text_eq_iff a.value b.value,
    text_eq_iff a.expected b.expected,
  ),
  λ e. rw e (
      ground (
        arith,
        text_eq_refl b.client_id,
        text_eq_refl b.operation,
        text_eq_refl b.key,
        text_eq_refl b.value,
        text_eq_refl b.expected,
      )),
)

-- What `Check` can return.
pub data CheckCases (m : Machine) (c : Command) : Type 0 where
  refused : (e : Error) → check m c ≡ (no_result, false, some e) → CheckCases m c
  duplicate :
      (s : Session)
      → validate c ≡ none
      → get m.sessions c.client_id ≡ some s
      → s.command ≡ c
      → check m c ≡ (s.result, true, none)
      → CheckCases m c
  fresh :
      validate c ≡ none
      → ((s : Session) → get m.sessions c.client_id ≡ some s → s.command.request_id < c.request_id)
      → check m c ≡ (no_result, false, none)
      → CheckCases m c

check_invalid :
    (m : Machine) (c : Command) (e : Error)
    → validate c ≡ some e
    → check m c ≡ (no_result, false, some e)
unfolding check
check_invalid m c e v = rw (v, check)

pub check_valid :
    (m : Machine) (c : Command)
    → validate c ≡ none
    → check m c ≡ check_session c (get m.sessions c.client_id)
unfolding check
check_valid m c v = rw (v, check)

session_cases :
    (m : Machine) (c : Command) (s : Session)
    → validate c ≡ none
    → get m.sessions c.client_id ≡ some s
    → check m c ≡ check_session c (some s)
    → CheckCases m c
unfolding check_session
session_cases m c s v g e = elim (Bool-cases (ltb c.request_id s.command.request_id)) [
  | inl old ↦ refused stale (e ∙ ground arith)
  | inr current ↦ elim (Bool-cases (c.request_id == s.command.request_id)) [
    | inr newer ↦ fresh v (λ t h. ground arith) (e ∙ ground arith)
    | inl same ↦ elim (Bool-cases (command_eq c s.command)) [
      | inl equal ↦ duplicate s v g (sym ((command_eq_iff c s.command).0 equal)) (e ∙ ground arith)
      | inr differs ↦ refused reused (e ∙ ground arith)
    ]
  ]
]

pub check_cases : (m : Machine) (c : Command) → CheckCases m c
check_cases m c = elim (Option-cases (validate c)) [
  | inr (e, v) ↦ refused e (check_invalid m c e v)
  | inl v ↦ elim (Option-cases (get m.sessions c.client_id)) [
    | inl g ↦ fresh v (λ s h. cc) (check_valid m c v ∙ rw g (unfold check_session in refl))
    | inr (s, g) ↦ session_cases m c s v g (check_valid m c v ∙ ap (check_session c) g)
  ]
]

-- A command that `Check` finds fresh is run; any other leaves the machine and has `Check`'s answer.
pub apply_fresh :
    (m : Machine) (c : Command)
    → check m c ≡ (no_result, false, none)
    → apply m c ≡ commit_command m c
unfolding apply
apply_fresh m c h = rw h

pub apply_refused :
    (m : Machine) (c : Command) (e : Error)
    → check m c ≡ (no_result, false, some e)
    → apply m c ≡ (m, no_result, some e)
unfolding apply
apply_refused m c e h = rw h

pub apply_duplicate :
    (m : Machine) (c : Command) (r : Result)
    → check m c ≡ (r, true, none)
    → apply m c ≡ (m, r, none)
unfolding apply
apply_duplicate m c r h = rw h
