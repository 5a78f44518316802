-- ===== src/Database/Durability.antt =====
-- internal/database/database.go: what `Execute` acknowledges is applied and durable.
use shard_zero.Prelude.{
  ◌≡◌, ◌≢◌, ◌⊎◌, refl, sym, ap, ◌∙◌, Bool, true, false, ◌||◌, Option, none, some, List, [], ◌∷◌,
  ◌++◌, arith, done, Bool-cases, Option-cases, inl, inr, subst,
}
use shard_zero.StateMachine
use shard_zero.StateMachine.{Command, Machine, check, apply}
use shard_zero.StateMachine.Checks.{refused, duplicate, fresh, check_cases, apply_duplicate}
use shard_zero.StateMachine.Semantics.{apply-Performs}
use shard_zero.Database.{
  CommandLog, Database, Error, unavailable, replay_commands, append_command, run_written,
  run_checked, execute, refusal_of,
}

-- The log of a database replays to its machine.
abbrev pub IsDurable : Database → Type 0
IsDurable d = replay_commands StateMachine.new d.wal.commands ≡ done d.machine

replay_commands-append :
    (m k : Machine) (cs : List Command) (c : Command)
    → replay_commands m cs ≡ done k
    → (apply k c).2 ≡ none
    → replay_commands m (cs ++ (c ∷ [])) ≡ done (apply k c).0
unfolding replay_commands
replay_commands-append m k [] c h ok = let e : m ≡ k = cc in rw e (rw (ok, replay_commands))
replay_commands-append m k (x ∷ cs) c h ok = elim (Option-cases (apply m x).2) [
  | inl fine ↦
      rw (fine, replay_commands)
        (replay_commands-append (apply m x).0 k cs c (rw (fine, replay_commands) at h) ok)
  | inr (e, bad) ↦ cc (rw (bad, replay_commands) at h)
]

-- What a write leaves in the log.
commands-append_command :
    (w : CommandLog) (c : Command)
    → ((append_command w c).0.commands ≡ w.commands ++ (c ∷ []))
      ⊎ (((append_command w c).1 ≡ false) × ((append_command w c).0.commands ≡ w.commands))
unfolding append_command
commands-append_command w c = ground arith

-- What `Execute` can do.
data ExecuteCases (d : Database) (c : Command) (out : Database × StateMachine.Result × Option Error)
    : Type 0 where
  rejected : (x : Error) → out.0 ≡ d → out.2 ≡ some x → ExecuteCases d c out
  repeated :
      out.0 ≡ d
      → (apply d.machine c).0 ≡ d.machine
      → out.1 ≡ (apply d.machine c).1
      → out.2 ≡ none
      → ExecuteCases d c out
  written :
      (w : CommandLog)
      → w.commands ≡ d.wal.commands ++ (c ∷ [])
      → (apply d.machine c).2 ≡ none
      → out ≡ (record d { machine = (apply d.machine c).0; wal = w }, (apply d.machine c).1, none)
      → ExecuteCases d c out
  lost :
      (w : CommandLog)
      → ((w.commands ≡ d.wal.commands) ⊎ (w.commands ≡ d.wal.commands ++ (c ∷ [])))
      → (apply d.machine c).2 ≡ none
      → out.0 ≡ record d { wal = w; broken = true }
      → out.2 ≡ some unavailable
      → ExecuteCases d c out

run_written_cases :
    (d : Database) (c : Command) (p : CommandLog × Bool)
    → ((p.0.commands ≡ d.wal.commands ++ (c ∷ []))
        ⊎ ((p.1 ≡ false) × (p.0.commands ≡ d.wal.commands)))
    → (apply d.machine c).2 ≡ none
    → ExecuteCases d c (run_written d c p)
unfolding run_written refusal_of
run_written_cases d c (w, true) (inl all) ok = written w all ok (rw ok)
run_written_cases d c (w, true) (inr (no_error, _)) ok = cc
run_written_cases d c (w, false) (inl all) ok = lost w (inr all) ok refl refl
run_written_cases d c (w, false) (inr (_, same)) ok = lost w (inl same) ok refl refl

module _ (d : Database) (c : Command) where
  run_checked_cases : ExecuteCases d c (run_checked d c (check d.machine c))
  unfolding run_checked refusal_of
  run_checked_cases = elim (check_cases d.machine c) [
    | refused e k ↦ rw k (rejected _ refl refl)
    | duplicate s v g eq k ↦ rw k (
        let same = apply_duplicate d.machine c s.result k in
        repeated refl
          (ap (λ (p : Machine × StateMachine.Result × Option StateMachine.Error). p.0) same)
          (sym (ap (λ (p : Machine × StateMachine.Result × Option StateMachine.Error). p.1) same))
          refl)
    | fresh v newer k ↦ rw k (
        run_written_cases d c (append_command d.wal c) (commands-append_command d.wal c)
          (apply-Performs d.machine c k).3)
  ]

  execute_cases : ExecuteCases d c (execute d c)
  unfolding execute
  execute_cases = elim (Bool-cases (d.closed || d.broken)) [
    | inl down ↦ rw down (rejected unavailable refl refl)
    | inr up ↦ rw up run_checked_cases
  ]

  durable_after :
      IsDurable d
      → (w : CommandLog) → w.commands ≡ d.wal.commands ++ (c ∷ [])
      → (apply d.machine c).2 ≡ none
      → replay_commands StateMachine.new w.commands ≡ done (apply d.machine c).0
  durable_after h w all ok =
      ap (replay_commands StateMachine.new) all
      ∙ replay_commands-append StateMachine.new d.machine d.wal.commands c h ok

  -- If the log of a database replays to its machine and `Execute` reports no error, then the command
  -- is applied: the machine and the result are those of `Apply`, and the log replays to that machine.
  execute_acknowledged :
      IsDurable d
      → (execute d c).2 ≡ none
      → ((execute d c).0.machine ≡ (apply d.machine c).0)
        × ((execute d c).1 ≡ (apply d.machine c).1)
        × IsDurable (execute d c).0
  execute_acknowledged h ok = go execute_cases
    where
      go :
          ExecuteCases d c (execute d c)
          → ((execute d c).0.machine ≡ (apply d.machine c).0)
            × ((execute d c).1 ≡ (apply d.machine c).1)
            × IsDurable (execute d c).0
      go (rejected x _ e) = cc
      go (repeated same still result _) =
          (ap (λ (b : Database). b.machine) same ∙ sym still, result, subst IsDurable (sym same) h)
      go (written w all fine k) = rw k (refl, refl, durable_after h w all fine)
      go (lost w _ _ _ e) = cc

  -- If the log of a database replays to its machine, then after an `Execute` with an error the log
  -- replays to the machine before, or to the machine with the whole command applied.
  execute_unacknowledged :
      IsDurable d
      → (execute d c).2 ≢ none
      → (replay_commands StateMachine.new (execute d c).0.wal.commands ≡ done d.machine)
        ⊎ (replay_commands StateMachine.new (execute d c).0.wal.commands
            ≡ done (apply d.machine c).0)
  execute_unacknowledged h bad = go execute_cases
    where
      go :
          ExecuteCases d c (execute d c)
          → (replay_commands StateMachine.new (execute d c).0.wal.commands ≡ done d.machine)
            ⊎ (replay_commands StateMachine.new (execute d c).0.wal.commands
                ≡ done (apply d.machine c).0)
      go (rejected x same _) = inl (rw same h)
      go (repeated _ _ _ ok) = absurd (bad ok)
      go (written w all fine k) = absurd (bad (rw k))
      go (lost w (inl same) fine k _) = inl (rw k (rw same h))
      go (lost w (inr all) fine k _) = inr (rw k (durable_after h w all fine))

  -- What an acknowledged and an unacknowledged `Execute` leave.
  abbrev pub Executed : Type 0
  Executed =
      (((execute d c).2 ≡ none)
        × ((execute d c).0.machine ≡ (apply d.machine c).0)
        × ((execute d c).1 ≡ (apply d.machine c).1)
        × IsDurable (execute d c).0)
      ⊎ (((execute d c).2 ≢ none)
          × ((replay_commands StateMachine.new (execute d c).0.wal.commands ≡ done d.machine)
              ⊎ (replay_commands StateMachine.new (execute d c).0.wal.commands
                  ≡ done (apply d.machine c).0)))

  -- If the log of a database replays to its machine, then an `Execute` with no error has applied the
  -- command: the machine and the result are those of `Apply`, and the log replays to that machine.
  -- After one with an error, the log replays to the machine before, or to the machine with the whole
  -- command applied.
  pub execute_outcome : IsDurable d → Executed
  execute_outcome h = elim (Option-cases (execute d c).2) [
    | inl ok ↦
        let (machine, result, durable) = execute_acknowledged h ok in
        inl (ok, machine, result, durable)
    | inr (e, bad) ↦
        let failed : (execute d c).2 ≢ none = λ ok. cc (ok, bad) in
        inr (failed, execute_unacknowledged h failed)
  ]
