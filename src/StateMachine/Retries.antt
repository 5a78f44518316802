-- ===== src/StateMachine/Retries.antt =====
-- internal/statemachine/machine.go: a retried request is answered from its session.
use shard_zero.Prelude.{
  Option-cases, inl, inr, if◌then◌else◌, ℕ, ◌≤◌, ◌<◌, ◌≡◌, ◌≢◌, refl, ap, ◌∙◌, none, some, List, [],
  ◌∷◌, arith, All, Text, text_eq_iff, text_eq,
}
use shard_zero.Prelude.Dict.{get, text_key, get-put_self, get-put}
use shard_zero.StateMachine.{
  Command, Result, Session, Machine, validate, check_session, apply, commit_command, run_command,
}
use shard_zero.StateMachine.Checks.{
  CheckCases, refused, duplicate, fresh, check_cases, apply_fresh, apply_refused, apply_duplicate,
  command_eq_iff, check_valid,
}

-- Commands one after another.
unfoldable pub apply_all : Machine → List Command → Machine
apply_all m [] = m
apply_all m (c ∷ cs) = apply_all (apply m c).0 cs

-- The session of `c` holds `c` and `r`.
abbrev pub Remembers : Machine → Command → Result → Type 0
Remembers m c r = get m.sessions c.client_id ≡ some (record { command = c; result = r })

-- A remembered command is answered from its session.
pub apply-Remembers :
    (m : Machine) (c : Command) (r : Result)
    → validate c ≡ none
    → Remembers m c r
    → apply m c ≡ (m, r, none)
unfolding check_session
apply-Remembers m c r v h =
    apply_duplicate m c r
      (check_valid m c v ∙ ap (check_session c) h ∙ ground (arith, command_eq_iff c c))

sessions-commit_command :
    (m : Machine) (c : Command) → Remembers (commit_command m c).0 c (commit_command m c).1
unfolding commit_command
sessions-commit_command m c = get-put_self m.sessions c.client_id _

session_eta :
    (s : Session) (c : Command) → s.command ≡ c → s ≡ record { command = c; result = s.result }
session_eta s c e = ground arith

-- What `Apply` accepted is remembered.
Remembers-after :
    (m : Machine) (c : Command)
    → (apply m c).2 ≡ none
    → (validate c ≡ none) × Remembers (apply m c).0 c (apply m c).1
Remembers-after m c h = go (check_cases m c)
  where
    go : CheckCases m c → (validate c ≡ none) × Remembers (apply m c).0 c (apply m c).1
    go (refused e k) = cc (apply_refused m c e k)
    go (duplicate s v g eq k) =
        (v, rw (apply_duplicate m c s.result k) (g ∙ ap some (session_eta s c eq)))
    go (fresh v _ k) = (v, rw (apply_fresh m c k) (sessions-commit_command m c))

get-commit_command :
    (m : Machine) (c : Command) (id : Text)
    → c.client_id ≢ id
    → get (commit_command m c).0.sessions id ≡ get m.sessions id
unfolding commit_command
get-commit_command m c id h = ground (
  arith,
  get-put m.sessions c.client_id id (record { command = c; result = (run_command m.values c).1 }),
  text_eq_iff c.client_id id,
)

-- A command leaves the sessions of other clients.
sessions-apply :
    (m : Machine) (c : Command) (id : Text)
    → c.client_id ≢ id
    → get (apply m c).0.sessions id ≡ get m.sessions id
sessions-apply m c id h = go (check_cases m c)
  where
    go : CheckCases m c → get (apply m c).0.sessions id ≡ get m.sessions id
    go (refused e k) = rw (apply_refused m c e k)
    go (duplicate s v g eq k) = rw (apply_duplicate m c s.result k)
    go (fresh v _ k) = rw (apply_fresh m c k) (get-commit_command m c id h)

sessions-apply_all :
    (m : Machine) (cs : List Command) (id : Text)
    → All (λ d. d.client_id ≢ id) cs
    → get (apply_all m cs).sessions id ≡ get m.sessions id
unfolding apply_all
sessions-apply_all m [] id h = refl
sessions-apply_all m (c ∷ cs) id h =
    sessions-apply_all (apply m c).0 cs id h.1 ∙ sessions-apply m c id h.0

-- Exactly once: after `Apply` accepted a command, and after any commands of other clients, applying
-- it again returns the first result with no error and changes nothing.
pub apply_once :
    (m : Machine) (c : Command) (cs : List Command)
    → (apply m c).2 ≡ none
    → All (λ d. d.client_id ≢ c.client_id) cs
    → let later = apply_all (apply m c).0 cs in apply later c ≡ (later, (apply m c).1, none)
apply_once m c cs ok others =
    let (v, r) = Remembers-after m c ok in
    apply-Remembers (apply_all (apply m c).0 cs) c (apply m c).1 v
      (sessions-apply_all (apply m c).0 cs c.client_id others ∙ r)

-- The last request ID that a client has used; 0 before its first.
pub last_request : Machine → Text → ℕ
last_request m id = elim (get m.sessions id) [ none ↦ 0 | some s ↦ s.command.request_id ]

last_request-commit_command :
    (m : Machine) (c : Command) (id : Text)
    → ((s : Session) → get m.sessions c.client_id ≡ some s → s.command.request_id < c.request_id)
    → last_request m id ≤ last_request (commit_command m c).0 id
unfolding commit_command last_request
last_request-commit_command m c id newer = elim (Option-cases (get m.sessions c.client_id)) [
  | inl g ↦ ground (arith, put_at, text_eq_iff c.client_id id)
  | inr (s, g) ↦ ground (arith, newer s g, put_at, text_eq_iff c.client_id id)
]
  where
    put_at : get (commit_command m c).0.sessions id ≡ (
        if text_eq c.client_id id
        then some (record { command = c; result = (run_command m.values c).1 })
        else get m.sessions id)
    put_at = get-put m.sessions c.client_id id _

last_request-apply :
    (m : Machine) (c : Command) (id : Text) → last_request m id ≤ last_request (apply m c).0 id
last_request-apply m c id = go (check_cases m c)
  where
    go : CheckCases m c → last_request m id ≤ last_request (apply m c).0 id
    go (refused e k) = rw (apply_refused m c e k) (omega arith)
    go (duplicate s v g eq k) = rw (apply_duplicate m c s.result k) (omega arith)
    go (fresh v newer k) = rw (apply_fresh m c k) (last_request-commit_command m c id newer)

last_request-apply_all :
    (m : Machine) (cs : List Command) (id : Text)
    → last_request m id ≤ last_request (apply_all m cs) id
unfolding apply_all
last_request-apply_all m [] id = omega arith
last_request-apply_all m (c ∷ cs) id =
    omega (arith, last_request-apply m c id, last_request-apply_all (apply m c).0 cs id)

last_request-Remembers :
    (m : Machine) (c : Command) (r : Result)
    → Remembers m c r
    → last_request m c.client_id ≡ c.request_id
unfolding last_request
last_request-Remembers m c r h = rw (h, last_request)

fresh_is_newer :
    (m : Machine) (c : Command)
    → validate c ≡ none
    → ((s : Session) → get m.sessions c.client_id ≡ some s → s.command.request_id < c.request_id)
    → 0 < c.request_id
    → last_request m c.client_id < c.request_id
unfolding last_request
fresh_is_newer m c v newer pos = elim (Option-cases (get m.sessions c.client_id)) [
  | inl g ↦ rw (g, last_request) pos
  | inr (s, g) ↦ rw (g, last_request) (newer s g)
]

positive_request : (c : Command) → validate c ≡ none → 0 < c.request_id
unfolding validate
positive_request c v = ground arith

-- At most once: after `Apply` accepted a command, and after any commands of any clients, applying it
-- again does not change the machine.
pub apply_at_most_once :
    (m : Machine) (c : Command) (cs : List Command)
    → (apply m c).2 ≡ none
    → let later = apply_all (apply m c).0 cs in (apply later c).0 ≡ later
apply_at_most_once m c cs ok = go (check_cases later c)
  where
    later : Machine
    later = apply_all (apply m c).0 cs

    go : CheckCases later c → (apply later c).0 ≡ later
    go (refused e k) = rw (apply_refused later c e k)
    go (duplicate s v g eq k) = rw (apply_duplicate later c s.result k)
    go (fresh v newer k) = absurd (
        omega (
          arith,
          last_request-apply_all (apply m c).0 cs c.client_id,
          last_request-Remembers (apply m c).0 c (apply m c).1 (Remembers-after m c ok).1,
          fresh_is_newer later c v newer (positive_request c v),
        ))
