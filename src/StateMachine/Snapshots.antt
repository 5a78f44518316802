-- ===== src/StateMachine/Snapshots.antt =====
-- internal/statemachine/machine.go: `Restore` after `Snapshot`.
use mathlib.Core.List.{append-nil, append_assoc}
use mathlib.Core.Option.{some-injective}
use shard_zero.Prelude.{
  subst, ◌⊎◌, ◌≢◌, Bool-cases, ◌≡◌, refl, ◌∙◌, ap, sym, true, false, none, some, arith, Text,
  text_eq, text_eq_iff, [], ◌∷◌, ◌++◌, Option-cases, inl, inr,
}
use shard_zero.Prelude.Dict.{
  Dict, get, put, text_key, HasUniqueKeys, HasUniqueKeys-put, AllEntries, AllEntries-put,
}
use shard_zero.StateMachine.{
  invalid, bad_snapshot_value, Session, Snapshot, Machine, Error, is_value, session_error,
  copy_entries, snapshot, restore_values, restore_sessions, restore,
}
use shard_zero.StateMachine.Invariant.{IsValid}

module _ {V : Type 0} where
  -- no key of `m` stands in `out`
  abbrev IsApart : Dict Text V → Dict Text V → Type 0
  IsApart out [] = Unit
  IsApart out ((k, v) ∷ m) = (get out k ≡ none) × IsApart out m

  put_at_end :
      (out : Dict Text V) (k : Text) (v : V) → get out k ≡ none → put out k v ≡ out ++ ((k, v) ∷ [])
  unfolding get put
  put_at_end [] k v h = refl
  put_at_end ((j, w) ∷ out) k v h = ground (arith, put_at_end out k v)

  get-append_end :
      (out : Dict Text V) (k j : Text) (v : V)
      → get out j ≡ none
      → text_eq k j ≡ false
      → get (out ++ ((k, v) ∷ [])) j ≡ none
  unfolding get
  get-append_end [] k j v h e = ground arith
  get-append_end ((i, w) ∷ out) k j v h e = ground (arith, get-append_end out k j v)

  IsApart-end :
      (out m : Dict Text V) (k : Text) (v : V)
      → IsApart out m
      → get m k ≡ none
      → IsApart (out ++ ((k, v) ∷ [])) m
  unfolding get
  IsApart-end out [] k v h e = tt
  IsApart-end out ((j, w) ∷ m) k v h e =
      ground
        (arith, IsApart-end out m k v, get-append_end out k j v, text_eq_iff j k, text_eq_iff k j)

  IsApart-nil : (m : Dict Text V) → IsApart [] m
  unfolding get
  IsApart-nil [] = tt
  IsApart-nil ((k, v) ∷ m) = (refl, IsApart-nil m)

  copy_entries_lem :
      (out m : Dict Text V) → IsApart out m → HasUniqueKeys m → copy_entries out m ≡ out ++ m
  unfolding copy_entries
  copy_entries_lem out [] h u = sym (append-nil out)
  copy_entries_lem out ((k, v) ∷ m) h u = rw (put_at_end out k v h.0) (
      copy_entries_lem (out ++ ((k, v) ∷ [])) m (IsApart-end out m k v h.1 u.0) u.1
      ∙ append_assoc out ((k, v) ∷ []) m)

restore_values_lem :
    (out m : Dict Text Text)
    → AllEntries (λ k v. is_value k v ≡ true) m
    → restore_values out m ≡ some (copy_entries out m)
unfolding restore_values copy_entries
restore_values_lem out [] h = refl
restore_values_lem out ((k, v) ∷ m) h = rw h.0 (restore_values_lem (put out k v) m h.1)

restore_sessions_lem :
    (out m : Dict Text Session)
    → AllEntries (λ id s. session_error id s ≡ none) m
    → restore_sessions out m ≡ (copy_entries out m, none)
unfolding restore_sessions copy_entries
restore_sessions_lem out [] h = refl
restore_sessions_lem out ((id, s) ∷ m) h =
    rw (h.0, restore_sessions) (restore_sessions_lem (put out id s) m h.1)

copy_unique : {V : Type 0} (m : Dict Text V) → HasUniqueKeys m → copy_entries [] m ≡ m
copy_unique m u = copy_entries_lem [] m (IsApart-nil m) u

snapshot_eq :
    (m : Machine)
    → IsValid m
    → snapshot m ≡ record { values = m.values; sessions = m.sessions; count = m.count }
unfolding snapshot
snapshot_eq m h =
    rw (copy_unique m.values h.unique_values, copy_unique m.sessions h.unique_sessions)

module _ (old : Machine) (s : Snapshot) where
  restore_accepts :
      (values : Dict Text Text) (sessions : Dict Text Session)
      → restore_values [] s.values ≡ some values
      → restore_sessions [] s.sessions ≡ (sessions, none)
      → restore old s ≡ (record { values = values; sessions = sessions; count = s.count }, none)
  unfolding restore
  restore_accepts values sessions hv hs = rw (hv, restore) (rw hs)

  restore_rejects_value :
      restore_values [] s.values ≡ none → restore old s ≡ (old, some (invalid bad_snapshot_value))
  unfolding restore
  restore_rejects_value hv = rw (hv, restore)

  restore_rejects_session :
      (values : Dict Text Text) (e : Error)
      → restore_values [] s.values ≡ some values
      → (restore_sessions [] s.sessions).1 ≡ some e
      → restore old s ≡ (old, some e)
  unfolding restore
  restore_rejects_session values e hv hs = rw (hv, restore) (rw hs)

-- Restoring the snapshot of a well-formed machine, into any machine, gives that machine back with
-- no error: the values, the retry sessions and the count.
pub restore-snapshot : (m old : Machine) → IsValid m → restore old (snapshot m) ≡ (m, none)
restore-snapshot m old h =
    rw (snapshot_eq m h) (restore_accepts old _ m.values m.sessions values sessions)
  where
    values : restore_values [] m.values ≡ some m.values
    values =
        restore_values_lem [] m.values h.values_fit ∙ ap some (copy_unique m.values h.unique_values)

    sessions : restore_sessions [] m.sessions ≡ (m.sessions, none)
    sessions =
        restore_sessions_lem [] m.sessions h.sessions_fit
        ∙ ap (λ d. (d, none)) (copy_unique m.sessions h.unique_sessions)

abbrev Values : Dict Text Text → Type 0
Values d = HasUniqueKeys d × AllEntries (λ k v. is_value k v ≡ true) d

abbrev Sessions : Dict Text Session → Type 0
Sessions d = HasUniqueKeys d × AllEntries (λ id s. session_error id s ≡ none) d

restore_values-fits :
    (out m : Dict Text Text) (d : Dict Text Text)
    → Values out
    → restore_values out m ≡ some d
    → Values d
unfolding restore_values
restore_values-fits out [] d h e = subst Values (some-injective out d e) h
restore_values-fits out ((k, v) ∷ m) d h e = elim (Bool-cases (is_value k v)) [
  | inl fit ↦
      restore_values-fits (put out k v) m d
        (HasUniqueKeys-put out k v h.0, AllEntries-put _ out k v fit h.1) (ground arith)
  | inr unfit ↦ ground arith
]

restore_sessions-fits :
    (out m : Dict Text Session)
    → Sessions out
    → (restore_sessions out m).1 ≡ none
    → Sessions (restore_sessions out m).0
unfolding restore_sessions
restore_sessions-fits out [] h e = h
restore_sessions-fits out ((id, s) ∷ m) h e = elim (Option-cases (session_error id s)) [
  | inl fit ↦
      rw (fit, restore_sessions)
        (restore_sessions-fits (put out id s) m
          (HasUniqueKeys-put out id s h.0, AllEntries-put _ out id s fit h.1)
          (rw (fit, restore_sessions) at e))
  | inr (x, bad) ↦ ground arith
]

-- `Restore` accepts only what makes a well-formed machine, and on an error leaves the machine.
pub restore-IsValid :
    (old : Machine) (s : Snapshot)
    → let (m, error) = restore old s in ((error ≡ none) × IsValid m) ⊎ ((error ≢ none) × (m ≡ old))
restore-IsValid old s = elim (Option-cases (restore_values [] s.values)) [
  | inl hv ↦ rw (restore_rejects_value old s hv) (inr (λ e. cc, refl))
  | inr (values, hv) ↦ elim (Option-cases (restore_sessions [] s.sessions).1) [
    | inr (e, hs) ↦ rw (restore_rejects_session old s values e hv hs) (inr (λ e. cc, refl))
    | inl hs ↦
        let (uv, fv) = restore_values-fits [] s.values values (tt, tt) hv in
        let (us, fs) = restore_sessions-fits [] s.sessions (tt, tt) hs in
        rw (restore_accepts old s values (restore_sessions [] s.sessions).0 hv (ground arith)) (
          inl (
            refl,
            record { unique_values = uv; unique_sessions = us; values_fit = fv; sessions_fit = fs },
          ))
  ]
]
