-- ===== src/Storage/Disk/Calls.antt =====
-- internal/storage: what a call of the system that returns no error has done, and what calls leave.
use shard_zero.Prelude.{
  ℕ, ◌≡◌, ◌≢◌, ◌⊎◌, refl, ap, false, [], ◌∷◌, Text, text_eq, text_eq_iff, take, Attempt, done,
  failed, arith, Bool-cases, inl, inr, if◌then◌else◌,
}
use shard_zero.Prelude.Dict.{Dict, text_key, put, remove, read, get-put, get-put_self, get-remove}
use shard_zero.Storage.Disk.{
  Disk, succeeds, WalError, Io, continue, cleaned, next_call, refused, call, content, write_content,
  create, create_empty, io_error, contains, lock_file, truncate, rename,
}

-- No call fails.
abbrev pub IsReliable : Disk → Type 0
IsReliable d = (k : ℕ) → d.outcome k ≡ succeeds

pub reliable-refused : (d : Disk) → IsReliable d → refused d ≡ false
reliable-refused d h = rw (h d.calls)

pub continue-done :
    {E A B : Type 0} (r : Disk × Attempt A (WalError E)) (f : A → Io E B) {d' : Disk} {b : B}
    → continue r f ≡ (d', done b)
    → (d : Disk) × (a : A) × (r ≡ (d, done a)) × (f a d ≡ (d', done b))
continue-done (d, done a) f h = (d, a, refl, h)
continue-done (d, failed e) f h = cc

pub cleaned-done :
    {E A : Type 0} (clean : Disk → Disk) (r : Disk × Attempt A (WalError E)) {d' : Disk} {a : A}
    → cleaned clean r ≡ (d', done a)
    → r ≡ (d', done a)
cleaned-done clean (d, done a) h = h
cleaned-done clean (d, failed e) h = cc

pub content-write_content :
    (d : Disk) (name other : Text) (s : Text)
    → content (write_content d name s) other ≡ (if text_eq name other then s else content d other)
unfolding read
content-write_content d name other s = ground (arith, get-put d.files name other s)

pub content-write_content_self :
    (d : Disk) (name s : Text) → content (write_content d name s) name ≡ s
content-write_content_self d name s =
    rw (content-write_content d name name s, (text_eq_iff name name).1 refl)

pub content-write_content_other :
    (d : Disk) (name other s : Text)
    → name ≢ other
    → content (write_content d name s) other ≡ content d other
content-write_content_other d name other s h =
    ground (arith, content-write_content d name other s, text_eq_iff name other)

pub call-done :
    {E : Type 0} (d : Disk) {d' : Disk} {x : Unit {0}}
    → call {E = E} d ≡ (d', done x)
    → d' ≡ next_call d
call-done d h = cc (ap (λ (p : Disk × Attempt (Unit {0}) (WalError _)). p.0) h)

pub content-create :
    (E : Type 0) (name other : Text) (d : Disk)
    → content (create {E = E} name d).0 other ≡ content d other
unfolding create
content-create E name other d =
    ground (
      arith,
      content-write_content (next_call d) name other (content d name),
      text_eq_iff name other,
    )

pub content-lock_file :
    (E : Type 0) (name other : Text) (d : Disk)
    → content (lock_file {E = E} name d).0 other ≡ content d other
unfolding lock_file
content-lock_file E name other d = ground arith

pub content-truncate :
    {E : Type 0} (name : Text) (size : ℕ) (d : Disk) {d' : Disk} {x : Unit {0}}
    → truncate {E = E} name size d ≡ (d', done x)
    → content d' name ≡ take size (content d name)
unfolding truncate
content-truncate {E} name size d {d'} h = elim (Bool-cases (refused d)) [
  | inl bad ↦ cc (rw bad at h)
  | inr good ↦
      let e : d' ≡ write_content (next_call d) name (take size (content d name)) =
        cc (rw good at h) in
      rw e (content-write_content_self (next_call d) name (take size (content d name)))
]

module _ (E : Type 0) (d : Disk) (calm : IsReliable d) where
  pub call-reliable : call {E = E} d ≡ (next_call d, done tt)
  call-reliable = rw (reliable-refused d calm)

  pub create-reliable :
      (name : Text)
      → create {E = E} name d ≡ (write_content (next_call d) name (content d name), done tt)
  unfolding create
  create-reliable name = rw (reliable-refused d calm)

  pub truncate-reliable :
      (name : Text) (size : ℕ)
      → truncate {E = E} name size d
        ≡ (write_content (next_call d) name (take size (content d name)), done tt)
  unfolding truncate
  truncate-reliable name size = rw (reliable-refused d calm)

  pub lock_file-reliable :
      (name : Text)
      → contains d.locks name ≡ false
      → lock_file {E = E} name d ≡ (record (next_call d) { locks = name ∷ d.locks }, done tt)
  unfolding lock_file
  lock_file-reliable name free = rw (reliable-refused d calm, free)

pub content-create_empty :
    (E : Type 0) (name : Text) (d : Disk) {d' : Disk} {x : Unit {0}}
    → create_empty {E = E} name d ≡ (d', done x)
    → content d' name ≡ []
unfolding create_empty
content-create_empty E name d {d'} h = elim (Bool-cases (refused d)) [
  | inl bad ↦ cc (rw bad at h)
  | inr good ↦
      let e : d' ≡ write_content (next_call d) name [] = cc (rw good at h) in
      rw e (content-write_content_self (next_call d) name [])
]

read-moved :
    (m : Dict Text Text) (from to c : Text) → from ≢ to → read (remove (put m to c) from) to [] ≡ c
unfolding read
read-moved m from to c differ =
    ground (arith, get-remove (put m to c) from to, get-put_self m to c, text_eq_iff from to)

pub content-rename :
    (E : Type 0) (from to : Text) (d : Disk)
    → from ≢ to
    → ((rename {E = E} from to d).1 ≡ failed io_error)
        × (content (rename {E = E} from to d).0 to ≡ content d to)
      ⊎ ((rename {E = E} from to d).1 ≡ done tt)
        × (content (rename {E = E} from to d).0 to ≡ content d from)
unfolding rename
content-rename E from to d differ = elim (Bool-cases (refused d)) [
  | inl bad ↦ rw bad (inl (refl, refl))
  | inr good ↦ rw (good, read-moved d.files from to (content d from) differ) (inr (refl, refl))
]
