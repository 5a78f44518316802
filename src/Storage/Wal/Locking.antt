-- ===== src/Storage/Wal/Locking.antt =====
-- internal/storage/wal.go: the locks that OpenJournal takes and gives back.
use shard_zero.Prelude.{
  ℕ, ◌+◌, ◌≡◌, refl, sym, ap, ◌∙◌, subst, false, ◌||◌, not, is_none, List, [], ◌∷◌, ◌++◌, Text,
  text_eq_refl, length, Attempt, done, failed, arith, Bool-cases, inl, inr,
}
use mathlib.Core.List.{append_assoc}
use shard_zero.Prelude.Dict.{text_key, get}
use shard_zero.Storage.Disk.{
  io_error, content, Disk, WalError, Io, pure, fail, continue, cleaned, ◌>>=◌, ◌>>◌, on_failure,
  call, refused, next_call, contains, create, lock_file, unlocked, release, truncate,
}
use shard_zero.Storage.Wal.{
  Wal, Scan, ended, torn, stopped, stuck, scan, opened, finish_open, truncate_tail, after_scan,
  load, check_other, open_locked, open_journal, bad_name, lock_name, other_name,
}
use shard_zero.Storage.Wal.Reading.{scan-SameFiles}

unlocked-free :
    (locks : List Text) (name : Text) → contains locks name ≡ false → unlocked locks name ≡ locks
unfolding unlocked
unlocked-free [] name h = refl
unlocked-free (x ∷ locks) name h = ground (arith, unlocked-free locks name)

unlocked-lock :
    (locks : List Text) (name : Text)
    → contains locks name ≡ false
    → unlocked (name ∷ locks) name ≡ locks
unfolding unlocked
unlocked-lock locks name h = rw (text_eq_refl name) (unlocked-free locks name h)

-- With no error the locks are those before and `taken`; with an error they are those before.
abbrev pub Takes : {E A : Type 0} → List Text → List Text → Disk × Attempt A (WalError E) → Type 0
Takes taken locks (d, done _) = d.locks ≡ taken ++ locks
Takes taken locks (d, failed _) = d.locks ≡ locks

record Locks {E A : Type 0} (taken : List Text) (m : Io E A) : Type 0 where
  at : (d : Disk) → Takes taken d.locks (m d)

Locks-pure : (E : Type 0) {A : Type 0} (a : A) → Locks [] (pure {E = E} a)
Locks-pure E a = record { at = λ d. refl }

Locks-fail : {E : Type 0} (A : Type 0) (e : WalError E) → Locks [] (fail {A = A} e)
Locks-fail A e = record { at = λ d. refl }

module _ (E : Type 0) where
  Locks-call : Locks [] (call {E = E})
  Locks-call = record {
    at = λ d. elim (Bool-cases (refused d)) [ inl bad ↦ rw bad refl | inr good ↦ rw good refl ];
  }

  Locks-create : (name : Text) → Locks [] (create {E = E} name)
  unfolding create
  Locks-create name = record {
    at = λ d. elim (Bool-cases (refused d)) [ inl bad ↦ rw bad refl | inr good ↦ rw good refl ];
  }

  Locks-truncate : (name : Text) (size : ℕ) → Locks [] (truncate {E = E} name size)
  unfolding truncate
  Locks-truncate name size = record {
    at = λ d. elim (Bool-cases (refused d)) [ inl bad ↦ rw bad refl | inr good ↦ rw good refl ];
  }

Takes-continue :
    {E A B : Type 0} (taken locks : List Text) (f : A → Io E B) (r : Disk × Attempt A (WalError E))
    → Takes [] locks r
    → ((a : A) → Locks taken (f a))
    → Takes taken locks (continue r f)
Takes-continue taken locks f (d, done a) h rest =
    subst (λ l. Takes taken l (f a d)) h ((rest a).at d)
Takes-continue taken locks f (d, failed e) h rest = h

Locks-bind :
    {E A B : Type 0} (taken : List Text) (m : Io E A) (f : A → Io E B)
    → Locks [] m
    → ((a : A) → Locks taken (f a))
    → Locks taken (m >>= f)
Locks-bind taken m f h rest = record {
  at = λ d. Takes-continue taken d.locks f (m d) (h.at d) rest;
}

-- A lock that is given back on a failure.
Takes-cleaned :
    {E A : Type 0} (name : Text) (locks taken : List Text) (r : Disk × Attempt A (WalError E))
    → contains locks name ≡ false
    → Takes taken (name ∷ locks) r
    → Takes (taken ++ (name ∷ [])) locks (cleaned (release name) r)
unfolding release
Takes-cleaned name locks taken (d, done a) free h = h ∙ sym (append_assoc taken (name ∷ []) locks)
Takes-cleaned name locks taken (d, failed e) free h =
    ap (λ l. unlocked l name) h ∙ unlocked-lock locks name free

Locks-locked :
    {E A : Type 0} (name : Text) (taken : List Text) (m : Io E A)
    → Locks taken m
    → Locks (taken ++ (name ∷ [])) (do lock_file name; on_failure (release name) m)
unfolding lock_file
Locks-locked name taken m h = record {
  at = λ d. elim (Bool-cases (refused d || contains d.locks name)) [
    | inl bad ↦ rw bad refl
    | inr good ↦ rw good (
        let d1 = record (next_call d) { locks = name ∷ d.locks } in
        Takes-cleaned name d.locks taken (m d1) (ground (arith, good)) (h.at d1))
  ];
}

module _ {S E : Type 0} (replay : S → Text → Attempt S E) where
  Locks-finish_open : (name : Text) (s : S) → Locks [] (finish_open replay name s)
  Locks-finish_open name s =
      let end = Locks-pure E (opened replay name s) in
      let more = λ (m : Io E (Wal × S)) (h : Locks [] m).
        Locks-bind [] (call {E = E}) (λ _. m) (Locks-call E) (λ _. h) in
      more _ (more _ (more _ (more _ end)))

  Locks-after_scan : (name : Text) (r : Scan S E) → Locks [] (after_scan replay name r)
  unfolding after_scan
  Locks-after_scan name (ended s k) = Locks-finish_open name s
  Locks-after_scan name (torn s k) =
      Locks-bind [] (truncate_tail replay name k) _
        (Locks-bind [] (truncate name k) _ (Locks-truncate E name k) (λ _. Locks-call E))
        (λ _. Locks-finish_open name s)
  Locks-after_scan name (stopped e) = Locks-fail (Wal × S) e
  Locks-after_scan name stuck = Locks-fail (Wal × S) io_error

  Locks-load : (name : Text) (s : S) → Locks [] (load replay name s)
  unfolding load
  Locks-load name s = record {
    at = λ d.
        let c = content d name in
        let r = scan replay (length c + 1) d s 0 c in
        subst (λ l. Takes [] l (after_scan replay name r.1 r.0))
          (scan-SameFiles replay (length c + 1) d s 0 c).locks ((Locks-after_scan name r.1).at r.0);
  }

  Locks-check_other : (name : Text) → Locks [] (check_other replay name)
  unfolding check_other
  Locks-check_other name = record {
    at = λ d. elim (Bool-cases (refused d || not (is_none (get d.files (other_name name))))) [
      | inl bad ↦ rw bad refl
      | inr good ↦ rw good refl
    ];
  }

  Locks-open_locked : (name : Text) (s : S) → Locks (name ∷ []) (open_locked replay name s)
  unfolding open_locked
  Locks-open_locked name s =
      Locks-bind (name ∷ []) (check_other replay name) _ (Locks-check_other name) (λ _.
        Locks-bind (name ∷ []) (create name) _ (Locks-create E name)
          (λ _. Locks-locked name [] (load replay name s) (Locks-load name s)))

  -- Whatever calls fail, OpenJournal with no error holds the locks of the journal and the directory
  -- beside those that were held, and with an error no lock is held that was not before.
  pub open_journal-Takes :
      (name : Text) (s : S) (d : Disk)
      → Takes (name ∷ lock_name ∷ []) d.locks (open_journal replay name s d)
  unfolding open_journal
  open_journal-Takes name s d = elim (Bool-cases (bad_name name)) [
    | inl bad ↦ rw (bad, open_journal) refl
    | inr good ↦
        rw (good, open_journal)
          ((Locks-bind (name ∷ lock_name ∷ []) (call {E = E}) _ (Locks-call E) (λ _.
              Locks-bind (name ∷ lock_name ∷ []) (create lock_name) _ (Locks-create E lock_name)
                (λ _.
                  Locks-locked lock_name (name ∷ []) (open_locked replay name s)
                    (Locks-open_locked name s)))).at
            d)
  ]
