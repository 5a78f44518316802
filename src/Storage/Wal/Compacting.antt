-- ===== src/Storage/Wal/Compacting.antt =====
-- internal/storage/wal.go: whatever fails, Replace leaves the old records or all of the new ones.
use shard_zero.Prelude.{
  ◌≡◌, ◌≢◌, ◌⊎◌, ◌||◌, inl, inr, refl, sym, ap, ◌∙◌, false, not, Option, none, List, [], ◌∷◌, ◌++◌,
  Text, length, take, bytes, Attempt, done, failed, arith, Bool-cases, length-append,
}
use mathlib.Core.List.{append_assoc, append-nil}
use shard_zero.Prelude.Dict.{text_key}
use shard_zero.Storage.Disk.{
  Disk, WalError, continue, ◌>>◌, call, refused, next_call, content, create_empty, lock_file,
  release, remove_file, rename, write, written, invalid_size, io_error,
}
use shard_zero.Storage.Disk.Calls.{
  continue-done, cleaned-done, call-done, content-create_empty, content-rename,
  content-write_content_other,
}
use shard_zero.Storage.Disk.Keeping.{
  Keeps, keeps_rules, Keeps-bind, Keeps-call, Keeps-pure, Keeps-fail, Keeps-create_empty,
  Keeps-on_failure, remove_file-Spares, release-Spares,
}
use shard_zero.Storage.Frames.{frame, frames}
use shard_zero.Storage.Wal.{
  Wal, bad_size, write_record, compact_name, write_all, write_compacted, install, installed,
  swap_files, compacted, replace,
}
use shard_zero.Storage.Wal.Appending.{write_record_cases, take_all}

compact_name-ne : (name : Text) → compact_name name ≢ name
compact_name-ne name e = absurd (omega (arith, ap length e, length-append name (bytes ".compact")))

module _ (E : Type 0) (name : Text) where
  write_record-Keeps : (other p : Text) → other ≢ name → Keeps name (write_record {E = E} other p)
  unfolding write_record write
  write_record-Keeps other p differ = record {
    at = λ d. ground (
      arith,
      content-write_content_other (next_call d) other name
          (content d other ++ take (written (d.outcome d.calls) (length (frame p))) (frame p))
          differ,
    );
  }

  write_all-Keeps :
      (other : Text) (ps : List Text) → other ≢ name → Keeps name (write_all {E = E} other ps)
  unfolding write_all
  write_all-Keeps other [] differ = Keeps-pure name E tt
  write_all-Keeps other (p ∷ ps) differ = elim (Bool-cases (bad_size (length p))) [
    | inl bad ↦ rw (bad, write_all) (Keeps-fail name (Unit {0}) invalid_size)
    | inr good ↦
        rw (good, write_all)
          (Keeps-bind name (write_record other p) (λ _. write_all other ps)
            (write_record-Keeps other p differ) (λ _. write_all-Keeps other ps differ))
  ]

  write_compacted-Keeps :
      (other : Text) (ps : List Text) → other ≢ name → Keeps name (write_compacted {E = E} other ps)
  unfolding write_compacted
  write_compacted-Keeps other ps differ =
      Keeps-bind name (create_empty other) _ (Keeps-create_empty name E other differ) (λ _.
        Keeps-on_failure name (remove_file other) _ (remove_file-Spares name other differ) (
          Keeps-bind name (write_all other ps) _ (write_all-Keeps other ps differ)
            (λ _. Keeps-bind name call _ (Keeps-call name E) (λ _. Keeps-call name E))))

pair_of : {A B : Type 0} (r : A × B) {b : B} → r.1 ≡ b → r ≡ (r.0, b)
pair_of (a, c) e = ap (λ x. (a, x)) e

-- What the new file holds.
module _ (E : Type 0) where
  write_record-done :
      (name p : Text) (d : Disk) {d' : Disk} {x : Unit {0}}
      → write_record {E = E} name p d ≡ (d', done x)
      → content d' name ≡ content d name ++ frame p
  write_record-done name p d h =
      let (k, left, all) = write_record_cases E name p d in
      let result : (write_record {E = E} name p d).1 ≡ done tt =
        ap (λ (q : Disk × Attempt (Unit {0}) (WalError E)). q.1) h in
      ap (λ (q : Disk × Attempt (Unit {0}) (WalError E)). content q.0 name) (sym h)
      ∙ left
      ∙ ap (λ q. content d name ++ q) (take_all k (frame p) (omega (arith, all result)))

  write_all-done :
      (name : Text) (ps : List Text) (d : Disk) {d' : Disk} {x : Unit {0}}
      → write_all {E = E} name ps d ≡ (d', done x)
      → content d' name ≡ content d name ++ frames ps
  unfolding write_all frames
  write_all-done name [] d {d'} h =
      let e : d' ≡ d = cc (ap (λ (q : Disk × Attempt (Unit {0}) (WalError E)). q.0) h) in
      ap (λ (b : Disk). content b name) e ∙ sym (append-nil (content d name))
  write_all-done name (p ∷ ps) d h = elim (Bool-cases (bad_size (length p))) [
    | inl bad ↦ cc (rw (bad, write_all) at h)
    | inr good ↦
        let (d1, _, e1, h1) =
          continue-done (write_record {E = E} name p d) _ (rw (good, write_all) at h) in
        write_all-done name ps d1 h1
        ∙ ap (λ q. q ++ frames ps) (write_record-done name p d e1)
        ∙ append_assoc (content d name) (frame p) (frames ps)
  ]

  write_compacted-done :
      (name : Text) (ps : List Text) (d : Disk) {d' : Disk} {x : Unit {0}}
      → write_compacted {E = E} name ps d ≡ (d', done x)
      → content d' name ≡ frames ps
  unfolding write_compacted
  write_compacted-done name ps d h =
      let (d1, _, e1, h1) = continue-done (create_empty {E = E} name d) _ h in
      let h2 = cleaned-done (remove_file name) _ h1 in
      let (d2, _, e2, h3) = continue-done (write_all {E = E} name ps d1) _ h2 in
      let (d3, _, e3, h4) = continue-done (call {E = E} d2) _ h3 in
      ap (λ (b : Disk). content b name) (call-done d3 h4 ∙ ap next_call (call-done d2 e3))
      ∙ write_all-done name ps d1 e2
      ∙ ap (λ q. q ++ frames ps) (content-create_empty E name d e1)

  -- The file holds the old bytes, or those of the new records; the new ones if no error is reported.
  abbrev pub Swapped : Text → Disk → List Text → Disk × Wal × Option (WalError E) → Type 0
  Swapped name d ps out =
      ((content out.0 name ≡ content d name) ⊎ (content out.0 name ≡ frames ps))
      × (out.2 ≡ none → content out.0 name ≡ frames ps)

  -- the calls of Replace after the renaming
  after_rename-Keeps : (name : Text) → Keeps name (do call {E = E}; call; call; lock_file name)
  after_rename-Keeps name = search keeps_rules

  installed-Swapped :
      (w : Wal) (name : Text) (d : Disk) (ps : List Text)
      (r : Disk × Attempt (Unit {0}) (WalError E))
      → content r.0 name ≡ frames ps
      → Swapped name d ps (installed w r)
  unfolding installed
  installed-Swapped w name d ps (d1, done x) h = (inr h, λ e. h)
  installed-Swapped w name d ps (d1, failed x) h = (inr h, λ e. cc)

  renamed-Swapped :
      (w : Wal) (name : Text) (d : Disk) (ps : List Text)
      (r : Disk × Attempt (Unit {0}) (WalError E))
      → ((r.1 ≡ failed io_error) × (content r.0 name ≡ content d name))
        ⊎ ((r.1 ≡ done tt) × (content r.0 name ≡ frames ps))
      → Swapped name d ps
          (installed w (continue r (λ _. (do call {E = E}; call; call; lock_file name))))
  unfolding installed
  renamed-Swapped w name d ps (d1, failed e) (inl (_, same)) = (inl same, λ h. cc)
  renamed-Swapped w name d ps (d1, failed e) (inr (ok, _)) = cc
  renamed-Swapped w name d ps (d1, done x) (inl (bad, _)) = cc
  renamed-Swapped w name d ps (d1, done x) (inr (_, new)) =
      installed-Swapped w name d ps _ ((after_rename-Keeps name).at d1 ∙ new)

  install-Swapped :
      (w : Wal) (name : Text) (d d0 : Disk) (ps : List Text)
      → content d name ≡ content d0 name
      → content d (compact_name name) ≡ frames ps
      → Swapped name d0 ps (installed w (install {E = E} name d))
  unfolding install
  install-Swapped w name d d0 ps old new =
      renamed-Swapped w name d0 ps (rename {E = E} (compact_name name) name d)
        (elim (content-rename E (compact_name name) name d (compact_name-ne name)) [
          | inl (bad, same) ↦ inl (bad, same ∙ old)
          | inr (ok, moved) ↦ inr (ok, moved ∙ new)
        ])

  swap_files-Swapped :
      (w : Wal) (d d0 : Disk) (ps : List Text)
      → content d w.name ≡ content d0 w.name
      → content d (compact_name w.name) ≡ frames ps
      → Swapped w.name d0 ps (swap_files {E = E} w d)
  unfolding swap_files
  swap_files-Swapped w d d0 ps old new = elim (Bool-cases (refused d || not w.is_open)) [
    | inl bad ↦
        rw (bad, swap_files)
          (
            inl (
                remove_file-Spares w.name (compact_name w.name) (compact_name-ne w.name)
                  (release w.name d)
                ∙ release-Spares w.name w.name d
                ∙ old),
            λ h. cc,
          )
    | inr good ↦
        rw (good, swap_files)
          (install-Swapped (record w { is_open = false }) w.name (release w.name d) d0 ps
            (release-Spares w.name w.name d ∙ old)
            (release-Spares (compact_name w.name) w.name d ∙ new))
  ]

  compacted-Swapped :
      (w : Wal) (d d0 : Disk) (ps : List Text) (r : Disk × Attempt (Unit {0}) (WalError E))
      → content r.0 w.name ≡ content d0 w.name
      → (r.1 ≡ done tt → content r.0 (compact_name w.name) ≡ frames ps)
      → Swapped w.name d0 ps (compacted w r)
  unfolding compacted
  compacted-Swapped w d d0 ps (d1, done x) old new = swap_files-Swapped w d1 d0 ps old (new refl)
  compacted-Swapped w d d0 ps (d1, failed e) old new = (inl old, λ h. cc)

  -- Whatever calls fail, after Replace the journal's file holds its old bytes or the records that
  -- Replace was given, whole; if it reports no error, the file holds those records.
  pub replace-Swapped :
      (w : Wal) (ps : List Text) (d : Disk) → Swapped w.name d ps (replace {E = E} w ps d)
  unfolding replace
  replace-Swapped w ps d = elim (Bool-cases w.broken) [
    | inl bad ↦ rw (bad, replace) (inl refl, λ h. cc)
    | inr good ↦ elim (Bool-cases w.is_file) [
      | inr other ↦ rw (good, other, replace) (inl refl, λ h. cc)
      | inl file ↦
          simp (good, file)
            (compacted-Swapped w d d ps (write_compacted (compact_name w.name) ps d)
              ((write_compacted-Keeps E w.name (compact_name w.name) ps (compact_name-ne w.name)).at
                d)
              (λ ok. write_compacted-done (compact_name w.name) ps d (pair_of _ ok)))
    ]
  ]
