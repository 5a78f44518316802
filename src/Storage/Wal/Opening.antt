-- ===== src/Storage/Wal/Opening.antt =====
-- internal/storage/wal.go: what OpenJournal finds in a file, whatever it holds, and what it leaves.
use shard_zero.Prelude.{
  ℕ, ◌+◌, ◌≡◌, ◌⊎◌, inl, inr, ap, ◌∙◌, List, [], ◌++◌, Text, length, take, All, Attempt, done,
  arith, Bool-cases,
}
use shard_zero.Prelude.Dict.{text_key, read}
use shard_zero.Storage.Disk.{Disk, ◌>>◌, release, content, call, create, lock_file, truncate}
use shard_zero.Storage.Disk.Calls.{continue-done, cleaned-done, call-done, content-truncate}
use shard_zero.Storage.Disk.Keeping.{
  Keeps, keeps_rules, Keeps-call, Keeps-create, Keeps-lock_file, Keeps-done,
}
use shard_zero.Storage.Frames.{frames}
use shard_zero.Storage.Frames.Encoding.{IsByte, take-append_left}
use shard_zero.Storage.Wal.{
  Wal, Scan, scan, finish_open, truncate_tail, after_scan, load, check_other, open_locked,
  open_journal, opened, bad_name, lock_name,
}
use shard_zero.Storage.Wal.Records.{IsTorn, Replays}
use shard_zero.Storage.Wal.Scanning.{ScanCases, all_read, cut, error, scan_cases}
use shard_zero.Storage.Wal.Reading.{scan-SameFiles}

module _ {S E : Type 0} (replay : S → Text → Attempt S E) where
  -- A file that was opened: it holds whole records, which lead from one state to another, and before
  -- it held them too, with an incomplete one after them or none.
  pub record Restores (name : Text) (s t : S) (before after : Text) : Type 0 where
    pub payloads : List Text
    pub replays : Replays replay s payloads t
    pub kept : after ≡ frames payloads
    pub dropped :
        (before ≡ frames payloads)
        ⊎ ((tail : Text) × IsTorn tail × (before ≡ frames payloads ++ tail))

  finish_open-done :
      (name : Text) (s : S) (d : Disk) {d' : Disk} {r : Wal × S}
      → finish_open replay name s d ≡ (d', done r)
      → r ≡ opened replay name s
  finish_open-done name s d h =
      let (d1, _, e1, h1) = continue-done (call {E = E} d) _ h in
      let (d2, _, e2, h2) = continue-done (call {E = E} d1) _ h1 in
      let (d3, _, e3, h3) = continue-done (call {E = E} d2) _ h2 in
      let (d4, _, e4, h4) = continue-done (call {E = E} d3) _ h3 in cc h4

  finish_open-Keeps : (name : Text) (s : S) (other : Text) → Keeps other (finish_open replay name s)
  finish_open-Keeps name s other = search keeps_rules

  truncate_tail-content :
      (name : Text) (k : ℕ) (d : Disk) {d' : Disk} {x : Unit {0}}
      → truncate_tail replay name k d ≡ (d', done x)
      → content d' name ≡ take k (content d name)
  truncate_tail-content name k d h =
      let (d1, _, e1, h1) = continue-done (truncate {E = E} name k d) _ h in
      ap (λ (b : Disk). content b name) (call-done d1 h1) ∙ content-truncate name k d e1

  after_scan-Restores :
      (name : Text) (s : S) (before : Text) (r : Scan S E) (d d' : Disk) (w : Wal) (t : S)
      → ScanCases replay s 0 before r
      → content d name ≡ before
      → after_scan replay name r d ≡ (d', done (w, t))
      → Restores name s t before (content d' name)
  unfolding after_scan opened
  after_scan-Restores name s before r d d' w t (all_read u ps e run k) same h =
      let h1 : finish_open replay name u d ≡ (d', done (w, t)) = rw (k, after_scan) at h in
      let t_is : t ≡ u = cc (finish_open-done name u d h1) in
      let kept = Keeps-done name (finish_open replay name u) d (finish_open-Keeps name u name) h1 in
      record { payloads = ps; replays = rw t_is run; kept = kept ∙ same ∙ e; dropped = inl e }
  after_scan-Restores name s before r d d' w t (cut u ps tail e left run k) same h =
      let h1 : (truncate_tail replay name (0 + length (frames ps)) >> finish_open replay name u) d
          ≡ (d', done (w, t)) =
        rw (k, after_scan) at h in
      let (d1, _, e1, h2) =
        continue-done (truncate_tail replay name (0 + length (frames ps)) d) _ h1 in
      let t_is : t ≡ u = cc (finish_open-done name u d1 h2) in
      let kept =
        Keeps-done name (finish_open replay name u) d1 (finish_open-Keeps name u name) h2 in
      let shorter = truncate_tail-content name (0 + length (frames ps)) d e1 in
      record {
        payloads = ps;
        replays = rw t_is run;
        kept =
            kept
            ∙ shorter
            ∙ ap (take (0 + length (frames ps))) (same ∙ e)
            ∙ ap (λ k. take k (frames ps ++ tail)) (omega arith)
            ∙ take-append_left (frames ps) tail;
        dropped = inr (tail, left, e);
      }
  after_scan-Restores name s before r d d' w t (error x k) same h = cc (rw (k, after_scan) at h)

  load-Restores :
      (name : Text) (s t : S) (d d' : Disk) (w : Wal)
      → All IsByte (content d name)
      → load replay name s d ≡ (d', done (w, t))
      → Restores name s t (content d name) (content d' name)
  unfolding load
  load-Restores name s t d d' w all h =
      let before = content d name in
      let fuel = length before + 1 in
      after_scan-Restores name s before (scan replay fuel d s 0 before).1
        (scan replay fuel d s 0 before).0 d' w t
        (scan_cases replay fuel d s 0 before all (omega arith))
        (ap (λ f. read f name []) (scan-SameFiles replay fuel d s 0 before).files) h

  check_other-Keeps : (name other : Text) → Keeps other (check_other replay name)
  unfolding check_other
  check_other-Keeps name other = record { at = λ d. ground arith }

  open_locked-Restores :
      (name : Text) (s t : S) (d d' : Disk) (w : Wal)
      → All IsByte (content d name)
      → open_locked replay name s d ≡ (d', done (w, t))
      → Restores name s t (content d name) (content d' name)
  unfolding open_locked
  open_locked-Restores name s t d d' w all h =
      let (d1, _, e1, h1) = continue-done (check_other replay name d) _ h in
      let (d2, _, e2, h2) = continue-done (create {E = E} name d1) _ h1 in
      let (d3, _, e3, h3) = continue-done (lock_file {E = E} name d2) _ h2 in
      let h4 = cleaned-done (release name) (load replay name s d3) h3 in
      let same =
        Keeps-done name (lock_file {E = E} name) d2 (Keeps-lock_file name E name) e3
        ∙ Keeps-done name (create {E = E} name) d1 (Keeps-create name E name) e2
        ∙ Keeps-done name (check_other replay name) d (check_other-Keeps name name) e1 in
      rw same at (load-Restores name s t d3 d' w (rw same all) h4)

  -- If OpenJournal returns no error, on any disk and whatever calls failed, then the file held
  -- records of a good size and checksum, with an incomplete one after them or none; it holds exactly
  -- those records now, and the state is what their replay gives.
  pub open_journal-Restores :
      (name : Text) (s t : S) (d d' : Disk) (w : Wal)
      → All IsByte (content d name)
      → open_journal replay name s d ≡ (d', done (w, t))
      → Restores name s t (content d name) (content d' name)
  unfolding open_journal
  open_journal-Restores name s t d d' w all h = elim (Bool-cases (bad_name name)) [
    | inl bad ↦ cc (rw (bad, open_journal) at h)
    | inr good ↦
        let h0 = rw (good, open_journal) at h in
        let (d1, _, e1, h1) = continue-done (call {E = E} d) _ h0 in
        let (d2, _, e2, h2) = continue-done (create {E = E} lock_name d1) _ h1 in
        let (d3, _, e3, h3) = continue-done (lock_file {E = E} lock_name d2) _ h2 in
        let h4 = cleaned-done (release lock_name) (open_locked replay name s d3) h3 in
        let same =
          Keeps-done name (lock_file {E = E} lock_name) d2 (Keeps-lock_file name E lock_name) e3
          ∙ Keeps-done name (create {E = E} lock_name) d1 (Keeps-create name E lock_name) e2
          ∙ Keeps-done name (call {E = E}) d (Keeps-call name E) e1 in
        rw same at (open_locked-Restores name s t d3 d' w (rw same all) h4)
  ]
