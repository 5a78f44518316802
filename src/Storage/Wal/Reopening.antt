-- ===== src/Storage/Wal/Reopening.antt =====
-- internal/storage/wal.go: OpenJournal on a disk where no call fails, and what it finds after a crash.
use shard_zero.Prelude.{
  ◌+◌, ◌≡◌, ◌⊎◌, inl, inr, refl, ap, ◌∙◌, true, false, none, List, [], ◌∷◌, ◌++◌, Text, text_eq,
  text_eq_iff, bytes, length, take, Attempt, done, failed, arith, ◌==◌,
}
use shard_zero.Prelude.Dict.{text_key, get, read, get-put}
use mathlib.Core.List.{append-nil}
use shard_zero.Storage.Disk.{
  Disk, WalError, cleaned, release, next_call, content, write_content, contains,
}
use shard_zero.Storage.Disk.Calls.{
  IsReliable, reliable-refused, call-reliable, create-reliable, truncate-reliable,
  lock_file-reliable, content-write_content_self, content-write_content_other,
}
use shard_zero.Storage.Frames.{frames}
use shard_zero.Storage.Frames.Encoding.{take-append_left}
use shard_zero.Storage.Wal.{
  Wal, scan, finish_open, after_scan, load, check_other, open_locked, open_journal, opened,
  bad_name, lock_name, other_name,
}
use shard_zero.Storage.Wal.Records.{IsTorn, Replays}
use shard_zero.Storage.Wal.Reading.{scan-SameFiles, scan-frames, at_tail}

-- A disk where no call fails, no process holds the directory or the journal, and there is no journal
-- of the other mode.
pub record IsFree (name : Text) (d : Disk) : Type 0 where
  pub calm : IsReliable d
  pub directory : contains d.locks lock_name ≡ false
  pub journal : contains d.locks name ≡ false
  pub alone : get d.files (other_name name) ≡ none

-- OpenJournal succeeds, with the state and the records of the file.
pub record Opens {S E : Type 0} (name : Text) (t : S) (ps : List Text)
    (r : Disk × Attempt (Wal × S) (WalError E)) : Type 0 where
  pub wal : Wal
  pub returned : r.1 ≡ done (wal, t)
  pub names : wal.name ≡ name
  pub usable : (wal.broken ≡ false) × (wal.is_open ≡ true) × (wal.is_file ≡ true)
  pub file : content r.0 name ≡ frames ps

name_of :
    (name : Text)
    → bad_name name ≡ false
    → (name ≡ bytes "commands.wal") ⊎ (name ≡ bytes "raft.wal")
name_of name known =
    ground (arith, text_eq_iff name (bytes "commands.wal"), text_eq_iff name (bytes "raft.wal"))

lock_name-differs :
    (name : Text)
    → bad_name name ≡ false
    → (text_eq lock_name name ≡ false) × (text_eq lock_name (other_name name) ≡ false)
unfolding text_eq
lock_name-differs name known = elim (name_of name known) [
  | inl e ↦ rw e (refl, refl)
  | inr e ↦ rw e (refl, refl)
]

module _ {S E : Type 0} (replay : S → Text → Attempt S E) where
  finish_open-reliable :
      (name : Text) (s : S) (d : Disk)
      → IsReliable d
      → finish_open replay name s d
        ≡ (next_call (next_call (next_call (next_call d))), done (opened replay name s))
  finish_open-reliable name s d calm = rw (
    reliable-refused d calm,
    reliable-refused (next_call d) calm,
    reliable-refused (next_call (next_call d)) calm,
    reliable-refused (next_call (next_call (next_call d))) calm,
  )

  finish_open-Opens :
      (name : Text) (s : S) (ps : List Text) (d : Disk)
      → IsReliable d
      → content d name ≡ frames ps
      → Opens name s ps (finish_open replay name s d)
  unfolding opened
  finish_open-Opens name s ps d calm file = rw (finish_open-reliable name s d calm) (record {
    wal = (opened replay name s).0;
    returned = refl;
    names = refl;
    usable = (refl, refl, refl);
    file = file;
  })

  after_scan-Opens :
      (name : Text) (s : S) (ps : List Text) (tail : Text) (d : Disk)
      → IsReliable d
      → (tail ≡ []) ⊎ IsTorn tail
      → content d name ≡ frames ps ++ tail
      → Opens name s ps (after_scan replay name (at_tail replay tail s (length (frames ps))) d)
  unfolding after_scan
  after_scan-Opens name s ps tail d calm (inl e) file = rw e (
      finish_open-Opens name s ps d calm
        (file ∙ ap (λ q. frames ps ++ q) e ∙ append-nil (frames ps)))
  after_scan-Opens name s ps tail d calm (inr left) file =
      let some_left : (length tail == 0) ≡ false = ground (arith, left.0) in
      let n = length (frames ps) in
      let d1 = write_content (next_call d) name (take n (content d name)) in
      rw (some_left, truncate-reliable E d calm name n, reliable-refused d1 calm)
        (finish_open-Opens name s ps (next_call d1) calm (
          content-write_content_self (next_call d) name (take n (content d name))
          ∙ ap (take n) file
          ∙ take-append_left (frames ps) tail))

  scanned-Opens :
      (name : Text) (s t : S) (ps : List Text) (tail c : Text) (d : Disk)
      → IsReliable d
      → Replays replay s ps t
      → (tail ≡ []) ⊎ IsTorn tail
      → content d name ≡ c
      → c ≡ frames ps ++ tail
      → Opens name t ps (
          after_scan replay name
            (scan replay (length c + 1) d s 0 c).1
            (scan replay (length c + 1) d s 0 c).0)
  scanned-Opens name s t ps tail c d calm run left file e =
      let fuel = length c + 1 in
      let d1 = (scan replay fuel d s 0 c).0 in
      let same = scan-SameFiles replay fuel d s 0 c in
      let end : (scan replay fuel d s 0 c).1 ≡ at_tail replay tail t (length (frames ps)) =
        ap (λ q. (scan replay fuel d s 0 q).1) e
        ∙ scan-frames replay fuel d s t 0 ps tail calm run left (omega (arith, ap length e))
        ∙ ap (at_tail replay tail t) (omega arith) in
      rw end (
        after_scan-Opens name t ps tail d1 (λ k. ap (λ o. o k) same.outcome ∙ calm k) left
          (ap (λ f. read f name []) same.files ∙ file ∙ e))

  cleaned-Opens :
      (name : Text) (t : S) (ps : List Text) (clean : Disk → Disk)
      (r : Disk × Attempt (Wal × S) (WalError E))
      → Opens name t ps r
      → Opens name t ps (cleaned clean r)
  cleaned-Opens name t ps clean (d, done x) o = o
  cleaned-Opens name t ps clean (d, failed e) o = cc o.returned

  load-Opens :
      (name : Text) (s t : S) (ps : List Text) (tail : Text) (d : Disk)
      → IsReliable d
      → Replays replay s ps t
      → (tail ≡ []) ⊎ IsTorn tail
      → content d name ≡ frames ps ++ tail
      → Opens name t ps (load replay name s d)
  unfolding load
  load-Opens name s t ps tail d calm run left file =
      scanned-Opens name s t ps tail (content d name) d calm run left refl file

  check_other-reliable :
      (name : Text) (d : Disk)
      → IsReliable d
      → get d.files (other_name name) ≡ none
      → check_other replay name d ≡ (next_call d, done tt)
  unfolding check_other
  check_other-reliable name d calm alone = rw (reliable-refused d calm, alone)

  open_locked-Opens :
      (name : Text) (s t : S) (ps : List Text) (tail : Text) (d : Disk)
      → IsReliable d
      → contains d.locks name ≡ false
      → get d.files (other_name name) ≡ none
      → Replays replay s ps t
      → (tail ≡ []) ⊎ IsTorn tail
      → content d name ≡ frames ps ++ tail
      → Opens name t ps (open_locked replay name s d)
  unfolding open_locked
  open_locked-Opens name s t ps tail d calm free alone run left file =
      let d1 = next_call d in
      let d2 = write_content (next_call d1) name (content d1 name) in
      let d3 = record (next_call d2) { locks = name ∷ d2.locks } in
      rw
        (
          check_other-reliable name d calm alone,
          create-reliable E d1 calm name,
          lock_file-reliable E d2 calm name free,
        )
        (cleaned-Opens name t ps (release name) (load replay name s d3) (
          load-Opens name s t ps tail d3 calm run left
            (content-write_content_self (next_call d1) name (content d1 name) ∙ file)))

  -- On a disk where no call fails, with the journal free and none of the other mode, OpenJournal of a
  -- file that holds records which replay, with an incomplete one after them or none, succeeds with
  -- their state, and leaves a file of exactly those records.
  pub open_journal-Opens :
      (name : Text) (s t : S) (ps : List Text) (tail : Text) (d : Disk)
      → bad_name name ≡ false
      → IsFree name d
      → Replays replay s ps t
      → (tail ≡ []) ⊎ IsTorn tail
      → content d name ≡ frames ps ++ tail
      → Opens name t ps (open_journal replay name s d)
  unfolding open_journal
  open_journal-Opens name s t ps tail d known free run left file =
      let d1 = next_call d in
      let d2 = write_content (next_call d1) lock_name (content d1 lock_name) in
      let d3 = record (next_call d2) { locks = lock_name ∷ d2.locks } in
      let (differs, other) = lock_name-differs name known in
      let unlocked : contains d3.locks name ≡ false = rw (differs, free.journal) in
      let alone : get d3.files (other_name name) ≡ none =
        get-put d.files lock_name (other_name name) (content d lock_name)
        ∙ rw (other, free.alone) in
      let same : content d3 name ≡ content d name =
        content-write_content_other d1 lock_name name (content d lock_name)
          (λ e. cc ((text_eq_iff lock_name name).1 e)) in
      rw
        (
          known,
          call-reliable E d free.calm,
          create-reliable E d1 free.calm lock_name,
          lock_file-reliable E d2 free.calm lock_name free.directory,
        )
        (cleaned-Opens name t ps (release lock_name) (open_locked replay name s d3)
          (open_locked-Opens name s t ps tail d3 free.calm unlocked alone run left (same ∙ file)))
