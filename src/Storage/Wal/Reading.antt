-- ===== src/Storage/Wal/Reading.antt =====
-- internal/storage/wal.go: the loop of OpenJournal finds every record of a file, when no call fails.
use shard_zero.Prelude.{
  ℕ, zero, suc, ◌+◌, ◌<◌, ◌≡◌, inl, inr, ◌⊎◌, refl, ap, ◌∙◌, true, false, List, [], ◌++◌, Text,
  length, take, drop, Attempt, done, arith, ltb, ◌==◌, length-append, length-drop, ==_iff,
  if◌then◌else◌,
}
use mathlib.Core.List.{append_assoc}
use shard_zero.Storage.Disk.{Disk, next_call}
use shard_zero.Storage.Disk.Calls.{IsReliable, reliable-refused}
use shard_zero.Storage.Frames.{checksum, uint32, frame, frames}
use shard_zero.Storage.Frames.Encoding.{
  header, size-header, checksum-header, take-frame, drop-frame, take-append_left, drop-append_left,
  length-frame,
}
use shard_zero.Storage.Wal.{
  Scan, ended, torn, Round, over, more, replay_record, read_payload, read_record, scan,
}
use shard_zero.Storage.Wal.Records.{IsPayload, IsTorn, Replays, nothing, first}

size_of_payload : (p : Text) → IsPayload p → uint32 (header p) ≡ length p
size_of_payload p size = size-header p (ground (arith, size))

-- A call of the system changes neither the files nor the locks.
pub record SameFiles (d d' : Disk) : Type 0 where
  pub files : d'.files ≡ d.files
  pub locks : d'.locks ≡ d.locks
  pub outcome : d'.outcome ≡ d.outcome

module _ {S E : Type 0} (replay : S → Text → Attempt S E) where
  replay_record-done :
      (s t : S) (offset size : ℕ) (p rest : Text)
      → replay s p ≡ done t
      → replay_record replay s offset size p rest ≡ more t (offset + (8 + size)) rest
  unfolding replay_record
  replay_record-done s t offset size p rest ok = rw (ok, replay_record)

  read_payload-frame :
      (d : Disk) (s t : S) (offset : ℕ) (p rest : Text)
      → IsReliable d
      → IsPayload p
      → replay s p ≡ done t
      → (read_payload replay d s offset (header p) (p ++ rest)).1
        ≡ more t (offset + length (frame p)) rest
  unfolding read_payload
  read_payload-frame d s t offset p rest calm size ok =
      let fits : ltb (length (p ++ rest)) (length p) ≡ false =
        ground (arith, length-append p rest) in
      let same : (checksum p == checksum p) ≡ true = (==_iff _ _).1 refl in
      rw
        (
          size_of_payload p size,
          size,
          fits,
          reliable-refused d calm,
          take-append_left p rest,
          drop-append_left p rest,
          checksum-header p,
          same,
        )
        (replay_record-done s t offset (length p) p rest ok
          ∙ ap (λ k. more t k rest) (omega (arith, length-frame p)))

  read_record-frame :
      (d : Disk) (s t : S) (offset : ℕ) (p rest : Text)
      → IsReliable d
      → IsPayload p
      → replay s p ≡ done t
      → (read_record replay d s offset (frame p ++ rest)).1
        ≡ more t (offset + length (frame p)) rest
  unfolding read_record
  read_record-frame d s t offset p rest calm size ok =
      let some_left : (length (frame p ++ rest) == 0) ≡ false =
        ground (arith, length-append (frame p) rest, length-frame p) in
      let long : ltb (length (frame p ++ rest)) 8 ≡ false =
        ground (arith, length-append (frame p) rest, length-frame p) in
      rw (reliable-refused d calm, some_left, long, take-frame p rest, drop-frame p rest)
        (read_payload-frame (next_call d) s t offset p rest calm size ok)

  read_record-torn :
      (d : Disk) (s : S) (offset : ℕ) (tail : Text)
      → IsReliable d
      → IsTorn tail
      → (read_record replay d s offset tail).1 ≡ over (torn s offset)
  unfolding read_record read_payload
  read_record-torn d s offset tail calm (some_left, inl short) =
      let e : (length tail == 0) ≡ false = ground (arith, some_left) in
      let f : ltb (length tail) 8 ≡ true = ground (arith, short) in
      rw (reliable-refused d calm, e, f)
  read_record-torn d s offset tail calm (some_left, inr (long, size, short)) =
      let e : (length tail == 0) ≡ false = ground (arith, some_left) in
      let f : ltb (length tail) 8 ≡ false = ground (arith, long) in
      let g : ltb (length (drop 8 tail)) (uint32 (take 8 tail)) ≡ true =
        ground (arith, short, length-drop 8 tail) in
      rw (reliable-refused d calm, e, f, size, g, reliable-refused (next_call d) calm)

  read_record-SameFiles :
      (d : Disk) (s : S) (offset : ℕ) (rest : Text)
      → SameFiles d (read_record replay d s offset rest).0
  unfolding read_record read_payload
  read_record-SameFiles d s offset rest = ground arith

  SameFiles-trans : (a b c : Disk) → SameFiles a b → SameFiles b c → SameFiles a c
  SameFiles-trans a b c p q = record {
    files = q.files ∙ p.files;
    locks = q.locks ∙ p.locks;
    outcome = q.outcome ∙ p.outcome;
  }

  pub Round-cases :
      (r : Round S E)
      → ((x : Scan S E) × (r ≡ over x)) ⊎ ((s : S) × (k : ℕ) × (rest : Text) × (r ≡ more s k rest))
  Round-cases (over x) = inl (x, refl)
  Round-cases (more s k rest) = inr (s, k, rest, refl)

  pub scan-SameFiles :
      (fuel : ℕ) (d : Disk) (s : S) (offset : ℕ) (rest : Text)
      → SameFiles d (scan replay fuel d s offset rest).0
  unfolding scan
  scan-SameFiles zero d s offset rest = record { files = refl; locks = refl; outcome = refl }
  scan-SameFiles (suc fuel) d s offset rest =
      let d1 = (read_record replay d s offset rest).0 in
      let here = read_record-SameFiles d s offset rest in
      elim (Round-cases (read_record replay d s offset rest).1) [
        | inl (x, k) ↦ rw (k, scan) here
        | inr (t, n, left, k) ↦
            rw (k, scan) (SameFiles-trans d d1 _ here (scan-SameFiles fuel d1 t n left))
      ]

  -- How the loop ends where no whole record is left.
  abbrev pub at_tail : Text → S → ℕ → Scan S E
  at_tail tail s offset = if length tail == 0 then ended s offset else torn s offset

  read_record-tail :
      (d : Disk) (s : S) (offset : ℕ) (tail : Text)
      → IsReliable d
      → (tail ≡ []) ⊎ IsTorn tail
      → (read_record replay d s offset tail).1 ≡ over (at_tail tail s offset)
  read_record-tail d s offset tail calm (inl e) =
      rw e (unfold read_record in rw (reliable-refused d calm))
  read_record-tail d s offset tail calm (inr left) =
      let e : (length tail == 0) ≡ false = ground (arith, left.0) in
      rw e (read_record-torn d s offset tail calm left)

  scan-frame :
      (fuel : ℕ) (d : Disk) (s t : S) (offset : ℕ) (p rest : Text)
      → IsReliable d
      → IsPayload p
      → replay s p ≡ done t
      → scan replay (suc fuel) d s offset (frame p ++ rest)
        ≡ scan replay fuel
            (read_record replay d s offset (frame p ++ rest)).0
            t
            (offset + length (frame p))
            rest
  unfolding scan
  scan-frame fuel d s t offset p rest calm size ok =
      rw (read_record-frame d s t offset p rest calm size ok, scan)

  pub scan-frames :
      (fuel : ℕ) (d : Disk) (s t : S) (offset : ℕ) (ps : List Text) (tail : Text)
      → IsReliable d
      → Replays replay s ps t
      → (tail ≡ []) ⊎ IsTorn tail
      → length (frames ps ++ tail) < fuel
      → (scan replay fuel d s offset (frames ps ++ tail)).1
        ≡ at_tail tail t (offset + length (frames ps))
  unfolding scan frames
  scan-frames zero d s t offset ps tail calm run left enough = elim enough [ ]
  scan-frames (suc fuel) d s t offset _ tail calm (nothing _) left enough =
      rw (read_record-tail d s offset tail calm left, scan) (ap (at_tail tail s) (omega arith))
  scan-frames (suc fuel) d s t offset _ tail calm (first {t = u} p {ps = ps} size ok run) left
        enough =
      let body = frames ps ++ tail in
      let all = append_assoc (frame p) (frames ps) tail in
      let d1 = (read_record replay d s offset (frame p ++ body)).0 in
      let same = (read_record-SameFiles d s offset (frame p ++ body)).outcome in
      ap (λ q. (scan replay (suc fuel) d s offset q).1) all
      ∙ ap (λ (r : Disk × Scan S E). r.1) (scan-frame fuel d s u offset p body calm size ok)
      ∙ scan-frames fuel d1 u t (offset + length (frame p)) ps tail
          (λ k. ap (λ o. o k) same ∙ calm k) run left
          (omega (arith, enough, ap length all, length-append (frame p) body, length-frame p))
      ∙ ap (at_tail tail t) (omega (arith, length-append (frame p) (frames ps)))
