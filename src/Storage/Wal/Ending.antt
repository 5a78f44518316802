-- ===== src/Storage/Wal/Ending.antt =====
-- internal/storage/wal.go: the loop of OpenJournal ends.
use shard_zero.Prelude.{
  ℕ, zero, suc, ◌<◌, ◌≢◌, Text, length, take, drop, ltb, ◌==◌, Attempt, arith, Bool-cases, inl, inr,
  length-drop,
}
use shard_zero.Prelude.Dict.{text_key}
use shard_zero.Storage.Disk.{Disk, refused, next_call}
use shard_zero.Storage.Wal.{
  stuck, Round, over, more, read_record, read_payload, replay_record, scan, bad_size,
}
use shard_zero.Storage.Wal.Reading.{Round-cases}
use shard_zero.Storage.Wal.Scanning.{Attempt-cases}
use shard_zero.Storage.Frames.{uint32, checksum}

module _ {S E : Type 0} (replay : S → Text → Attempt S E) where
  -- A round ends the loop, or goes on with less than `n` bytes.
  abbrev Progress : ℕ → Round S E → Type 0
  Progress n (over r) = r ≢ stuck
  Progress n (more t k left) = length left < n

  replay_record-Progress :
      (s : S) (offset size n : ℕ) (payload rest : Text)
      → length rest < n
      → Progress n (replay_record replay s offset size payload rest)
  unfolding replay_record
  replay_record-Progress s offset size n payload rest h = elim (Attempt-cases (replay s payload)) [
    | inl (t, ok) ↦ rw (ok, replay_record) h
    | inr (e, bad) ↦ rw (bad, replay_record) (λ x. cc)
  ]

  read_payload-Progress :
      (d : Disk) (s : S) (offset n : ℕ) (header rest : Text)
      → length rest < n
      → Progress n (read_payload replay d s offset header rest).1
  unfolding read_payload
  read_payload-Progress d s offset n header rest h =
      let size = uint32 header in
      elim (Bool-cases (bad_size size)) [
        | inl bad ↦ rw bad (λ x. cc)
        | inr good ↦ rw good (elim (Bool-cases (ltb (length rest) size)) [
          | inl short ↦ rw short (elim (Bool-cases (refused d)) [
            | inl bad ↦ rw bad (λ x. cc)
            | inr calm ↦ rw calm (λ x. cc)
          ])
          | inr fits ↦ rw fits (elim (Bool-cases (refused d)) [
            | inl bad ↦ rw bad (λ x. cc)
            | inr calm ↦
                rw calm (elim (Bool-cases (checksum (take size rest) == uint32 (drop 4 header))) [
                  | inr differ ↦ rw differ (λ x. cc)
                  | inl same ↦ rw same (
                      replay_record-Progress s offset size n (take size rest) (drop size rest)
                        (omega (arith, h, length-drop size rest)))
                ])
          ])
        ])
      ]

  read_record-Progress :
      (d : Disk) (s : S) (offset : ℕ) (rest : Text)
      → Progress (length rest) (read_record replay d s offset rest).1
  unfolding read_record
  read_record-Progress d s offset rest = elim (Bool-cases (refused d)) [
    | inl bad ↦ rw bad (λ x. cc)
    | inr good ↦ rw good (elim (Bool-cases (length rest == 0)) [
      | inl e ↦ rw e (λ x. cc)
      | inr some_left ↦ rw some_left (elim (Bool-cases (ltb (length rest) 8)) [
        | inl short ↦ rw short (λ x. cc)
        | inr long ↦ rw long (
            read_payload-Progress (next_call d) s offset (length rest) (take 8 rest) (drop 8 rest)
              (ground (arith, long, length-drop 8 rest)))
      ])
    ])
  ]

  -- On any file, whatever calls fail, as many rounds as the file has bytes, and one more, are enough
  -- for the loop of OpenJournal.
  pub scan_ends :
      (fuel : ℕ) (d : Disk) (s : S) (offset : ℕ) (rest : Text)
      → length rest < fuel
      → (scan replay fuel d s offset rest).1 ≢ stuck
  unfolding scan
  scan_ends zero d s offset rest enough = elim enough [ ]
  scan_ends (suc fuel) d s offset rest enough =
      let progress = read_record-Progress d s offset rest in
      elim (Round-cases replay (read_record replay d s offset rest).1) [
        | inl (x, k) ↦ rw (k, scan) (rw k at progress)
        | inr (t, n, left, k) ↦
            let shorter : length left < length rest = rw k at progress in
            rw (k, scan) (scan_ends fuel _ t n left (omega (arith, enough, shorter)))
      ]
