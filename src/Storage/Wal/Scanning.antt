-- ===== src/Storage/Wal/Scanning.antt =====
-- internal/storage/wal.go: the loop of OpenJournal against the records that a file holds.
use shard_zero.Prelude.{
  ℕ, zero, suc, ◌+◌, ◌<◌, ◌≤◌, ◌≡◌, ◌⊎◌, inl, inr, refl, sym, ap, ◌∙◌, subst, true, false, List, [],
  ◌∷◌, ◌++◌, Text, length, take, drop, All, Attempt, done, failed, arith, ltb, ◌==◌, Bool-cases,
  ==_iff, length-append, length-take, length-drop,
}
use mathlib.Core.Path.{◌≡⟨◌⟩◌, ◌∎}
use mathlib.Core.List.{append_assoc}
use shard_zero.Storage.Disk.{Disk, WalError, refused, next_call}
use shard_zero.Storage.Frames.{checksum, put_uint32, uint32, frame, frames}
use shard_zero.Storage.Frames.Encoding.{
  IsByte, header-uint32, drop-append_left, take-drop, All-take, All-drop, length-frame,
  frame-header,
}
use shard_zero.Storage.Wal.{
  bad_size, Scan, ended, torn, stopped, Round, over, more, replay_record, read_payload, read_record,
  scan,
}
use shard_zero.Storage.Wal.Records.{IsPayload, IsTorn, Replays, nothing, first}

pub Attempt-cases :
    {A E : Type 0} (r : Attempt A E) → ((a : A) × (r ≡ done a)) ⊎ ((e : E) × (r ≡ failed e))
Attempt-cases (done a) = inl (a, refl)
Attempt-cases (failed e) = inr (e, refl)

-- What eight bytes and the rest say, if the size and the checksum fit.
frame_of :
    (h rest : Text)
    → length h ≡ 8
    → All IsByte h
    → (uint32 h ≤ length rest)
    → checksum (take (uint32 h) rest) ≡ uint32 (drop 4 h)
    → (length (take (uint32 h) rest) ≡ uint32 h)
      × (h ++ rest ≡ frame (take (uint32 h) rest) ++ drop (uint32 h) rest)
frame_of h rest len all fits sum =
    let size : length (take (uint32 h) rest) ≡ uint32 h =
      omega (arith, length-take (uint32 h) rest) in
    (
      size,
      h ++ rest
          ≡⟨ ap (λ t. h ++ t) (sym (take-drop (uint32 h) rest)) ⟩
            h ++ (take (uint32 h) rest ++ drop (uint32 h) rest)
          ≡⟨ sym (append_assoc h (take (uint32 h) rest) (drop (uint32 h) rest)) ⟩
            (h ++ take (uint32 h) rest) ++ drop (uint32 h) rest
          ≡⟨ ap (λ t. (t ++ take (uint32 h) rest) ++ drop (uint32 h) rest)
              (sym (header-uint32 h len all)) ⟩
            ((put_uint32 (uint32 h) ++ put_uint32 (uint32 (drop 4 h))) ++ take (uint32 h) rest)
            ++ drop (uint32 h) rest
          ≡⟨ (rw (frame-header (take (uint32 h) rest), size, sum)) ⟩
            frame (take (uint32 h) rest) ++ drop (uint32 h) rest ∎,
    )

module _ {S E : Type 0} (replay : S → Text → Attempt S E) where
  -- What one round can find.
  data RoundCases (s : S) (offset : ℕ) (rest : Text) (r : Round S E) : Type 0 where
    at_end : rest ≡ [] → r ≡ over (ended s offset) → RoundCases s offset rest r
    incomplete : IsTorn rest → r ≡ over (torn s offset) → RoundCases s offset rest r
    broken : (e : WalError E) → r ≡ over (stopped e) → RoundCases s offset rest r
    whole :
        (t : S) (p tail : Text)
        → rest ≡ frame p ++ tail
        → IsPayload p
        → replay s p ≡ done t
        → r ≡ more t (offset + length (frame p)) tail
        → RoundCases s offset rest r

  replay_record_cases :
      (s : S) (offset size : ℕ) (p tail rest : Text)
      → length p ≡ size
      → rest ≡ frame p ++ tail
      → bad_size size ≡ false
      → RoundCases s offset rest (replay_record replay s offset size p tail)
  unfolding replay_record
  replay_record_cases s offset size p tail rest len e good = elim (Attempt-cases (replay s p)) [
    | inl (t, ok) ↦
        rw (ok, replay_record)
          (whole t p tail e (rw len good) ok
            (ap (λ k. more t k tail) (omega (arith, length-frame p, len))))
    | inr (x, bad) ↦ rw (bad, replay_record) (broken _ refl)
  ]

  read_payload_cases :
      (d : Disk) (s : S) (offset : ℕ) (rest : Text)
      → All IsByte rest
      → 8 ≤ length rest
      → RoundCases s offset rest (read_payload replay d s offset (take 8 rest) (drop 8 rest)).1
  unfolding read_payload
  read_payload_cases d s offset rest all long =
      let h = take 8 rest in
      let tail = drop 8 rest in
      let n = uint32 h in
      elim (Bool-cases (bad_size n)) [
        | inl bad ↦ rw bad (broken _ refl)
        | inr size ↦ rw size (elim (Bool-cases (ltb (length tail) n)) [
          | inl short ↦ rw short (elim (Bool-cases (refused d)) [
            | inl bad ↦ rw bad (broken _ refl)
            | inr good ↦ rw good (
                incomplete
                  (omega (arith, long), inr (long, size, ground (arith, length-drop 8 rest))) refl)
          ])
          | inr fits ↦ rw fits (elim (Bool-cases (refused d)) [
            | inl bad ↦ rw bad (broken _ refl)
            | inr good ↦ rw good (elim (Bool-cases (checksum (take n tail) == uint32 (drop 4 h))) [
              | inr differ ↦ rw differ (broken _ refl)
              | inl same ↦ rw same (
                  let (len, e) =
                    frame_of h tail (omega (arith, length-take 8 rest, long))
                      (All-take IsByte 8 rest all) (ground (arith, fits)) ((==_iff _ _).0 same) in
                  replay_record_cases s offset n (take n tail) (drop n tail) rest len
                    (sym (take-drop 8 rest) ∙ e) size)
            ])
          ])
        ])
      ]

  nil_of_length : (rest : Text) → (length rest == 0) ≡ true → rest ≡ []
  nil_of_length [] h = refl
  nil_of_length (x ∷ rest) h = ground arith

  read_record_cases :
      (d : Disk) (s : S) (offset : ℕ) (rest : Text)
      → All IsByte rest
      → RoundCases s offset rest (read_record replay d s offset rest).1
  unfolding read_record
  read_record_cases d s offset rest all = elim (Bool-cases (refused d)) [
    | inl bad ↦ rw bad (broken _ refl)
    | inr good ↦ rw good (elim (Bool-cases (length rest == 0)) [
      | inl e ↦ rw e (at_end (nil_of_length rest e) refl)
      | inr some_left ↦ rw some_left (elim (Bool-cases (ltb (length rest) 8)) [
        | inl short ↦ rw short (incomplete (ground arith, inl (ground arith)) refl)
        | inr long ↦
            rw long (read_payload_cases (next_call d) s offset rest all (ground (arith, long)))
      ])
    ])
  ]

  -- What the whole loop can find.
  pub data ScanCases (s : S) (offset : ℕ) (rest : Text) (r : Scan S E) : Type 0 where
    all_read :
        (t : S) (ps : List Text)
        → rest ≡ frames ps
        → Replays replay s ps t
        → r ≡ ended t (offset + length (frames ps))
        → ScanCases s offset rest r
    cut :
        (t : S) (ps : List Text) (tail : Text)
        → rest ≡ frames ps ++ tail
        → IsTorn tail
        → Replays replay s ps t
        → r ≡ torn t (offset + length (frames ps))
        → ScanCases s offset rest r
    error : (e : WalError E) → r ≡ stopped e → ScanCases s offset rest r

  after_record :
      (s t : S) (offset : ℕ) (p rest tail : Text) (r : Scan S E)
      → rest ≡ frame p ++ tail
      → IsPayload p
      → replay s p ≡ done t
      → ScanCases t (offset + length (frame p)) tail r
      → ScanCases s offset rest r
  unfolding frames
  after_record s t offset p rest tail r e size ok (all_read u ps all run end) =
      all_read u (p ∷ ps) (e ∙ ap (λ q. frame p ++ q) all) (first p size ok run)
        (end ∙ ap (ended u) (omega (arith, length-append (frame p) (frames ps))))
  after_record s t offset p rest tail r e size ok (cut u ps left all some_left run end) =
      cut u (p ∷ ps) left
        (e ∙ ap (λ q. frame p ++ q) all ∙ sym (append_assoc (frame p) (frames ps) left)) some_left
        (first p size ok run)
        (end ∙ ap (torn u) (omega (arith, length-append (frame p) (frames ps))))
  after_record s t offset p rest tail r e size ok (error x k) = error x k

  All-frame : (p tail rest : Text) → rest ≡ frame p ++ tail → All IsByte rest → All IsByte tail
  All-frame p tail rest e all =
      subst (All IsByte) (drop-append_left (frame p) tail)
        (All-drop IsByte (length (frame p)) (frame p ++ tail) (subst (All IsByte) e all))

  pub scan_cases :
      (fuel : ℕ) (d : Disk) (s : S) (offset : ℕ) (rest : Text)
      → All IsByte rest
      → length rest < fuel
      → ScanCases s offset rest (scan replay fuel d s offset rest).1
  unfolding scan frames
  scan_cases zero d s offset rest all enough = elim enough [ ]
  scan_cases (suc fuel) d s offset rest all enough = elim (read_record_cases d s offset rest all) [
    | at_end e k ↦ rw (k, scan) (all_read s [] e (nothing s) (ap (ended s) (omega arith)))
    | incomplete left k ↦
        rw (k, scan) (cut s [] rest refl left (nothing s) (ap (torn s) (omega arith)))
    | broken x k ↦ rw (k, scan) (error x refl)
    | whole t p tail e size ok k ↦
        rw (k, scan)
          (after_record s t offset p rest tail _ e size ok (
            scan_cases fuel _ t (offset + length (frame p)) tail (All-frame p tail rest e all)
              (omega (arith, enough, ap length e, length-append (frame p) tail, length-frame p))))
  ]
