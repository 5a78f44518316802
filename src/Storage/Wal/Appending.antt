-- ===== src/Storage/Wal/Appending.antt =====
-- internal/storage/wal.go: what Append leaves of a record, and what a restart makes of it.
use shard_zero.Prelude.{
  ℕ, zero, suc, ◌<◌, ◌≤◌, ◌≡◌, ◌⊎◌, inl, inr, refl, sym, ap, ◌∙◌, true, false, Option, none, some,
  List, [], ◌∷◌, ◌++◌, Text, length, take, Attempt, done, failed, arith, leb, Bool-cases,
  length-take,
}
use shard_zero.Prelude.Dict.{text_key}
use mathlib.Core.List.{append-nil}
use shard_zero.Storage.Disk.{
  Disk, WalError, continue, call, refused, next_call, content, write, written, unavailable,
}
use shard_zero.Storage.Disk.Calls.{content-write_content_self}
use shard_zero.Storage.Frames.{frame, frames, uint32}
use shard_zero.Storage.Frames.Encoding.{
  header, size-header, take-frame, length-frame, frames-append,
}
use shard_zero.Storage.Wal.{Wal, bad_size, bad_name, write_record, append, appended, open_journal}
use shard_zero.Storage.Wal.Records.{IsPayload, IsTorn, Replays, Replays-append}
use shard_zero.Storage.Wal.Reopening.{IsFree, Opens, open_journal-Opens}

pub take_all : (k : ℕ) (s : Text) → length s ≤ k → take k s ≡ s
take_all zero [] h = refl
take_all zero (x ∷ s) h = elim h [ ]
take_all (suc k) [] h = refl
take_all (suc k) (x ∷ s) h = ap (λ q. x ∷ q) (take_all k s (omega (arith, h)))

take-take : (j k : ℕ) (s : Text) → j ≤ k → take j (take k s) ≡ take j s
take-take zero k s h = refl
take-take (suc j) zero s h = elim h [ ]
take-take (suc j) (suc k) [] h = refl
take-take (suc j) (suc k) (x ∷ s) h = ap (λ q. x ∷ q) (take-take j k s (omega (arith, h)))

-- A part of a frame is nothing, an incomplete record, or all of it.
part_of_frame :
    (k : ℕ) (p : Text)
    → IsPayload p
    → ((take k (frame p) ≡ []) ⊎ IsTorn (take k (frame p))) ⊎ (take k (frame p) ≡ frame p)
part_of_frame k p size = elim (Bool-cases (leb (length (frame p)) k)) [
  | inl all ↦ inr (take_all k (frame p) (ground (arith, all)))
  | inr part ↦ inl (less k p size (ground (arith, part)))
]
  where
    less :
        (k : ℕ) (p : Text)
        → IsPayload p
        → k < length (frame p)
        → (take k (frame p) ≡ []) ⊎ IsTorn (take k (frame p))
    less zero p size part = inl refl
    less (suc k) p size part =
        let n : length (take (suc k) (frame p)) ≡ suc k =
          omega (arith, length-take (suc k) (frame p), part) in
        inr (
          omega (arith, n),
          elim (Bool-cases (leb 8 (suc k))) [
            | inr short ↦ inl (ground (arith, n, short))
            | inl long ↦
                let whole : take 8 (take (suc k) (frame p)) ≡ header p =
                  take-take 8 (suc k) (frame p) (ground (arith, long))
                  ∙ ap (take 8) (sym (append-nil (frame p)))
                  ∙ take-frame p [] in
                let e : uint32 (take 8 (take (suc k) (frame p))) ≡ length p =
                  ap uint32 whole ∙ size-header p (ground (arith, size)) in
                inr (
                  ground (arith, n, long),
                  rw (e, size),
                  rw e (omega (arith, n, part, length-frame p)),
                )
          ],
        )

-- What Append can leave.
pub data AppendCases {E : Type 0} (w : Wal) (p : Text) (d : Disk)
    (out : Disk × Wal × Option (WalError E)) : Type 0 where
  rejected : (e : WalError E) → out ≡ (d, w, some e) → AppendCases w p d out
  stored :
      content out.0 w.name ≡ content d w.name ++ frame p
      → out.1 ≡ w
      → out.2 ≡ none
      → AppendCases w p d out
  lost :
      (k : ℕ)
      → content out.0 w.name ≡ content d w.name ++ take k (frame p)
      → out.1 ≡ record w { broken = true }
      → out.2 ≡ some unavailable
      → AppendCases w p d out

frames_with : (ps : List Text) (p : Text) → frames (ps ++ (p ∷ [])) ++ [] ≡ frames ps ++ frame p
frames_with ps p =
    rw (append-nil, frames-append ps (p ∷ []))
      (unfold frames in ap (λ q. frames ps ++ q) (append-nil (frame p)))

module _ (E : Type 0) where
  pub write_record_cases :
      (name p : Text) (d : Disk)
      → (k : ℕ) × (content (write_record {E = E} name p d).0 name
          ≡ content d name ++ take k (frame p))
        × (((write_record {E = E} name p d).1 ≡ done tt) → k ≡ length (frame p))
  unfolding write_record write
  write_record_cases name p d =
      let k = written (d.outcome d.calls) (length (frame p)) in
      (
        k,
        ground (
          arith,
          content-write_content_self (next_call d) name (content d name ++ take k (frame p)),
        ),
        λ h. ground arith,
      )

  appended_cases :
      (w : Wal) (p : Text) (d : Disk) (r : Disk × Attempt (Unit {0}) (WalError E)) (k : ℕ)
      → content r.0 w.name ≡ content d w.name ++ take k (frame p)
      → (r.1 ≡ done tt → k ≡ length (frame p))
      → AppendCases w p d
          (appended w ((λ (q : Disk × Attempt (Unit {0}) (WalError E)). continue q (λ _. call)) r))
  unfolding appended
  appended_cases w p d (d1, failed e) k left all = lost k left refl refl
  appended_cases w p d (d1, done tt) k left all = elim (Bool-cases (refused d1)) [
    | inl bad ↦ rw bad (lost k left refl refl)
    | inr good ↦ rw good (
        stored
          (left ∙ ap (λ q. content d w.name ++ q) (take_all k (frame p) (omega (arith, all refl))))
          refl refl)
  ]

  pub append_cases : (w : Wal) (p : Text) (d : Disk) → AppendCases w p d (append {E = E} w p d)
  unfolding append appended
  append_cases w p d = elim (Bool-cases w.broken) [
    | inl bad ↦ simp bad (rejected _ refl)
    | inr good ↦ simp good (elim (Bool-cases (bad_size (length p))) [
      | inl bad ↦ rw bad (rejected _ refl)
      | inr size ↦ rw size (elim (Bool-cases w.is_open) [
        | inr shut ↦ simp shut (
            lost 0 (sym (append-nil (content d w.name)))
              (ap (λ b. record w { is_open = b; broken = true }) (sym shut)) refl)
        | inl ready ↦ simp ready (
            let (k, left, all) = write_record_cases w.name p d in
            appended_cases w p d (write_record w.name p d) k left all)
      ])
    ])
  ]

module _ {S E : Type 0} (replay : S → Text → Attempt S E) where
  -- If a journal's file holds records which replay, then after an Append, whatever part of the new
  -- record was written, and then a crash, OpenJournal on a free disk with that file succeeds with the
  -- records before and their state, or with the new record too; with the new one if Append reported
  -- no error.
  pub reopen_after_append :
      (w : Wal) (p : Text) (d e : Disk) (s t u : S) (ps : List Text)
      → bad_name w.name ≡ false
      → content d w.name ≡ frames ps
      → Replays replay s ps t
      → IsPayload p
      → replay t p ≡ done u
      → IsFree w.name e
      → content e w.name ≡ content (append {E = E} w p d).0 w.name
      → (Opens w.name t ps (open_journal replay w.name s e)
          ⊎ Opens w.name u (ps ++ (p ∷ [])) (open_journal replay w.name s e))
        × ((append {E = E} w p d).2 ≡ none
            → Opens w.name u (ps ++ (p ∷ [])) (open_journal replay w.name s e))
  reopen_after_append w p d e s t u ps known file run size ok free same = go (append_cases E w p d)
    where
      old :
          (tail : Text)
          → (tail ≡ []) ⊎ IsTorn tail
          → content e w.name ≡ frames ps ++ tail
          → Opens w.name t ps (open_journal replay w.name s e)
      old tail left all = open_journal-Opens replay w.name s t ps tail e known free run left all

      grown :
          content e w.name ≡ frames ps ++ frame p
          → Opens w.name u (ps ++ (p ∷ [])) (open_journal replay w.name s e)
      grown all =
          open_journal-Opens replay w.name s u (ps ++ (p ∷ [])) [] e known free
            (Replays-append replay ps p run size ok) (inl refl) (all ∙ sym (frames_with ps p))

      go :
          AppendCases w p d (append {E = E} w p d)
          → (Opens w.name t ps (open_journal replay w.name s e)
              ⊎ Opens w.name u (ps ++ (p ∷ [])) (open_journal replay w.name s e))
            × ((append {E = E} w p d).2 ≡ none
                → Opens w.name u (ps ++ (p ∷ [])) (open_journal replay w.name s e))
      go (rejected x k) =
          let all : content e w.name ≡ frames ps ++ [] =
            same
            ∙ ap (λ (q : Disk × Wal × Option (WalError E)). content q.0 w.name) k
            ∙ file
            ∙ sym (append-nil (frames ps)) in
          (inl (old [] (inl refl) all), λ h. cc)
      go (stored all _ _) =
          let new = grown (same ∙ all ∙ ap (λ q. q ++ frame p) file) in (inr new, λ h. new)
      go (lost k all _ bad) =
          let here = same ∙ all ∙ ap (λ q. q ++ take k (frame p)) file in
          elim (part_of_frame k p size) [
            | inl part ↦ (inl (old (take k (frame p)) part here), λ h. cc)
            | inr whole ↦ (inr (grown (here ∙ ap (λ q. frames ps ++ q) whole)), λ h. cc)
          ]
