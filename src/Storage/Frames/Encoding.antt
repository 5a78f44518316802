-- ===== src/Storage/Frames/Encoding.antt =====
-- internal/storage/wal.go: the bytes of a frame, written and read back.
use shard_zero.Prelude.{
  ℕ, zero, suc, ◌+◌, ◌^◌, ◌<◌, ◌≡◌, refl, ap, List, [], ◌∷◌, ◌++◌, Text, length, take, drop, All,
  arith,
}
use mathlib.Core.List.{append_assoc}
use shard_zero.Storage.Frames.{checksum, put_uint32, uint32, frame, frames}

abbrev pub IsByte : ℕ → Type 0
IsByte b = b < 256

-- the header of a frame
abbrev pub header : Text → Text
header p = put_uint32 (length p) ++ put_uint32 (checksum p)

pub uint32-put_uint32 : (n : ℕ) (rest : Text) → n < 2 ^ 32 → uint32 (put_uint32 n ++ rest) ≡ n
unfolding uint32 put_uint32
uint32-put_uint32 n rest h = omega arith

checksum_lt : (p : Text) → checksum p < 2 ^ 32
unfolding checksum
checksum_lt p = omega arith

pub size-header : (p : Text) → length p < 2 ^ 32 → uint32 (header p) ≡ length p
size-header p h = uint32-put_uint32 (length p) (put_uint32 (checksum p)) h

pub checksum-header : (p : Text) → uint32 (drop 4 (header p)) ≡ checksum p
unfolding put_uint32 uint32
checksum-header p = omega (arith, checksum_lt p)

put_uint32-uint32 :
    (a b c d : ℕ) (rest : Text)
    → IsByte a
    → IsByte b
    → IsByte c
    → IsByte d
    → put_uint32 (uint32 (a ∷ b ∷ c ∷ d ∷ rest)) ≡ a ∷ b ∷ c ∷ d ∷ []
unfolding put_uint32 uint32
put_uint32-uint32 a b c d rest ha hb hc hd = ground arith

-- A header of eight bytes is that of its size and checksum.
pub header-uint32 :
    (h : Text)
    → length h ≡ 8
    → All IsByte h
    → put_uint32 (uint32 h) ++ put_uint32 (uint32 (drop 4 h)) ≡ h
header-uint32 (a ∷ b ∷ c ∷ d ∷ e ∷ f ∷ g ∷ i ∷ []) len
      (ha, (hb, (hc, (hd, (he, (hf, (hg, (hi, _)))))))) =
    rw (
      put_uint32-uint32 a b c d (e ∷ f ∷ g ∷ i ∷ []) ha hb hc hd,
      put_uint32-uint32 e f g i [] he hf hg hi,
    )
header-uint32 _ len all = absurd (omega arith)

pub take-frame : (p rest : Text) → take 8 (frame p ++ rest) ≡ header p
unfolding frame put_uint32
take-frame p rest = refl

pub drop-frame : (p rest : Text) → drop 8 (frame p ++ rest) ≡ p ++ rest
unfolding frame put_uint32
drop-frame p rest = refl

pub length-frame : (p : Text) → length (frame p) ≡ 8 + length p
unfolding frame put_uint32
length-frame p = omega arith

pub frame-header : (p : Text) → frame p ≡ header p ++ p
unfolding frame put_uint32
frame-header p = refl

pub take-append_left : (p rest : Text) → take (length p) (p ++ rest) ≡ p
take-append_left [] rest = refl
take-append_left (x ∷ p) rest = ap (λ q. x ∷ q) (take-append_left p rest)

pub drop-append_left : (p rest : Text) → drop (length p) (p ++ rest) ≡ rest
drop-append_left [] rest = refl
drop-append_left (x ∷ p) rest = drop-append_left p rest

pub take-drop : (n : ℕ) (s : Text) → take n s ++ drop n s ≡ s
take-drop zero s = refl
take-drop (suc n) [] = refl
take-drop (suc n) (x ∷ s) = ap (λ q. x ∷ q) (take-drop n s)

pub All-take : (P : ℕ → Type 0) (n : ℕ) (s : Text) → All P s → All P (take n s)
All-take P zero s h = tt
All-take P (suc n) [] h = tt
All-take P (suc n) (x ∷ s) h = (h.0, All-take P n s h.1)

pub All-drop : (P : ℕ → Type 0) (n : ℕ) (s : Text) → All P s → All P (drop n s)
All-drop P zero s h = h
All-drop P (suc n) [] h = tt
All-drop P (suc n) (x ∷ s) h = All-drop P n s h.1

pub frames-append : (ps qs : List Text) → frames (ps ++ qs) ≡ frames ps ++ frames qs
unfolding frames
frames-append [] qs = refl
frames-append (p ∷ ps) qs = rw (frames-append ps qs, append_assoc)
