-- ===== src/Prelude/Strings.antt =====
-- A Go string: a list of bytes, which need not be UTF-8.
use Prim.Native.Nat.{ℕ, zero, suc, ◌+◌, ◌/◌, ◌%◌}
use Prim.Native.Char.{code}
use Prim.Native.String.{String}
use mathlib.Core.Path.{◌≡◌, refl}
use mathlib.Core.Logic.{◌↔◌}
use mathlib.Core.Bool.{Bool, true, false, ◌&&◌}
use mathlib.Core.List.{List, [], ◌∷◌}
use native.Mathlib.Omega.{arith}
use shard_zero.Prelude.Tests.{leb, ◌==◌, ltb, if◌then◌else◌}

abbrev pub Text : Type 0
Text = List ℕ

-- An ASCII literal of the source.
abbrev pub bytes : String → Text
bytes String.[] = []
bytes (String.◌∷◌ c s) = code c ∷ bytes s

-- `==` on strings
unfoldable pub text_eq : Text → Text → Bool
text_eq [] [] = true
text_eq (x ∷ xs) (y ∷ ys) = x == y && text_eq xs ys
text_eq _ _ = false

text_eq→eq : (a b : Text) → text_eq a b ≡ true → a ≡ b
unfolding text_eq
text_eq→eq [] [] h = refl
text_eq→eq [] (y ∷ ys) h = ground arith
text_eq→eq (x ∷ xs) [] h = ground arith
text_eq→eq (x ∷ xs) (y ∷ ys) h = ground (arith, text_eq→eq xs ys)

pub text_eq_refl : (a : Text) → text_eq a a ≡ true
unfolding text_eq
text_eq_refl [] = refl
text_eq_refl (x ∷ xs) = ground (arith, text_eq_refl xs)

pub text_eq_iff : (a b : Text) → (text_eq a b ≡ true) ↔ (a ≡ b)
text_eq_iff a b = (text_eq→eq a b, λ e. ground (arith, text_eq_refl a))

-- `utf8.ValidString`: `lo` to `hi` is what the next byte may be, and `more` the continuation bytes
-- that follow it; at `none pending` the next byte starts a character.
abbrev in_range : ℕ → ℕ → ℕ → Bool
in_range lo hi c = leb lo c && leb c hi

pub data Pending : Type 0 where
  start : Pending
  rest : ℕ → ℕ → ℕ → Pending
  broken : Pending

first_byte : ℕ → Pending
first_byte c =
    if ltb c 0x80
    then start
    else if in_range 0xc2 0xdf c
    then rest 0x80 0xbf 0
    else if c == 0xe0
    then rest 0xa0 0xbf 1
    else if c == 0xed
    then rest 0x80 0x9f 1
    else if in_range 0xe1 0xef c
    then rest 0x80 0xbf 1
    else if c == 0xf0
    then rest 0x90 0xbf 2
    else if in_range 0xf1 0xf3 c
    then rest 0x80 0xbf 2
    else if c == 0xf4
    then rest 0x80 0x8f 2
    else broken

next_byte : Pending → ℕ → Pending
unfolding first_byte
next_byte start c = first_byte c
next_byte (rest lo hi zero) c = if in_range lo hi c then start else broken
next_byte (rest lo hi (suc more)) c = if in_range lo hi c then rest 0x80 0xbf more else broken
next_byte broken c = broken

scan_utf8 : Pending → Text → Bool
unfolding next_byte
scan_utf8 start [] = true
scan_utf8 (rest _ _ _) [] = false
scan_utf8 broken [] = false
scan_utf8 p (c ∷ s) = scan_utf8 (next_byte p c) s

unfoldable pub valid_utf8 : Text → Bool
unfolding scan_utf8
valid_utf8 s = scan_utf8 start s

valid_utf8_test : valid_utf8 (0xe2 ∷ 0x80 ∷ 0x93 ∷ 0x41 ∷ []) ≡ true
unfolding valid_utf8
valid_utf8_test = refl

overlong_test : valid_utf8 (0xc0 ∷ 0x80 ∷ []) ≡ false
unfolding valid_utf8
overlong_test = refl

-- `%d`: the decimal digits, the last first. 20 digits are enough for a uint64.
digits_of : ℕ → ℕ → Text → Text
digits_of zero n acc = acc
digits_of (suc fuel) n acc =
    let more = digits_of fuel (n / 10) ((48 + n % 10) ∷ acc) in
    if ltb n 10 then (48 + n % 10) ∷ acc else more

unfoldable pub decimal : ℕ → Text
unfolding digits_of
decimal n = digits_of 20 n []

decimal_test : decimal 728391 ≡ bytes "728391"
unfolding decimal
decimal_test = refl
