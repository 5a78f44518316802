-- ===== src/Storage/Frames.antt =====
-- internal/storage/wal.go: the frame of a record, with Go's encoding/binary and hash/crc32.
pub mod Encoding
use shard_zero.Prelude.{
  ℕ, zero, suc, ◌+◌, ◌*◌, ◌/◌, ◌%◌, ◌^◌, ◌≡◌, refl, List, [], ◌∷◌, ◌++◌, Text, bytes, length, ◌==◌,
  if◌then◌else◌,
}
use Prim.Native.Nat.{bit_xor}

-- 16 MiB
abbrev pub max_record_bytes : ℕ
max_record_bytes = 16777216

-- one bit of the IEEE CRC-32
crc_bit : ℕ → ℕ
crc_bit c = let half = c / 2 in if c % 2 == 1 then bit_xor half 0xedb88320 else half

crc_bits : ℕ → ℕ → ℕ
unfolding crc_bit
crc_bits zero c = c
crc_bits (suc n) c = crc_bits n (crc_bit c)

crc_bytes : ℕ → Text → ℕ
unfolding crc_bits
crc_bytes c [] = c
crc_bytes c (b ∷ bs) = crc_bytes (crc_bits 8 (bit_xor c b)) bs

-- `crc32.ChecksumIEEE`
unfoldable pub checksum : Text → ℕ
unfolding crc_bytes
checksum s = bit_xor (crc_bytes 0xffffffff s) 0xffffffff % 2 ^ 32

checksum_test : checksum (bytes "123456789") ≡ 0xcbf43926
unfolding checksum
checksum_test = refl

-- `binary.BigEndian.PutUint32`, of a value as a uint32
unfoldable pub put_uint32 : ℕ → Text
put_uint32 n = (n / 2 ^ 24 % 256) ∷ (n / 2 ^ 16 % 256) ∷ (n / 2 ^ 8 % 256) ∷ (n % 256) ∷ []

-- `binary.BigEndian.Uint32` of the four bytes from the given one on
unfoldable pub uint32 : Text → ℕ
uint32 (a ∷ b ∷ c ∷ d ∷ _) = a * 2 ^ 24 + b * 2 ^ 16 + c * 2 ^ 8 + d
uint32 _ = 0

-- the record that Append and Replace write
unfoldable pub frame : Text → Text
unfolding put_uint32
frame payload = put_uint32 (length payload) ++ (put_uint32 (checksum payload) ++ payload)

-- records one after another
unfoldable pub frames : List Text → Text
frames [] = []
frames (p ∷ ps) = frame p ++ frames ps
