-- ===== src/Middleproxy/Crc.antt =====
-- hash/crc32 with the IEEE polynomial, as mtglib/internal/middleproxy/frame.go uses it.
use Prim.Native.Nat.{bit_xor}
use mathlib.Core.List.{foldl}
use mtg_multi.Prelude.{ℕ, zero, suc, ◌/◌, ◌%◌, ◌<◌, ◌≡◌, refl, ◌==◌, if◌then◌else◌, arith}
use mtg_multi.Prelude.Bytes.{Bytes, text}

-- One bit of the reflected CRC: shift right, and mix the polynomial in if a one fell out.
crc_bit : ℕ → ℕ
crc_bit c = if c % 2 == 1 then bit_xor (c / 2) 0xedb88320 else c / 2

crc_bits : ℕ → ℕ → ℕ
crc_bits zero c = c
crc_bits (suc n) c = crc_bits n (crc_bit c)

crc_byte : ℕ → ℕ → ℕ
unfolding crc_bits crc_bit
crc_byte c b = crc_bits 8 (bit_xor c b)

-- The checksum is a uint32.
unfoldable pub crc32 : Bytes → ℕ
unfolding crc_byte
crc32 b = bit_xor (foldl crc_byte 0xffffffff b) 0xffffffff % 4294967296

pub crc32-lt : (b : Bytes) → crc32 b < 4294967296
unfolding crc32
crc32-lt b = omega arith

-- The check value that the CRC catalogues give for this polynomial.
crc32_check : crc32 (text "123456789") ≡ 0xcbf43926
unfolding crc32
crc32_check = refl
