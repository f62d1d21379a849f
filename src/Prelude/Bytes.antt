-- ===== src/Prelude/Bytes.antt =====
-- Byte strings: a byte is a number below 256. Go's encoding/binary, bytes.Equal and io.ReadFull.
use Prim.Native.Nat.{ℕ, ◌+◌, ◌*◌, ◌/◌, ◌%◌, ◌<◌}
use mathlib.Core.Path.{◌≡◌, refl}
use mathlib.Core.Option.{Option, none, some}
use mathlib.Core.List.{List, [], ◌∷◌, ◌++◌}
use native.Mathlib.Omega.{arith}
use Prim.Native.Char.{code}
use Prim.Native.String.{String}
use mtg_multi.Prelude.Tests.{ltb, if◌then◌else◌}
use mtg_multi.Prelude.Lists.{
  length, take, drop, length-append, length-take, take-append, drop-append, All, take-append-drop,
}

abbrev pub Bytes : Type 0
Bytes = List ℕ

abbrev pub IsByte : ℕ → Type 0
IsByte b = b < 256

abbrev pub IsBytes : Bytes → Type 0
IsBytes = All IsByte

-- The bytes of an ASCII text.
abbrev pub text : String → Bytes
text String.[] = []
text (String.◌∷◌ c s) = code c ∷ text s

-- binary.LittleEndian.PutUint32 and binary.BigEndian.PutUint16; the value is converted first.
unfoldable pub le32 : ℕ → Bytes
le32 n = (n % 256) ∷ (n / 256 % 256) ∷ (n / 65536 % 256) ∷ (n / 16777216 % 256) ∷ []

unfoldable pub be16 : ℕ → Bytes
be16 n = (n / 256 % 256) ∷ (n % 256) ∷ []

unfoldable pub le16 : ℕ → Bytes
le16 n = (n % 256) ∷ (n / 256 % 256) ∷ []

-- binary.LittleEndian.Uint32 and the like on the first bytes of a slice; a shorter slice panics
-- in Go, and no caller passes one.
unfoldable pub le32_value : Bytes → ℕ
le32_value (a ∷ b ∷ c ∷ d ∷ _) = a + 256 * b + 65536 * c + 16777216 * d
le32_value _ = 0

unfoldable pub be16_value : Bytes → ℕ
be16_value (a ∷ b ∷ _) = 256 * a + b
be16_value _ = 0

unfoldable pub le16_value : Bytes → ℕ
le16_value (a ∷ b ∷ _) = a + 256 * b
le16_value _ = 0

pub le32_value-le32 : (n : ℕ) → n < 4294967296 → le32_value (le32 n) ≡ n
unfolding le32_value le32
le32_value-le32 n h = omega arith

pub be16_value-be16 : (n : ℕ) → n < 65536 → be16_value (be16 n) ≡ n
unfolding be16_value be16
be16_value-be16 n h = omega arith

pub length-le32 : (n : ℕ) → length (le32 n) ≡ 4
unfolding le32
length-le32 n = refl

pub length-be16 : (n : ℕ) → length (be16 n) ≡ 2
unfolding be16
length-be16 n = refl

pub le32-IsBytes : (n : ℕ) → IsBytes (le32 n)
unfolding le32
le32-IsBytes n = omega arith

-- io.ReadFull of `n` bytes on a stream that will deliver `s` and then end: the bytes and what is
-- left, or `none` for EOF and ErrUnexpectedEOF.
abbrev pub read_full : ℕ → Bytes → Option (Bytes × Bytes)
read_full n s = if ltb (length s) n then none else some (take n s, drop n s)

pub read_full-append :
    (n : ℕ) (xs ys : Bytes) → length xs ≡ n → read_full n (xs ++ ys) ≡ some (xs, ys)
read_full-append n xs ys h =
    ground (arith, length-append xs ys, take-append n xs ys h, drop-append n xs ys h)

pub read_full-eq_some :
    (n : ℕ) (s : Bytes) {a b : Bytes} → read_full n s ≡ some (a, b) → (s ≡ a ++ b) × (length a ≡ n)
read_full-eq_some n s h = ground (arith, take-append-drop n s, length-take n s)
