-- ===== src/Prelude/Ints.antt =====
-- Signed integers over the native numbers: Go's int where a value may be negative.
use Prim.Native.Nat.{ℕ, zero, suc, ◌+◌, ◌-◌, ◌%◌, ◌^◌}
use mathlib.Core.Path.{◌≡◌, ap}
use mathlib.Core.Logic.{◌↔◌}
use mathlib.Core.Bool.{Bool, true, false}
use native.Mathlib.Omega.{arith}
use mtg_multi.Prelude.Tests.{ltb, leb, ◌==◌, ==_iff, if◌then◌else◌, Eq}

pub data ℤ : Type 0 where
  -- `negsuc n` is -(n + 1).
  pos negsuc : ℕ → ℤ

abbrev pub nat_abs : ℤ → ℕ
nat_abs (pos n) = n
nat_abs (negsuc n) = suc n

-- The conversion to uint16, and of a uint16 to int16.
abbrev pub u16_of : ℤ → ℕ
u16_of (pos n) = n % 65536
u16_of (negsuc n) = 65535 - n % 65536

abbrev pub i16_of : ℕ → ℤ
i16_of n = if ltb n 32768 then pos n else negsuc (65535 - n)

-- The conversion of a uint to a signed one of 64 bits.
abbrev pub int_of : ℕ → ℤ
int_of n = if ltb n (2 ^ 63) then pos n else negsuc (2 ^ 64 - 1 - n)

-- `-z`
abbrev pub neg : ℤ → ℤ
neg (pos zero) = pos 0
neg (pos (suc n)) = negsuc n
neg (negsuc n) = pos (suc n)

abbrev pub int_beq : ℤ → ℤ → Bool
int_beq (pos m) (pos n) = m == n
int_beq (pos m) (negsuc n) = false
int_beq (negsuc m) (pos n) = false
int_beq (negsuc m) (negsuc n) = m == n

pub int_beq_iff : (a b : ℤ) → (int_beq a b ≡ true) ↔ (a ≡ b)
int_beq_iff (pos m) (pos n) =
    ((λ h. ap pos ((==_iff m n).0 h)), (λ e. (==_iff m n).1 (ap nat_abs e)))
int_beq_iff (pos m) (negsuc n) = ((λ h. cc), (λ e. cc))
int_beq_iff (negsuc m) (pos n) = ((λ h. cc), (λ e. cc))
int_beq_iff (negsuc m) (negsuc n) =
    ((λ h. ap negsuc ((==_iff m n).0 h)), (λ e. (==_iff m n).1 (omega (arith, ap nat_abs e))))

instance abbrev pub int_eq : Eq ℤ
int_eq = record { beq = int_beq; beq_iff = int_beq_iff }

-- a - b, and the sum of two integers.
abbrev pub sub_ℕ : ℕ → ℕ → ℤ
sub_ℕ a b = if leb b a then pos (a - b) else negsuc (b - a - 1)

abbrev pub pos_part : ℤ → ℕ
pos_part (pos n) = n
pos_part (negsuc n) = 0

abbrev pub neg_part : ℤ → ℕ
neg_part (pos n) = 0
neg_part (negsuc n) = suc n

infixl 65 ◌+ℤ◌
unfoldable pub ◌+ℤ◌ : ℤ → ℤ → ℤ
a +ℤ b = sub_ℕ (pos_part a + pos_part b) (neg_part a + neg_part b)
