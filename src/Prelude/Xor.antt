-- ===== src/Prelude/Xor.antt =====
-- Exclusive or of a byte with a byte of a key stream.
use Prim.Native.Nat.{ℕ, zero, suc, ◌<◌, bit_xor}
use mathlib.Core.Path.{◌≡◌, refl}
use mathlib.Core.Bool.{Bool, true, false}
use native.Mathlib.Omega.{arith}
use mtg_multi.Prelude.Tests.{ltb, ltb→lt, ◌==◌, ==_iff, if◌then◌else◌}

-- The rows of a table up to a bound, from the last one down.
table : (ℕ → Bool) → ℕ → Bool
table row zero = true
table row (suc last) = if row last then table row last else false

table-row : (row : ℕ → Bool) (size i : ℕ) → i < size → table row size ≡ true → row i ≡ true
unfolding table
table-row row zero i inside all = let y : ⊥ = omega (arith, inside) in elim y [ ]
table-row row (suc last) i inside all = ground (arith, table-row row last i)

undone : table (λ b. table (λ k. bit_xor (bit_xor b k) k == b) 256) 256 ≡ true
unfolding table
undone = refl

pub bit_xor_twice : (x k : ℕ) → x < 256 → k < 256 → bit_xor (bit_xor x k) k ≡ x
bit_xor_twice x k small key =
    (==_iff _ x).0 (table-row _ 256 k key (table-row _ 256 x small undone))

bounded : table (λ b. table (λ k. ltb (bit_xor b k) 256) 256) 256 ≡ true
unfolding table
bounded = refl

pub bit_xor-IsByte : (x k : ℕ) → x < 256 → k < 256 → bit_xor x k < 256
bit_xor-IsByte x k small key = ltb→lt _ _ (table-row _ 256 k key (table-row _ 256 x small bounded))
