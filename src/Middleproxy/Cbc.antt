-- ===== src/Middleproxy/Cbc.antt =====
-- mtglib/internal/middleproxy/frame.go: cbcConn, AES-256-CBC over a connection. The block cipher is
-- a parameter; the chaining is crypto/cipher's. A `Mode` is a cipher.BlockMode: the block that the
-- next one is chained to.
pub mod Plain
mod Runs
use Prim.Native.Nat.{bit_xor}
use mtg_multi.Prelude.{
  ℕ, zero, suc, ◌+◌, ◌-◌, ◌/◌, ◌%◌, ◌≡◌, refl, Bool, true, false, not, Option, none, some, List, [],
  ◌∷◌, ◌++◌, length, take, drop, ◌==◌, if◌then◌else◌,
}
use mtg_multi.Prelude.Bytes.{Bytes, read_full}
use mtg_multi.Middleproxy.Frame.{Wire}

abbrev pub block_size : ℕ
block_size = 16

unfoldable pub xor_block : Bytes → Bytes → Bytes
xor_block [] ys = []
xor_block (x ∷ xs) [] = []
xor_block (x ∷ xs) (y ∷ ys) = bit_xor x y ∷ xor_block xs ys

abbrev pub Mode : Type 0
Mode = Bytes

-- The whole blocks of a text.
unfoldable pub blocks : ℕ → Bytes → List Bytes
blocks zero b = []
blocks (suc n) b = take block_size b ∷ blocks n (drop block_size b)

module _ (aes : Bytes → Bytes) where
  -- CryptBlocks of a cipher.NewCBCEncrypter, block by block.
  unfoldable pub encrypt : Mode → List Bytes → Mode × Bytes
  unfolding xor_block
  encrypt mode [] = (mode, [])
  encrypt mode (b ∷ bs) =
      let c = aes (xor_block b mode) in let (mode', rest) = encrypt c bs in (mode', c ++ rest)

  -- CryptBlocks of a cipher.NewCBCDecrypter on one block.
  unfoldable pub decrypt : Mode → Bytes → Mode × Bytes
  unfolding xor_block
  decrypt mode c = (c, xor_block (aes c) mode)

pub record CbcConn : Type 0 where
  pub raw : Wire
  pub enc : Mode
  pub dec : Mode
  pub buf : Bytes

pub new_cbc_conn : Wire → Mode → Mode → CbcConn
new_cbc_conn raw enc dec = record { raw = raw; enc = enc; dec = dec; buf = [] }

-- Read: the bytes, or the end of the stream inside a block.
abbrev pub copy_buf : CbcConn → ℕ → CbcConn × Option Bytes
copy_buf c n = (record c { buf = drop n c.buf }, some (take n c.buf))

pub fill_buf : (Bytes → Bytes) → CbcConn → Option (Bytes × Bytes) → ℕ → CbcConn × Option Bytes
unfolding decrypt
fill_buf aes c none n = (record c { raw = record c.raw { input = [] } }, none)
fill_buf aes c (some (block, rest)) n =
    let (mode, plain) = decrypt aes c.dec block in
    copy_buf (record c { raw = record c.raw { input = rest }; dec = mode; buf = plain }) n

abbrev pub is_empty : Bytes → Bool
is_empty [] = true
is_empty (_ ∷ _) = false

pub read : (Bytes → Bytes) → CbcConn → ℕ → CbcConn × Option Bytes
unfolding fill_buf
read aes c n =
    if is_empty c.buf then fill_buf aes c (read_full block_size c.raw.input) n else copy_buf c n

pub data Written : Type 0 where
  written : ℕ → Written
  not_aligned write_failed : Written

-- Write.
pub write : (Bytes → Bytes) → CbcConn → Bytes → CbcConn × Written
unfolding encrypt blocks
write aes c p =
    let (mode, encrypted) = encrypt aes c.enc (blocks (length p / block_size) p) in
    if not (length p % block_size == 0)
    then (c, not_aligned)
    else if c.raw.broken
    then (record c { enc = mode }, write_failed)
    else (
      record c { raw = record c.raw { output = c.raw.output ++ encrypted }; enc = mode },
      written (length p),
    )
