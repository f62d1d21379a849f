-- ===== src/Middleproxy/Cbc/Plain.antt =====
-- mtglib/internal/middleproxy/frame.go: cbcConn reads and writes a stream of plain bytes.
use mtg_multi.Prelude.{
  ℕ, zero, suc, ◌*◌, ◌/◌, ◌%◌, ◌≤◌, ◌<◌, ◌≡◌, refl, sym, ap, ◌∙◌, inl, inr, true, false, Option,
  none, some, List, [], ◌∷◌, ◌++◌, length, take, drop, ◌==◌, arith, append_assoc, take-append,
  drop-append, take-append-drop, length-take, length-drop, length-append, Bool-cases, if_cases, ltb,
  ap₂, ltb→lt, ltb→le, ==_iff,
}
use mtg_multi.Prelude.Bytes.{Bytes, IsBytes, read_full}
use mtg_multi.Prelude.Xor.{bit_xor_twice, bit_xor-IsByte}
use mtg_multi.Middleproxy.Cbc.{
  block_size, xor_block, Mode, blocks, encrypt, decrypt, CbcConn, copy_buf, fill_buf, is_empty,
  read, written, write,
}

-- The whole blocks of what is still to arrive.
abbrev pub whole_blocks : Bytes → List Bytes
whole_blocks b = blocks (length b / block_size) b

module _ (aes : Bytes → Bytes) where
  -- The plain bytes of whole blocks.
  pub decrypt_all : Mode → List Bytes → Bytes
  unfolding decrypt
  decrypt_all mode [] = []
  decrypt_all mode (c ∷ cs) = let (mode', b) = decrypt aes mode c in b ++ decrypt_all mode' cs

  pub plain_input : CbcConn → Bytes
  unfolding decrypt_all
  plain_input c = c.buf ++ decrypt_all c.dec (whole_blocks c.raw.input)

-- The first block is cut off.
whole_blocks-take :
    (b : Bytes)
    → block_size ≤ length b
    → blocks (length b / block_size) b
      ≡ take block_size b ∷ blocks (length (drop block_size b) / block_size) (drop block_size b)
unfolding blocks
whole_blocks-take b h =
    let count : length b / 16 ≡ suc (length (drop 16 b) / 16) = omega (arith, length-drop 16 b) in
    rw count

whole_blocks-append :
    (b rest : Bytes)
    → length b ≡ block_size
    → blocks (length (b ++ rest) / block_size) (b ++ rest)
      ≡ b ∷ blocks (length rest / block_size) rest
whole_blocks-append b rest h =
    whole_blocks-take (b ++ rest) (omega (arith, length-append b rest))
    ∙ ap₂ (λ c (t : Bytes). c ∷ blocks (length t / block_size) t) (take-append 16 b rest h)
        (drop-append 16 b rest h)

pub blocks_of_short : (b : Bytes) → length b < block_size → blocks (length b / block_size) b ≡ []
unfolding blocks
blocks_of_short b h = let count : length b / 16 ≡ 0 = omega arith in rw count

is_empty-nil : (b : Bytes) → is_empty b ≡ true → b ≡ []
is_empty-nil [] e = refl
is_empty-nil (x ∷ xs) e = cc

module _ (aes : Bytes → Bytes) where
  -- What one call of Read does to the stream of plain bytes.
  abbrev pub IsRead : CbcConn → ℕ → CbcConn × Option Bytes → Type 0
  IsRead c n (c', none) = plain_input aes c ≡ []
  IsRead c n (c', some b) = (plain_input aes c ≡ b ++ plain_input aes c') × (length b ≤ n)

  copy_buf-IsRead : (c : CbcConn) (n : ℕ) → IsRead c n (copy_buf c n)
  unfolding plain_input
  copy_buf-IsRead c n = (
    sym (
        sym (append_assoc (take n c.buf) (drop n c.buf) _)
        ∙ ap (λ b. b ++ decrypt_all aes c.dec (whole_blocks c.raw.input))
            (take-append-drop n c.buf)),
    omega (arith, length-take n c.buf),
  )

  -- The connection with its next block decrypted.
  abbrev filled : CbcConn → CbcConn
  filled c =
      let (mode, b) = decrypt aes c.dec (take block_size c.raw.input) in
      record c { raw = record c.raw { input = drop block_size c.raw.input }; dec = mode; buf = b }

  plain_input-filled :
      (c : CbcConn)
      → c.buf ≡ []
      → block_size ≤ length c.raw.input
      → plain_input aes c ≡ plain_input aes (filled c)
  unfolding plain_input
  plain_input-filled c used whole =
      ap₂ (λ b bs. b ++ decrypt_all aes c.dec bs) used (whole_blocks-take c.raw.input whole)

  fill_buf-IsRead :
      (c : CbcConn) (n : ℕ)
      → c.buf ≡ []
      → IsRead c n (fill_buf aes c (read_full block_size c.raw.input) n)
  unfolding plain_input fill_buf
  fill_buf-IsRead c n used = elim (Bool-cases (ltb (length c.raw.input) block_size)) [
    | inl short ↦ rw short (
        ap₂ (λ b bs. b ++ decrypt_all aes c.dec bs) used
          (blocks_of_short c.raw.input (ltb→lt _ _ short)))
    | inr whole ↦ rw whole (
      (plain_input-filled c used (ltb→le _ _ whole) ∙ (copy_buf-IsRead (filled c) n).0),
      (copy_buf-IsRead (filled c) n).1,
    )
  ]

  -- Every Read of cbcConn, for whatever size, takes at most that many bytes off the front of the
  -- stream of decrypted blocks, and fails only where no whole block and no buffered byte is left.
  pub read-IsRead : (c : CbcConn) (n : ℕ) → IsRead c n (read aes c n)
  unfolding read
  read-IsRead c n =
      if_cases (IsRead c n) (is_empty c.buf) _ _ (λ e. fill_buf-IsRead c n (is_empty-nil c.buf e))
        (λ _. copy_buf-IsRead c n)

-- A block of bytes.
abbrev pub IsBlock : Bytes → Type 0
IsBlock b = (length b ≡ block_size) × IsBytes b

-- What the two ends ask of AES with one key.
pub record Inverse (enc dec : Bytes → Bytes) : Type 0 where
  pub undone : (b : Bytes) → IsBlock b → dec (enc b) ≡ b
  pub block : (b : Bytes) → IsBlock b → IsBlock (enc b)

length-xor_block :
    (n : ℕ) (b mode : Bytes) → length b ≡ n → length mode ≡ n → length (xor_block b mode) ≡ n
unfolding xor_block
length-xor_block n [] mode h k = h
length-xor_block n (x ∷ b) [] h k = absurd (omega arith)
length-xor_block zero (x ∷ b) (y ∷ mode) h k = absurd (omega arith)
length-xor_block (suc n) (x ∷ b) (y ∷ mode) h k =
    omega (arith, length-xor_block n b mode (omega arith) (omega arith))

xor_block-IsBytes : (b mode : Bytes) → IsBytes b → IsBytes mode → IsBytes (xor_block b mode)
unfolding xor_block
xor_block-IsBytes [] mode h k = tt
xor_block-IsBytes (x ∷ b) [] h k = tt
xor_block-IsBytes (x ∷ b) (y ∷ mode) h k =
    (bit_xor-IsByte x y h.0 k.0, xor_block-IsBytes b mode h.1 k.1)

xor_block-IsBlock : (b mode : Bytes) → IsBlock b → IsBlock mode → IsBlock (xor_block b mode)
xor_block-IsBlock b mode h k =
    (length-xor_block 16 b mode h.0 k.0, xor_block-IsBytes b mode h.1 k.1)

xor_block_twice :
    (n : ℕ) (b mode : Bytes)
    → length b ≡ n
    → length mode ≡ n
    → IsBytes b
    → IsBytes mode
    → xor_block (xor_block b mode) mode ≡ b
unfolding xor_block
xor_block_twice n [] mode h k s t = refl
xor_block_twice n (x ∷ b) [] h k s t = absurd (omega arith)
xor_block_twice zero (x ∷ b) (y ∷ mode) h k s t = absurd (omega arith)
xor_block_twice (suc n) (x ∷ b) (y ∷ mode) h k s t =
    ap₂ ◌∷◌ (bit_xor_twice x y s.0 t.0)
      (xor_block_twice n b mode (omega arith) (omega arith) s.1 t.1)

take-IsBytes : (n : ℕ) (b : Bytes) → IsBytes b → IsBytes (take n b)
take-IsBytes zero b h = tt
take-IsBytes (suc n) [] h = tt
take-IsBytes (suc n) (x ∷ b) h = (h.0, take-IsBytes n b h.1)

drop-IsBytes : (n : ℕ) (b : Bytes) → IsBytes b → IsBytes (drop n b)
drop-IsBytes zero b h = h
drop-IsBytes (suc n) [] h = tt
drop-IsBytes (suc n) (x ∷ b) h = drop-IsBytes n b h.1

module _ (enc dec : Bytes → Bytes) (aes : Inverse enc dec) where
  enc-IsBlock : (b mode : Bytes) → IsBlock b → IsBlock mode → IsBlock (enc (xor_block b mode))
  enc-IsBlock b mode h k = aes.block _ (xor_block-IsBlock b mode h k)

  decrypt_all-block :
      (b mode rest : Bytes)
      → IsBlock b
      → IsBlock mode
      → decrypt_all dec mode (whole_blocks (enc (xor_block b mode) ++ rest))
        ≡ b ++ decrypt_all dec (enc (xor_block b mode)) (whole_blocks rest)
  unfolding decrypt_all
  decrypt_all-block b mode rest h k =
      ap (decrypt_all dec mode) (whole_blocks-append _ rest (enc-IsBlock b mode h k).0)
      ∙ ap (λ d. xor_block d mode ++ decrypt_all dec (enc (xor_block b mode)) (whole_blocks rest))
          (aes.undone _ (xor_block-IsBlock b mode h k))
      ∙ ap (λ d. d ++ decrypt_all dec (enc (xor_block b mode)) (whole_blocks rest))
          (xor_block_twice 16 b mode h.0 k.0 h.1 k.1)

  -- Behind what was encrypted, the reader goes on with the mode that the writer is left with.
  decrypt_all-encrypt :
      (mode : Mode) (n : ℕ) (p rest : Bytes)
      → IsBlock mode
      → length p ≡ 16 * n
      → IsBytes p
      → decrypt_all dec mode (whole_blocks ((encrypt enc mode (blocks n p)).1 ++ rest))
        ≡ p ++ decrypt_all dec (encrypt enc mode (blocks n p)).0 (whole_blocks rest)
  unfolding decrypt_all encrypt blocks
  decrypt_all-encrypt mode zero [] rest m h s = refl
  decrypt_all-encrypt mode zero (x ∷ p) rest m h s = absurd (omega arith)
  decrypt_all-encrypt mode (suc n) p rest m h s =
      let front : IsBlock (take 16 p) = (omega (arith, length-take 16 p), take-IsBytes 16 p s) in
      let c : Bytes = enc (xor_block (take 16 p) mode) in
      let sent : Mode × Bytes = encrypt enc c (blocks n (drop 16 p)) in
      ap (λ b. decrypt_all dec mode (whole_blocks b)) (append_assoc c sent.1 rest)
      ∙ decrypt_all-block (take 16 p) mode (sent.1 ++ rest) front m
      ∙ ap (λ t. take 16 p ++ t)
          (decrypt_all-encrypt c n (drop 16 p) rest (enc-IsBlock (take 16 p) mode front m)
            (omega (arith, length-drop 16 p)) (drop-IsBytes 16 p s))
      ∙ sym (append_assoc (take 16 p) (drop 16 p) _)
      ∙ ap (λ q. q ++ decrypt_all dec sent.0 (whole_blocks rest)) (take-append-drop 16 p)

  -- Over a connection that takes writes, whole blocks that one end writes through cbcConn are read
  -- by the other end, whose decrypter is in the state of the writer's encrypter and holds nothing
  -- back, as the same bytes, and then whatever follows with the decrypter in the state that the
  -- encrypter is left in, for a block cipher that the decryption undoes.
  pub plain_input-write :
      (writer reader : CbcConn) (p rest : Bytes)
      → writer.raw.broken ≡ false
      → length p % block_size ≡ 0
      → IsBytes p
      → IsBlock writer.enc
      → reader.buf ≡ []
      → reader.dec ≡ writer.enc
      → (sent : Bytes) × ((write enc writer p).1 ≡ written (length p))
        × ((write enc writer p).0.raw.output ≡ writer.raw.output ++ sent)
        × (plain_input dec (record reader { raw = record reader.raw { input = sent ++ rest } })
            ≡ p
              ++ plain_input dec (record reader {
                raw = record reader.raw { input = rest };
                dec = (write enc writer p).0.enc;
              }))
  unfolding write plain_input
  plain_input-write writer reader p rest unbroken aligned bytes block idle same =
      let whole : ((length p % 16) == 0) ≡ true = (==_iff _ _).1 aligned in
      let sent : Mode × Bytes = encrypt enc writer.enc (blocks (length p / 16) p) in
      rw (whole, unbroken)
        (
          sent.1,
          refl,
          refl,
          (ap₂ (λ b m. b ++ decrypt_all dec m (whole_blocks (sent.1 ++ rest))) idle same
              ∙ decrypt_all-encrypt writer.enc (length p / 16) p rest block (omega arith) bytes
              ∙ sym (ap (λ b. p ++ (b ++ decrypt_all dec sent.0 (whole_blocks rest))) idle)),
        )
