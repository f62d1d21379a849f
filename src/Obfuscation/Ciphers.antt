-- ===== src/Obfuscation/Ciphers.antt =====
-- mtglib/obfuscation: the ciphers that both ends derive from a frame.
use mtg_multi.Prelude.{
  ℕ, zero, suc, ◌+◌, ◌≡◌, refl, sym, ap, ◌∙◌, Option, none, some, [], ◌∷◌, ◌++◌, length, take, drop,
  ok, arith, append_assoc, length-append, length-take, length-drop, take-append, drop-append,
  take-append_le, drop-append_le, drop-drop, take-all,
}
use mtg_multi.Prelude.Bytes.{Bytes, IsByte, IsBytes, le16_value}
use mtg_multi.Prelude.Xor.{bit_xor_twice}
use mtg_multi.Prelude.Ints.{ℤ, i16_of}
use mtg_multi.Obfuscation.{
  hf_connection_type, key_of, iv_of, or_default, dc_of, reverse, revert, Cipher, get_cipher, xor_at,
  accept_frame, send_handshake,
}

take-nil : (n : ℕ) → take {A = ℕ} n [] ≡ []
take-nil zero = refl
take-nil (suc n) = refl

take-take-drop : (n m : ℕ) (b : Bytes) → take n b ++ take m (drop n b) ≡ take (n + m) b
take-take-drop zero m b = ap (λ (k : ℕ). take k b) (omega arith)
take-take-drop (suc n) m [] = take-nil m ∙ sym (take-nil (suc n + m))
take-take-drop (suc n) m (x ∷ b) =
    ap (λ (y : Bytes). x ∷ y) (take-take-drop n m b)
    ∙ (let q : suc (n + m) ≡ suc n + m = omega arith in ap (λ (k : ℕ). take k (x ∷ b)) q)

length-reverse : (b : Bytes) → length (reverse b) ≡ length b
unfolding reverse
length-reverse [] = refl
length-reverse (x ∷ b) = length-append (reverse b) (x ∷ []) ∙ rw (length-reverse b) (omega arith)

take-drop_all : (n m : ℕ) (b : Bytes) → length b ≡ n + m → take m (drop n b) ≡ drop n b
take-drop_all n m b l = take-all m (drop n b) (omega (arith, length-drop n b, l))

-- Between the first 8 bytes and the last 8 of a frame.
abbrev middle : Bytes → Bytes
middle frame = take 48 (drop 8 frame)

key_of-middle : (a m d : Bytes) → length a ≡ 8 → length m ≡ 48 → key_of (a ++ (m ++ d)) ≡ take 32 m
key_of-middle a m d p q = rw (drop-append 8 a (m ++ d) p) (take-append_le 32 m d (omega (arith, q)))

iv_of-middle : (a m d : Bytes) → length a ≡ 8 → length m ≡ 48 → iv_of (a ++ (m ++ d)) ≡ drop 32 m
iv_of-middle a m d p q =
    let e : drop 40 (a ++ (m ++ d)) ≡ drop 32 m ++ d =
      sym (drop-drop 8 32 (a ++ (m ++ d)))
      ∙ rw (drop-append 8 a (m ++ d) p) (drop-append_le 32 m d (omega (arith, q))) in
    rw e (take-append 16 (drop 32 m) d (omega (arith, length-drop 32 m, q)))

middle-middle : (a m d : Bytes) → length a ≡ 8 → length m ≡ 48 → middle (a ++ (m ++ d)) ≡ m
middle-middle a m d p q = rw (drop-append 8 a (m ++ d) p) (take-append 48 m d q)

module _ (sha256 : Bytes → Bytes) (key_stream : Bytes → Bytes → ℕ → ℕ) where
  pub length-xor_at :
      (c : Cipher) (n : ℕ) (b : Bytes) → length (xor_at sha256 key_stream c n b) ≡ length b
  unfolding xor_at
  length-xor_at c n [] = refl
  length-xor_at c n (x ∷ b) = ap suc (length-xor_at c (suc n) b)

  drop-xor_at :
      (k : ℕ) (c : Cipher) (n : ℕ) (b : Bytes)
      → drop k (xor_at sha256 key_stream c n b) ≡ xor_at sha256 key_stream c (n + k) (drop k b)
  unfolding xor_at
  drop-xor_at zero c n b = ap (λ (m : ℕ). xor_at sha256 key_stream c m b) (omega arith)
  drop-xor_at (suc k) c n [] = refl
  drop-xor_at (suc k) c n (x ∷ b) =
      drop-xor_at k c (suc n) b
      ∙ ap (λ (m : ℕ). xor_at sha256 key_stream c m (drop k b)) (omega arith)

  pub xor_at_twice :
      (c : Cipher) (n : ℕ) (b : Bytes)
      → ((m : ℕ) → IsByte (key_stream c.block_key c.iv m))
      → IsBytes b
      → xor_at sha256 key_stream c n (xor_at sha256 key_stream c n b) ≡ b
  unfolding xor_at
  xor_at_twice c n [] k v = refl
  xor_at_twice c n (x ∷ b) k (v, vs) =
      rw (bit_xor_twice x _ v (k n), xor_at_twice c (suc n) b k vs) refl

  -- The ciphers of a frame are those of its middle.
  get_cipher_same :
      (secret : Option Bytes) (f g : Bytes)
      → key_of f ≡ key_of g
      → iv_of f ≡ iv_of g
      → get_cipher sha256 key_stream secret f ≡ get_cipher sha256 key_stream secret g
  unfolding get_cipher
  get_cipher_same none f g k v = rw (k, v) refl
  get_cipher_same (some s) f g k v = rw (k, v) refl

  pub get_cipher_position :
      (secret : Option Bytes) (f : Bytes) → (get_cipher sha256 key_stream secret f).position ≡ 0
  unfolding get_cipher
  get_cipher_position none f = refl
  get_cipher_position (some s) f = refl

  get_cipher-revert :
      (secret : Option Bytes) (f g : Bytes)
      → length f ≡ 64
      → length g ≡ 64
      → middle f ≡ middle g
      → get_cipher sha256 key_stream secret (revert f)
        ≡ get_cipher sha256 key_stream secret (revert g)
  unfolding revert
  get_cipher-revert secret f g lf lg m =
      let a : length (take 8 f) ≡ 8 = omega (arith, length-take 8 f, lf) in
      let b : length (take 8 g) ≡ 8 = omega (arith, length-take 8 g, lg) in
      let p : length (reverse (middle f)) ≡ 48 =
        length-reverse (middle f) ∙ omega (arith, length-take 48 (drop 8 f), length-drop 8 f, lf) in
      let q : length (reverse (middle g)) ≡ 48 =
        length-reverse (middle g) ∙ omega (arith, length-take 48 (drop 8 g), length-drop 8 g, lg) in
      get_cipher_same secret _ _
        (key_of-middle (take 8 f) (reverse (middle f)) (drop 56 f) a p
          ∙ ap (λ (x : Bytes). take 32 (reverse x)) m
          ∙ sym (key_of-middle (take 8 g) (reverse (middle g)) (drop 56 g) b q))
        (iv_of-middle (take 8 f) (reverse (middle f)) (drop 56 f) a p
          ∙ ap (λ (x : Bytes). drop 32 (reverse x)) m
          ∙ sym (iv_of-middle (take 8 g) (reverse (middle g)) (drop 56 g) b q))

  accept_lem :
      (secret : Option Bytes) (s rest : Bytes) (recv send : Cipher) (tail : Bytes) (dc : ℤ)
      → get_cipher sha256 key_stream secret s ≡ recv
      → get_cipher sha256 key_stream secret (revert s) ≡ send
      → recv.position ≡ 0
      → length s ≡ 64
      → drop 56 (xor_at sha256 key_stream recv 0 s) ≡ hf_connection_type ++ tail
      → or_default (i16_of (le16_value (take 2 tail))) ≡ dc
      → accept_frame sha256 key_stream secret s rest
        ≡ ok (
          dc,
          record { input = rest; recv_cipher = record recv { position = 64 }; send_cipher = send },
        )
  unfolding accept_frame dc_of xor_at
  accept_lem secret s rest recv send tail dc c r zero_at l e d =
      rw (c, r, zero_at, l, e, ← drop-drop 56 4 (xor_at sha256 key_stream recv 0 s))
        (rw e (rw d refl))

  -- What is sent for a frame of 64 bytes, and what the reader makes of it.
  module _ (secret : Option Bytes) (f : Bytes) (l : length f ≡ 64) (input : Bytes) where
    abbrev own : Cipher
    own = get_cipher sha256 key_stream secret f

    abbrev coded : Bytes
    coded = xor_at sha256 key_stream own own.position f

    abbrev sent : Bytes
    sent = (send_handshake sha256 key_stream secret f input).0

    middle_parts : key_of f ++ iv_of f ≡ middle f
    middle_parts =
        ap (λ (x : Bytes). key_of f ++ take 16 x) (sym (drop-drop 8 32 f))
        ∙ take-take-drop 32 16 (drop 8 f)

    sent_parts : sent ≡ take 8 coded ++ (middle f ++ drop 56 coded)
    unfolding send_handshake
    sent_parts =
        ap (λ (x : Bytes). take 8 coded ++ x)
          (sym (append_assoc (key_of f) (iv_of f) (drop 56 coded))
            ∙ ap (λ (x : Bytes). x ++ drop 56 coded) middle_parts)

    length-coded : length coded ≡ 64
    length-coded = length-xor_at own own.position f ∙ l

    length-first : length (take 8 coded) ≡ 8
    length-first = omega (arith, length-take 8 coded, length-coded)

    length-middle : length (middle f) ≡ 48
    length-middle = omega (arith, length-take 48 (drop 8 f), length-drop 8 f, l)

    length-key : length (key_of f) ≡ 32
    length-key = omega (arith, length-take 32 (drop 8 f), length-drop 8 f, l)

    pub length-sent : length sent ≡ 64
    length-sent = rw sent_parts (
        length-append (take 8 coded) (middle f ++ drop 56 coded)
        ∙ rw
            (
              length-append (middle f) (drop 56 coded),
              length-first,
              length-middle,
              length-drop 56 coded,
              length-coded,
            )
            refl)

    sent_key : key_of sent ≡ key_of f
    sent_key = rw sent_parts (
        key_of-middle _ _ _ length-first length-middle
        ∙ rw (← middle_parts) (take-append 32 (key_of f) (iv_of f) length-key))

    sent_iv : iv_of sent ≡ iv_of f
    sent_iv = rw sent_parts (
        iv_of-middle _ _ _ length-first length-middle
        ∙ rw (← middle_parts) (drop-append 32 (key_of f) (iv_of f) length-key))

    sent-middle : middle sent ≡ middle f
    sent-middle = rw sent_parts (middle-middle _ _ _ length-first length-middle)

    sent_end : drop 56 sent ≡ drop 56 coded
    sent_end = rw sent_parts (
        sym (drop-drop 8 48 (take 8 coded ++ (middle f ++ drop 56 coded)))
        ∙ rw (drop-append 8 (take 8 coded) (middle f ++ drop 56 coded) length-first)
            (drop-append 48 (middle f) (drop 56 coded) length-middle))

    module _ (bytes : (k v : Bytes) (n : ℕ) → IsByte (key_stream k v n))
        (valid : IsBytes (drop 56 f)) where
      plain_end : drop 56 (xor_at sha256 key_stream own 0 sent) ≡ drop 56 f
      unfolding get_cipher
      plain_end =
          drop-xor_at 56 own 0 sent
          ∙ rw (sent_end, drop-xor_at 56 own own.position f, get_cipher_position secret f)
              (xor_at_twice own 56 (drop 56 f) (λ m. bytes own.block_key own.iv m) valid)

      -- The reader takes the ciphers crosswise, and reads what stands at the end of the frame.
      pub accept_sent :
          (dc : ℤ) (rest tail : Bytes)
          → drop 56 f ≡ hf_connection_type ++ tail
          → or_default (i16_of (le16_value (take 2 tail))) ≡ dc
          → accept_frame sha256 key_stream secret sent rest
            ≡ ok (
              dc,
              record {
                input = rest;
                recv_cipher = record own { position = 64 };
                send_cipher = get_cipher sha256 key_stream secret (revert f);
              },
            )
      accept_sent dc rest tail e d =
          accept_lem secret sent rest own _ tail dc (get_cipher_same secret sent f sent_key sent_iv)
            (get_cipher-revert secret sent f length-sent l sent-middle)
            (get_cipher_position secret f) length-sent (plain_end ∙ e) d
