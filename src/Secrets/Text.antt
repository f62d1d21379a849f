-- ===== src/Secrets/Text.antt =====
-- mtglib/secret.go: a secret's text form through Secret.Set.
use mtg_multi.Prelude.{
  ℕ, ◌≡◌, ◌≢◌, refl, sym, ap, ◌∙◌, Bool, true, false, Option, none, some, [], ◌∷◌, ◌++◌, length,
  take, drop, ltb, bytes_eq, arith, length-append, take-append, drop-append,
}
use mtg_multi.Prelude.Bytes.{Bytes}
use mtg_multi.Secrets.{Secret, secret_key_length, make_bytes, set_parts, set_decoded, or_else, set}

-- Go's slices of 16 bytes have 16 bytes.
abbrev pub IsKeyed : Secret → Type 0
IsKeyed s = (length s.key ≡ secret_key_length) × (s.host ≢ [])

bytes_eq-nil : (b : Bytes) → b ≢ [] → bytes_eq b [] ≡ false
bytes_eq-nil [] n = elim (n refl) [ ]
bytes_eq-nil (x ∷ b) n = refl

set_parts-append :
    (s₀ : Secret) (key' host' : Bytes)
    → length key' ≡ secret_key_length
    → host' ≢ []
    → set_parts s₀ (key' ++ host') ≡ (record { key = key'; host = host' }, none)
unfolding set_parts
set_parts-append s₀ key' host' k h =
    let long : ltb (length (key' ++ host')) secret_key_length ≡ false =
      ground (arith, length-append key' host', k) in
    let t : take secret_key_length (key' ++ host') ≡ key' =
      take-append secret_key_length key' host' k in
    let d : drop secret_key_length (key' ++ host') ≡ host' =
      drop-append secret_key_length key' host' k in
    rw (long, t, d, bytes_eq-nil host' h) refl

cons_append :
    (key' host' : Bytes)
    → length key' ≡ secret_key_length
    → (c : ℕ) × (rest : Bytes) × (key' ++ host' ≡ c ∷ rest)
cons_append (c ∷ key') host' k = (c, key' ++ host', refl)
cons_append [] host' k = ground (arith, k)

set_decoded-make_bytes :
    (s₀ s : Secret) → IsKeyed s → set_decoded s₀ (some (make_bytes s)) ≡ (s, none)
unfolding set_decoded make_bytes
set_decoded-make_bytes s₀ s (k, h) =
    let (c, rest, e) = cons_append s.key s.host k in
    rw e (rw (← e) (set_parts-append s₀ s.key s.host k h))

set-decoded :
    (hex_decode base64_decode : Bytes → Option Bytes) (s₀ : Secret) (t b : Bytes)
    → t ≢ []
    → or_else (hex_decode t) (base64_decode t) ≡ some b
    → set hex_decode base64_decode s₀ t ≡ set_decoded s₀ (some b)
unfolding set
set-decoded hex_decode base64_decode s₀ [] b n e = elim (n refl) [ ]
set-decoded hex_decode base64_decode s₀ (c ∷ t) b n e = rw e refl

abbrev is_short : Option Bytes → Bool
is_short none = false
is_short (some []) = true
is_short (some (_ ∷ _)) = false

-- A text whose decoding is not empty is not empty.
decoded-ne :
    (decode : Bytes → Option Bytes) (t : Bytes) (x : ℕ) (b : Bytes)
    → decode [] ≡ some []
    → decode t ≡ some (x ∷ b)
    → t ≢ []
decoded-ne decode t x b z e q =
    let p : some (x ∷ b) ≡ some [] = sym e ∙ ap decode q ∙ z in
    let c : false ≡ true = ap is_short p in cc

-- For codecs that decode what they encode and the empty text, the two text forms of a secret with
-- a key of 16 bytes and a host are read back by Set whatever the receiver held: the hexadecimal
-- one, and the base64 one where it does not decode as hexadecimal.
pub set-make_bytes :
    (hex_decode base64_decode : Bytes → Option Bytes) (hex_encode base64_encode : Bytes → Bytes)
    (s₀ s : Secret)
    → ((b : Bytes) → hex_decode (hex_encode b) ≡ some b)
    → ((b : Bytes) → base64_decode (base64_encode b) ≡ some b)
    → hex_decode [] ≡ some []
    → base64_decode [] ≡ some []
    → IsKeyed s
    → hex_decode (base64_encode (make_bytes s)) ≡ none
    → (set hex_decode base64_decode s₀ (hex_encode (make_bytes s)) ≡ (s, none))
      × (set hex_decode base64_decode s₀ (base64_encode (make_bytes s)) ≡ (s, none))
unfolding make_bytes or_else
set-make_bytes hex_decode base64_decode hex_encode base64_encode s₀ s hex b64 hex_nil b64_nil keyed
      n =
    let b = make_bytes s in
    let hex_ne = decoded-ne hex_decode (hex_encode b) _ _ hex_nil (hex b) in
    let b64_ne = decoded-ne base64_decode (base64_encode b) _ _ b64_nil (b64 b) in
    (
      set-decoded hex_decode base64_decode s₀ (hex_encode b) b hex_ne (rw (hex b) refl)
          ∙ set_decoded-make_bytes s₀ s keyed,
      set-decoded hex_decode base64_decode s₀ (base64_encode b) b b64_ne (rw (n, b64 b) refl)
          ∙ set_decoded-make_bytes s₀ s keyed,
    )
