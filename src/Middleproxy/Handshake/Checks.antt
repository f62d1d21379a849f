-- ===== src/Middleproxy/Handshake/Checks.antt =====
-- mtglib/internal/middleproxy/handshake.go: what the checks accept, and the sizes of the keys.
use mtg_multi.Prelude.{
  ◌≡◌, ◌↔◌, refl, ap, ◌∙◌, Bool, true, false, not, [], length, take, drop, ==_iff, if◌then◌else◌,
  bytes_eq_iff, arith, length-append, length-take,
}
use mtg_multi.Prelude.Bytes.{Bytes}
use mtg_multi.Middleproxy.Tags.{tag_nonce, nonce_crypto_aes}
use mtg_multi.Middleproxy.Handshake.{
  NonceRequest, Checked, accepted, rejected, wrong_length, wrong_tag, wrong_crypto, wrong_selector,
  key_message, slice, parse_nonce_response, CipherPurpose, SocketAddr, derive_key,
}

accepts :
    (b : Bytes) (req : NonceRequest)
    → length b ≡ 32
    → slice 0 4 b ≡ tag_nonce
    → slice 8 4 b ≡ nonce_crypto_aes
    → slice 4 4 b ≡ req.key_selector
    → parse_nonce_response b req ≡ accepted (drop 16 b)
unfolding parse_nonce_response
accepts b req l t c s =
    rw
      (
        (==_iff (length b) 32).1 l,
        (bytes_eq_iff (slice 0 4 b) tag_nonce).1 t,
        (bytes_eq_iff (slice 8 4 b) nonce_crypto_aes).1 c,
        (bytes_eq_iff (slice 4 4 b) req.key_selector).1 s,
        parse_nonce_response,
      )
      refl

-- What an accepted response holds.
abbrev pub IsResponse : Bytes → NonceRequest → Bytes → Type 0
IsResponse b req nonce' =
    (length b ≡ 32)
    × (slice 0 4 b ≡ tag_nonce)
    × (slice 4 4 b ≡ req.key_selector)
    × (slice 8 4 b ≡ nonce_crypto_aes)
    × (drop 16 b ≡ nonce')

abbrev payload : Checked → Bytes
payload (accepted b) = b
payload (rejected e) = []

abbrev is_accepted : Checked → Bool
is_accepted (accepted b) = true
is_accepted (rejected e) = false

guards :
    (a b c d : Bool) (n m : Bytes)
    → (if not a
        then rejected wrong_length
        else if not b
        then rejected wrong_tag
        else if not c
        then rejected wrong_crypto
        else if not d
        then rejected wrong_selector
        else accepted n)
      ≡ accepted m
    → (a ≡ true) × (b ≡ true) × (c ≡ true) × (d ≡ true) × (n ≡ m)
guards true true true true n m p = (refl, refl, refl, refl, ap payload p)
guards false b c d n m p = let q : false ≡ true = ap is_accepted p in cc
guards true false c d n m p = let q : false ≡ true = ap is_accepted p in cc
guards true true false d n m p = let q : false ≡ true = ap is_accepted p in cc
guards true true true false n m p = let q : false ≡ true = ap is_accepted p in cc

accepted_inv :
    (b : Bytes) (req : NonceRequest) (nonce' : Bytes)
    → parse_nonce_response b req ≡ accepted nonce'
    → IsResponse b req nonce'
unfolding parse_nonce_response
accepted_inv b req nonce' p =
    let (l, t, c, s, n) = guards _ _ _ _ _ _ p in
    (
      (==_iff (length b) 32).0 l,
      (bytes_eq_iff (slice 0 4 b) tag_nonce).0 t,
      (bytes_eq_iff (slice 4 4 b) req.key_selector).0 s,
      (bytes_eq_iff (slice 8 4 b) nonce_crypto_aes).0 c,
      n,
    )

-- A nonce response is accepted exactly when it has 32 bytes, the nonce tag, the key selector of
-- the request and the AES crypto type, and the accepted nonce is what follows the first 16 bytes.
pub parse_nonce_response-accepted :
    (b : Bytes) (req : NonceRequest) (nonce' : Bytes)
    → (parse_nonce_response b req ≡ accepted nonce') ↔ IsResponse b req nonce'
parse_nonce_response-accepted b req nonce' =
    (accepted_inv b req nonce', λ r. accepts b req r.0 r.1 r.3 r.2 ∙ ap accepted r.4)

module _ (md5 sha1 : Bytes → Bytes) where
  -- For hashes of 16 and 20 bytes the derived key always has the 32 bytes of AES-256 and the
  -- initialisation vector 16, whatever the addresses, nonces and secret.
  pub derive_key-sizes :
      (purpose : CipherPurpose) (req : NonceRequest) (resp_nonce : Bytes)
      (client remote : SocketAddr) (secret : Bytes)
      → ((b : Bytes) → length (md5 b) ≡ 16)
      → ((b : Bytes) → length (sha1 b) ≡ 20)
      → let (key, iv) = derive_key md5 sha1 purpose req resp_nonce client remote secret in
        (length key ≡ 32) × (length iv ≡ 16)
  unfolding derive_key
  derive_key-sizes purpose req resp_nonce client remote secret m s =
      let b = key_message purpose req resp_nonce client remote secret in
      (
        omega (
          arith,
          length-append (take 12 (md5 (drop 1 b))) (sha1 b),
          length-take 12 (md5 (drop 1 b)),
          m (drop 1 b),
          s b,
        ),
        m (drop 2 b),
      )
