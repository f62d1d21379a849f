-- ===== src/Fake/Hello.antt =====
-- mtglib/internal/tls/fake/client_side.go: parsing a client hello and trying the secrets on it.
use Prim.Native.Nat.{bit_and, bit_xor}
use mtg_multi.Prelude.{
  ℕ, zero, suc, ◌+◌, ◌-◌, ◌*◌, ◌/◌, Bool, true, false, not, ◌&&◌, ◌||◌, Option, none, some, List,
  [], ◌∷◌, ◌++◌, length, take, drop, replicate, ltb, ◌==◌, if◌then◌else◌, bytes_eq, Fallible, ok,
  err, ◌>>=◌, or_err,
}
use mtg_multi.Prelude.Bytes.{Bytes, be16_value, le32_value, read_full}
use mtg_multi.Fake.{
  HelloError, cut_version, cut_random, cut_session_id_length, cut_session_id,
  cut_cipher_suites_length, cut_cipher_suite, cannot_find_cipher, cut_compression_length,
  cut_compression, cut_extensions_length, cut_extensions, cut_extension_type, cut_extension_length,
  cut_extension_data, cut_sni_length, cut_sni_type, incorrect_sni_type, cut_name_length, cut_name,
  cannot_find_host, bad_digest, random_len, random_offset, grease_mask, grease_value_type,
  empty_random, RawHello, parse_client_hello, is_empty,
}
pub mod Secrets
mod Runs

pub record ClientHello : Type 0 where
  pub random : Bytes
  pub session_id : Bytes
  pub cipher_suite : ℕ

abbrev byte_value : Bytes → ℕ
byte_value (b ∷ _) = b
byte_value [] = 0

abbrev pub is_grease : ℕ → Bool
is_grease suite = bit_and suite grease_mask == grease_value_type

-- The first suite that is not GREASE, once found, stays; the list is read to its end.
pub read_suites : ℕ → ℕ → Bytes → Fallible HelloError (ℕ × Bytes)
read_suites zero suite s = ok (suite, s)
read_suites (suc n) suite s = do
  (b, s') ← or_err cut_cipher_suite (read_full 2 s)
  read_suites n (if not (suite == 0) || is_grease (be16_value b) then suite else be16_value b) s'

pub parse_handshake : Bytes → Fallible HelloError (ClientHello × Bytes)
parse_handshake s = do
  (_, s1) ← or_err cut_version (read_full 2 s)
  (random, s2) ← or_err cut_random (read_full random_len s1)
  (id_length, s3) ← or_err cut_session_id_length (read_full 1 s2)
  (session_id, s4) ← or_err cut_session_id (read_full (byte_value id_length) s3)
  (suites_length, s5) ← or_err cut_cipher_suites_length (read_full 2 s4)
  (suite, s6) ← read_suites (be16_value suites_length / 2) 0 s5
  if suite == 0 then err cannot_find_cipher else do
    (methods_length, s7) ← or_err cut_compression_length (read_full 1 s6)
    (_, s8) ← or_err cut_compression (read_full (byte_value methods_length) s7)
    ok (record { random = random; session_id = session_id; cipher_suite = suite }, s8)

-- The host names of a list, until the buffer is empty. Each round takes a length, so the length of
-- the buffer suffices, and what is left at the end of the fuel is an empty buffer.
pub sni_names : ℕ → Bytes → Fallible HelloError (List Bytes)
sni_names zero buf = ok []
sni_names (suc fuel) buf = if is_empty buf then ok [] else do
  (b, s) ← or_err cut_name_length (read_full 2 buf)
  (name, rest) ← or_err cut_name (read_full (be16_value b) s)
  names ← sni_names fuel rest
  ok (name ∷ names)

-- The extension of the server name: a length, which is only tested for 0, a type and the names.
pub parse_sni_data : Bytes → Fallible HelloError (List Bytes)
parse_sni_data buf = do
  (b, s) ← or_err cut_sni_length (read_full 2 buf)
  if be16_value b == 0 then ok [] else do
    (list_type, rest) ← or_err cut_sni_type (read_full 1 s)
    if not (byte_value list_type == 0) then err incorrect_sni_type else sni_names (length rest) rest

-- The extensions up to the server name; the fuel is the length of the buffer, as for `sni_names`.
pub find_sni : ℕ → Bytes → Fallible HelloError (List Bytes)
find_sni zero buf = ok []
find_sni (suc fuel) buf = if is_empty buf then ok [] else do
  (ext_type, s1) ← or_err cut_extension_type (read_full 2 buf)
  (b, s2) ← or_err cut_extension_length (read_full 2 s1)
  (ext_data, s3) ← or_err cut_extension_data (read_full (be16_value b) s2)
  let rest = find_sni fuel s3
  if bytes_eq ext_type (0 ∷ 0 ∷ []) then parse_sni_data ext_data else rest

pub parse_sni : Bytes → Fallible HelloError (List Bytes)
parse_sni s = do
  (b, s') ← or_err cut_extensions_length (read_full 2 s)
  (buf, _) ← or_err cut_extensions (read_full (be16_value b) s')
  find_sni (length buf) buf

pub contains : Bytes → List Bytes → Bool
contains h [] = false
contains h (n ∷ ns) = bytes_eq n h || contains h ns

-- The first allowed host among the names, or the empty text.
pub match_host : List Bytes → List Bytes → Bytes
match_host [] names = []
match_host (h ∷ hs) names = if contains h names then h else match_host hs names

-- `computed[i] ^= hello.Random[i]`
pub xor_bytes : Bytes → Bytes → Bytes
xor_bytes (x ∷ xs) (y ∷ ys) = bit_xor x y ∷ xor_bytes xs ys
xor_bytes xs _ = xs

-- The bytes that are hashed: the client random is nullified.
pub digest_input : Bytes → Bytes
digest_input b = take random_offset b ++ (empty_random ++ drop (random_offset + random_len) b)

-- time.Since(time.Unix(timestamp, 0)).Abs() in nanoseconds.
pub age : ℕ → ℕ → ℕ
age now timestamp = (now - timestamp * 1000000000) + (timestamp * 1000000000 - now)

pub data Matched : Type 0 where
  matched : ClientHello → ℕ → Bytes → Matched
  -- ErrBadDigest, with the host for the domain fronting.
  unmatched : Bytes → Matched

pub verdict : ClientHello → Bytes → Option ℕ → Matched
verdict hello host none = unmatched host
verdict hello host (some i) = matched hello i host

module _ (hmac : Bytes → Bytes → Bytes) (now : ℕ) (tolerate : ℕ) where
  -- Whether a secret gives the client's random, up to a timestamp that is not too far off.
  pub confirms : Bytes → Bytes → Bytes → Bool
  confirms hello_copy random secret =
      let computed = xor_bytes (hmac secret (digest_input hello_copy)) random in
      bytes_eq (take (random_len - 4) empty_random) (take (random_len - 4) computed)
      && not (ltb tolerate (age now (le32_value (drop (random_len - 4) computed))))

  -- The loop over the secrets, from an index on.
  pub try_secrets : Bytes → Bytes → ℕ → List Bytes → Option ℕ
  try_secrets hello_copy random i [] = none
  try_secrets hello_copy random i (k ∷ ks) =
      if confirms hello_copy random k then some i else try_secrets hello_copy random (suc i) ks

  -- From the host that was found on: none is an error before any secret is tried.
  pub try_host : List Bytes → RawHello → ClientHello → Bytes → Fallible HelloError Matched
  try_host secrets raw hello host =
      if is_empty host
      then err cannot_find_host
      else ok (verdict hello host (try_secrets raw.hello_copy hello.random 0 secrets))

  pub read_client_hello_multi : List Bytes → List Bytes → Bytes → Fallible HelloError Matched
  read_client_hello_multi secrets hostnames input = do
    raw ← parse_client_hello input
    (hello, rest) ← parse_handshake raw.handshake
    names ← parse_sni rest
    try_host secrets raw hello (match_host hostnames names)
