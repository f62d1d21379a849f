-- ===== src/Fake.antt =====
-- mtglib/internal/tls/fake: the client hello of a fake TLS handshake. utils.go joins its fragments,
-- client_side.go parses it and tries the secrets on it. A connection is the bytes that will still
-- arrive and then its end; HMAC-SHA256 and the clock are parameters.
use Prim.Native.Nat.{bit_and, bit_xor}
use mtg_multi.Prelude.{
  ℕ, zero, suc, ◌+◌, ◌-◌, ◌*◌, ◌/◌, ◌%◌, min, Bool, true, false, not, ◌&&◌, ◌||◌, Fallible, ok, err,
  ◌>>=◌, Option, none, some, List, [], ◌∷◌, ◌++◌, length, take, drop, replicate, ltb, ◌==◌,
  if◌then◌else◌, bytes_eq,
}
use mtg_multi.Prelude.Bytes.{Bytes, be16, be16_value, le32_value, read_full}
pub mod Fragments
pub mod Hello
pub mod ServerHello

abbrev pub type_handshake : ℕ
type_handshake = 0x16

abbrev pub type_handshake_client : ℕ
type_handshake_client = 0x01

abbrev pub random_len : ℕ
random_len = 32

abbrev pub random_offset : ℕ
random_offset = 1 + 2 + 2 + 1 + 3 + 2

abbrev pub grease_mask : ℕ
grease_mask = 0x0f0f

abbrev pub grease_value_type : ℕ
grease_value_type = 0x0a0a

abbrev pub max_fragments_count : ℕ
max_fragments_count = 10

abbrev pub empty_random : Bytes
empty_random = replicate random_len 0

pub data HelloError : Type 0 where
  too_many_fragments cut_record_header unexpected_record_type unexpected_protocol_version :
      HelloError
  cut_fragment incorrect_handshake_type : HelloError
  cut_version cut_random cut_session_id_length cut_session_id cut_cipher_suites_length : HelloError
  cut_cipher_suite cannot_find_cipher cut_compression_length cut_compression : HelloError
  cut_extensions_length cut_extensions cut_extension_type cut_extension_length : HelloError
  cut_extension_data cut_sni_length cut_sni_type incorrect_sni_type cut_name_length cut_name :
      HelloError
  cannot_find_host bad_digest : HelloError

-- fragmentedHandshakeReader
pub record Reader : Type 0 where
  pub input : Bytes
  pub buf : Bytes
  pub read_fragments : ℕ

-- io.CopyN into the buffer.
pub copy_fragment : Reader → Bytes → ℕ → Fallible HelloError Reader
copy_fragment f s n =
    if ltb (length s) n
    then err cut_fragment
    else ok record f { input = drop n s; buf = f.buf ++ take n s }

pub parse_next_header : Reader → Bytes → Fallible HelloError Reader
parse_next_header f (record_type ∷ major ∷ minor ∷ high ∷ low ∷ s) =
    if not (record_type == type_handshake)
    then err unexpected_record_type
    else if not (major == 3) || not (minor == 1)
    then err unexpected_protocol_version
    else copy_fragment f s (be16_value (high ∷ low ∷ []))
parse_next_header f _ = err cut_record_header

pub parse_next_fragment : Reader → Fallible HelloError Reader
parse_next_fragment f = parse_next_header f f.input

unfoldable pub is_empty : Bytes → Bool
is_empty [] = true
is_empty (_ ∷ _) = false

-- The loop of Read while the buffer is empty. `max_fragments_count` and two rounds suffice, since
-- each round counts a fragment or is the last.
pub next_fragments : ℕ → Reader → Fallible HelloError Reader
next_fragments zero f = err too_many_fragments
next_fragments (suc fuel) f =
    if not (is_empty f.buf)
    then ok f
    else if ltb max_fragments_count f.read_fragments
    then err too_many_fragments
    else do
      f' ← parse_next_fragment f
      next_fragments fuel (record f' { read_fragments = f'.read_fragments + 1 })

-- Read of `n` bytes, not 0: at most `n` of a buffer that is not empty.
pub read_some : ℕ → Reader → Fallible HelloError (Reader × Bytes)
read_some n f = do
  f' ← next_fragments (max_fragments_count + 2) f
  ok (record f' { buf = drop n f'.buf }, take n f'.buf)

-- io.ReadFull and io.CopyN of `n` bytes through the reader, in requests of at most `most`. Each Read
-- gives a byte at least, so `n` rounds suffice.
pub read_bytes : ℕ → ℕ → ℕ → Reader → Fallible HelloError (Reader × Bytes)
read_bytes fuel most zero f = ok (f, [])
read_bytes zero most (suc n) f = ok (f, [])
read_bytes (suc fuel) most (suc n) f = do
  (f', out) ← read_some (min most (suc n)) f
  (f'', rest) ← read_bytes fuel most (suc n - length out) f'
  ok (f'', out ++ rest)

-- The requests of io.CopyN.
abbrev pub copy_chunk : ℕ
copy_chunk = 32768

-- The copy that the digest is of and the body that is parsed.
pub record RawHello : Type 0 where
  pub hello_copy : Bytes
  pub handshake : Bytes

abbrev pub uint24_value : Bytes → ℕ
uint24_value (a ∷ b ∷ c ∷ _) = 65536 * a + 256 * b + c
uint24_value _ = 0

abbrev pub raw_hello : Bytes → Bytes → RawHello
raw_hello size body = record {
  hello_copy =
      type_handshake
      ∷ 3
      ∷ 1
      ∷ (be16 ((1 + 3 + uint24_value size) % 65536) ++ (type_handshake_client ∷ (size ++ body)));
  handshake = body;
}

pub parse_type : Reader → Bytes → Fallible HelloError RawHello
parse_type f (handshake_type ∷ size) =
    if not (handshake_type == type_handshake_client) then err incorrect_handshake_type else do
      (_, body) ← read_bytes (uint24_value size) copy_chunk (uint24_value size) f
      ok (raw_hello size body)
parse_type f [] = err incorrect_handshake_type

pub parse_client_hello : Bytes → Fallible HelloError RawHello
parse_client_hello input = do
  (f, header) ← read_bytes 4 4 4 record { input = input; buf = []; read_fragments = 0 }
  parse_type f header
