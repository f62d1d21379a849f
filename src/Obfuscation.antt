-- ===== src/Obfuscation.antt =====
-- mtglib/obfuscation: the obfuscated handshake over an established connection. The hash and the key
-- stream of AES-CTR (the byte at a position, for a key and an initial vector) are parameters; the
-- random frames that rand.Read gives are an argument.
use Prim.Native.Nat.{bit_xor}
use mtg_multi.Prelude.{
  ℕ, zero, suc, ◌+◌, Bool, true, false, not, ◌&&◌, ◌||◌, Option, none, some, List, [], ◌∷◌, ◌++◌,
  length, take, drop, ◌==◌, if◌then◌else◌, bytes_eq, Fallible, ok, err, ◌>>=◌, or_err,
}
use mtg_multi.Prelude.Bytes.{Bytes, le16, le16_value, le32_value, read_full}
use mtg_multi.Prelude.Ints.{ℤ, pos, u16_of, i16_of}
pub mod Ciphers
pub mod RoundTrip
mod Runs

abbrev pub hf_len : ℕ
hf_len = 64

abbrev pub hf_len_key : ℕ
hf_len_key = 32

abbrev pub hf_len_iv : ℕ
hf_len_iv = 16

abbrev pub hf_offset_key : ℕ
hf_offset_key = 8

abbrev pub hf_offset_iv : ℕ
hf_offset_iv = hf_offset_key + hf_len_key

abbrev pub hf_offset_connection_type : ℕ
hf_offset_connection_type = hf_offset_iv + hf_len_iv

abbrev pub hf_offset_dc : ℕ
hf_offset_dc = hf_offset_connection_type + 4

abbrev pub hf_connection_type : Bytes
hf_connection_type = 0xdd ∷ 0xdd ∷ 0xdd ∷ 0xdd ∷ []

abbrev pub default_dc : ℕ
default_dc = 2

-- The slices of a frame.
abbrev pub key_of : Bytes → Bytes
key_of frame = take hf_len_key (drop hf_offset_key frame)

abbrev pub iv_of : Bytes → Bytes
iv_of frame = take hf_len_iv (drop hf_offset_iv frame)

abbrev pub connection_type : Bytes → Bytes
connection_type frame = take 4 (drop hf_offset_connection_type frame)

abbrev pub dc_slice : Bytes → Bytes
dc_slice frame = take 2 (drop hf_offset_dc frame)

abbrev pub or_default : ℤ → ℤ
or_default (pos zero) = pos default_dc
or_default i = i

pub dc_of : Bytes → ℤ
dc_of frame = or_default (i16_of (le16_value (dc_slice frame)))

pub reverse : Bytes → Bytes
reverse [] = []
reverse (x ∷ xs) = reverse xs ++ (x ∷ [])

-- The key and the initial vector are reversed together.
pub revert : Bytes → Bytes
revert frame =
    take hf_offset_key frame
    ++ (reverse (take (hf_len_key + hf_len_iv) (drop hf_offset_key frame))
        ++ drop hf_offset_connection_type frame)

abbrev forbidden_starts : List ℕ
forbidden_starts =
    0x44414548 ∷ 0x54534f50 ∷ 0x20544547 ∷ 0x4954504f ∷ 0x02010316 ∷ 0xdddddddd ∷ 0xeeeeeeee ∷ []

abbrev among : ℕ → List ℕ → Bool
among n [] = false
among n (m ∷ ms) = (n == m) || among n ms

-- Whether random bytes are not taken for the start of another protocol. An or of bytes is 0 when
-- all of them are.
pub is_usable : Bytes → Bool
is_usable frame =
    not (bytes_eq (take 1 frame) (0xef ∷ []))
    && not (among (le32_value (take 4 frame)) forbidden_starts)
    && not (bytes_eq (take 4 (drop 4 frame)) (0 ∷ 0 ∷ 0 ∷ 0 ∷ []))

pub with_dc : ℤ → Bytes → Bytes
with_dc dc frame =
    take hf_offset_connection_type frame
    ++ (hf_connection_type ++ (le16 (u16_of dc) ++ drop (hf_offset_dc + 2) frame))

-- The loop over what rand.Read gives: none when the given frames end.
pub generate_handshake : ℤ → List Bytes → Option Bytes
generate_handshake dc [] = none
generate_handshake dc (frame ∷ frames) =
    if is_usable frame then some (with_dc dc frame) else generate_handshake dc frames

-- A cipher.Stream: how many bytes of its key stream are used up.
pub record Cipher : Type 0 where
  pub block_key : Bytes
  pub iv : Bytes
  pub position : ℕ

-- An obfuscated connection: what will still arrive on it, and its ciphers.
pub record Conn : Type 0 where
  pub input : Bytes
  pub recv_cipher : Cipher
  pub send_cipher : Cipher

pub data HandshakeError : Type 0 where
  cannot_read_frame unsupported_connection_type : HandshakeError

module _ (sha256 : Bytes → Bytes) (key_stream : Bytes → Bytes → ℕ → ℕ) where
  -- A nil secret leaves the key as it is.
  pub get_cipher : Option Bytes → Bytes → Cipher
  get_cipher none frame = record { block_key = key_of frame; iv = iv_of frame; position = 0 }
  get_cipher (some secret) frame = record {
    block_key = sha256 (key_of frame ++ secret);
    iv = iv_of frame;
    position = 0;
  }

  pub xor_at : Cipher → ℕ → Bytes → Bytes
  xor_at c n [] = []
  xor_at c n (b ∷ bs) = bit_xor b (key_stream c.block_key c.iv n) ∷ xor_at c (suc n) bs

  -- XORKeyStream: the bytes, and the stream after them.
  abbrev pub xor_key_stream : Cipher → Bytes → Cipher × Bytes
  xor_key_stream c b = (record c { position = c.position + length b }, xor_at c c.position b)

  pub accept_frame : Option Bytes → Bytes → Bytes → Fallible HandshakeError (ℤ × Conn)
  accept_frame secret frame rest =
      let send_cipher = get_cipher secret (revert frame) in
      let (recv_cipher, plain) = xor_key_stream (get_cipher secret frame) frame in
      if not (bytes_eq (connection_type plain) hf_connection_type)
      then err unsupported_connection_type
      else ok (
        dc_of plain,
        record { input = rest; recv_cipher = recv_cipher; send_cipher = send_cipher },
      )

  pub read_handshake : Option Bytes → Bytes → Fallible HandshakeError (ℤ × Conn)
  read_handshake secret input = do
    (frame, rest) ← or_err cannot_read_frame (read_full hf_len input)
    accept_frame secret frame rest

  -- SendHandshake with a frame of generateHandshake: what is written, and the connection around a
  -- wire on which `input` will arrive.
  pub send_handshake : Option Bytes → Bytes → Bytes → Bytes × Conn
  send_handshake secret frame input =
      let recv_cipher = get_cipher secret (revert frame) in
      let (send_cipher, coded) = xor_key_stream (get_cipher secret frame) frame in
      (
        take hf_offset_key coded
            ++ (key_of frame ++ (iv_of frame ++ drop hf_offset_connection_type coded)),
        record { input = input; recv_cipher = recv_cipher; send_cipher = send_cipher },
      )

  -- conn.Write and conn.Read; a Read gets `n` bytes of what has arrived.
  pub write : Conn → Bytes → Conn × Bytes
  write c p =
      let (cipher, coded) = xor_key_stream c.send_cipher p in
      (record c { send_cipher = cipher }, coded)

  pub read : Conn → ℕ → Conn × Bytes
  read c n =
      let (cipher, plain) = xor_key_stream c.recv_cipher (take n c.input) in
      (record c { input = drop n c.input; recv_cipher = cipher }, plain)
