-- ===== src/Obfuscation/RoundTrip.antt =====
-- mtglib/obfuscation: the two ends of an obfuscated handshake.
use mtg_multi.Prelude.{
  ℕ, ◌<◌, ◌≡◌, refl, Option, ◌++◌, length, take, drop, ok, take-append, drop-append,
}
use mtg_multi.Prelude.Bytes.{Bytes, IsByte, IsBytes}
use mtg_multi.Prelude.Ints.{ℤ, pos, negsuc}
use mtg_multi.Obfuscation.{or_default, Conn, xor_at, read_handshake, send_handshake, write, read}
use mtg_multi.Obfuscation.Ciphers.{xor_at_twice, length-xor_at}

abbrev pub IsI16 : ℤ → Type 0
IsI16 (pos n) = n < 32768
IsI16 (negsuc n) = n < 32768

-- What rand.Read gives for a frame.
abbrev pub IsFrame : Bytes → Type 0
IsFrame frame = (length frame ≡ 64) × IsBytes frame

-- What a reader with the secret makes of what is sent for a frame.
abbrev IsRead :
    (Bytes → Bytes) → (Bytes → Bytes → ℕ → ℕ) → Option Bytes → ℤ → Bytes → Bytes → Bytes → Type 0
IsRead sha256 key_stream secret dc input rest f =
    read_handshake sha256 key_stream secret
      ((send_handshake sha256 key_stream secret f input).0 ++ rest)
    ≡ ok (
      or_default dc,
      record {
        input = rest;
        recv_cipher = (send_handshake sha256 key_stream secret f input).1.send_cipher;
        send_cipher = (send_handshake sha256 key_stream secret f input).1.recv_cipher;
      },
    )

-- For a key stream of bytes and ciphers that match, the bytes that one end writes, arrived in one
-- piece, are read by the other end, whose cipher moves on with the writer's.
pub read-write :
    (sha256 : Bytes → Bytes) (key_stream : Bytes → Bytes → ℕ → ℕ) (a b : Conn) (p rest : Bytes)
    → ((k v : Bytes) (n : ℕ) → IsByte (key_stream k v n))
    → IsBytes p
    → b.recv_cipher ≡ a.send_cipher
    → b.input ≡ (write sha256 key_stream a p).1 ++ rest
    → ((read sha256 key_stream b (length p)).1 ≡ p)
      × ((read sha256 key_stream b (length p)).0.recv_cipher
          ≡ (write sha256 key_stream a p).0.send_cipher)
      × ((read sha256 key_stream b (length p)).0.input ≡ rest)
unfolding read write
read-write sha256 key_stream a b p rest bytes v same arrived =
    let coded = xor_at sha256 key_stream a.send_cipher a.send_cipher.position p in
    let l : length coded ≡ length p =
      length-xor_at sha256 key_stream a.send_cipher a.send_cipher.position p in
    let t : take (length p) b.input ≡ coded = rw arrived (take-append (length p) coded rest l) in
    let d : drop (length p) b.input ≡ rest = rw arrived (drop-append (length p) coded rest l) in
    (
      rw (t, same)
          (xor_at_twice sha256 key_stream a.send_cipher a.send_cipher.position p
            (λ m. bytes a.send_cipher.block_key a.send_cipher.iv m) v),
      rw (t, same, l) refl,
      d,
    )
