-- ===== src/Fake/ServerHello.antt =====
-- mtglib/internal/tls/fake/server_side.go: the server hello. The random bytes, among them the public
-- key and the noise, and HMAC-SHA256 are parameters.
use mtg_multi.Prelude.{
  ℕ, ◌+◌, ◌-◌, ◌/◌, ◌%◌, max, ◌≡◌, refl, sym, ap, ◌∙◌, ◌&&◌, [], ◌∷◌, ◌++◌, length, take, drop, ltb,
  if◌then◌else◌, take-append, drop-append, drop-drop,
}
use mtg_multi.Prelude.Bytes.{Bytes, be16}
use mtg_multi.Tls.{tls_version, max_record_payload_size, record_bytes}
use mtg_multi.Fake.{type_handshake, random_offset, random_len, empty_random}
use mtg_multi.Fake.Hello.{ClientHello}

abbrev pub type_handshake_server : ℕ
type_handshake_server = 0x02

abbrev pub type_change_cipher_spec : ℕ
type_change_cipher_spec = 0x14

abbrev pub change_cipher_value : ℕ
change_cipher_value = 0x01

abbrev pub server_hello_suffix : Bytes
server_hello_suffix =
    0x00 ∷ 0x00 ∷ 0x2e ∷ 0x00 ∷ 0x2b ∷ 0x00 ∷ 0x02 ∷ 0x03 ∷ 0x04 ∷ 0x00 ∷ 0x33 ∷ 0x00 ∷ 0x24 ∷ 0x00
    ∷ 0x1d ∷ 0x00 ∷ 0x20 ∷ []

pub record NoiseParams : Type 0 where
  pub mean : ℕ
  pub jitter : ℕ

-- The size of the noise for what rnd.IntN gave; a difference below 0 is below the minimum too.
pub noise_size : NoiseParams → ℕ → ℕ
noise_size noise r =
    if ltb 0 noise.mean && ltb 0 noise.jitter
    then max ((noise.mean + r) - noise.jitter) 1000
    else 2500 + r

pub handshake_payload : Bytes → ClientHello → Bytes
handshake_payload curve hello =
    tls_version
    ++ (empty_random
        ++ ((length hello.session_id % 256)
            ∷ (hello.session_id ++ (be16 hello.cipher_suite ++ (server_hello_suffix ++ curve)))))

-- The last three bytes of a big-endian uint32.
abbrev pub be24 : ℕ → Bytes
be24 n = (n / 65536 % 256) ∷ (n / 256 % 256) ∷ (n % 256) ∷ []

pub server_hello_payload : Bytes → ClientHello → Bytes
server_hello_payload curve hello =
    type_handshake_server
    ∷ (be24 (length (handshake_payload curve hello)) ++ handshake_payload curve hello)

pub server_hello : Bytes → ClientHello → Bytes
server_hello curve hello =
    type_handshake
    ∷ (tls_version
        ++ (be16 (length (server_hello_payload curve hello) % 65536)
            ++ server_hello_payload curve hello))

abbrev pub change_cipher : Bytes
change_cipher = type_change_cipher_spec ∷ (tls_version ++ (0 ∷ 1 ∷ change_cipher_value ∷ []))

-- generateNoise drops the error of WriteRecord: noise that is too long is not written.
pub noise_record : Bytes → Bytes
noise_record noise = if ltb max_record_payload_size (length noise) then [] else record_bytes noise

pub hello_packet : Bytes → ClientHello → Bytes → Bytes
hello_packet curve hello noise = server_hello curve hello ++ (change_cipher ++ noise_record noise)

-- `copy(packet[RandomOffset:], digest)` for a digest of RandomLen bytes.
pub put_digest : Bytes → Bytes → Bytes
put_digest digest packet =
    take random_offset packet ++ (digest ++ drop (random_offset + random_len) packet)

-- What SendServerHello writes.
pub send_server_hello : (Bytes → Bytes → Bytes) → Bytes → Bytes → ClientHello → Bytes → Bytes
send_server_hello hmac curve secret hello noise =
    let packet = hello_packet curve hello noise in
    put_digest (hmac secret (hello.random ++ packet)) packet

-- Where the client looks for the digest, and what it is the digest of.
abbrev pub digest_in : Bytes → Bytes
digest_in sent = take random_len (drop random_offset sent)

abbrev pub nullified : Bytes → Bytes
nullified sent = put_digest empty_random sent

abbrev first_bytes : Bytes → ClientHello → Bytes
first_bytes curve hello = take random_offset (server_hello curve hello)

abbrev after_random : Bytes → ClientHello → Bytes
after_random curve hello = drop (random_offset + random_len) (server_hello curve hello)

packet_parts :
    (curve : Bytes) (hello : ClientHello) (noise : Bytes)
    → hello_packet curve hello noise
      ≡ first_bytes curve hello
        ++ (empty_random ++ (after_random curve hello ++ (change_cipher ++ noise_record noise)))
unfolding hello_packet server_hello server_hello_payload handshake_payload be16
packet_parts curve hello noise = refl

length-first_bytes :
    (curve : Bytes) (hello : ClientHello) → length (first_bytes curve hello) ≡ random_offset
unfolding server_hello server_hello_payload handshake_payload be16
length-first_bytes curve hello = refl

put_digest-parts :
    (first d d' rest : Bytes)
    → length first ≡ random_offset
    → length d ≡ random_len
    → put_digest d' (first ++ (d ++ rest)) ≡ first ++ (d' ++ rest)
unfolding put_digest
put_digest-parts first d d' rest l m =
    let e : drop (random_offset + random_len) (first ++ (d ++ rest)) ≡ rest =
      sym (drop-drop random_offset random_len (first ++ (d ++ rest)))
      ∙ ap (drop random_len) (drop-append random_offset first (d ++ rest) l)
      ∙ drop-append random_len d rest m in
    rw (take-append random_offset first (d ++ rest) l, e) refl

-- For an HMAC of 32 bytes, what SendServerHello writes carries at the place of the random the
-- digest of the client's random and of itself with that place nullified, which is what the client
-- checks, whatever the session, the key and the noise.
pub send_server_hello-verifies :
    (hmac : Bytes → Bytes → Bytes) (curve secret noise : Bytes) (hello : ClientHello)
    → ((k b : Bytes) → length (hmac k b) ≡ random_len)
    → digest_in (send_server_hello hmac curve secret hello noise)
      ≡ hmac secret (hello.random ++ nullified (send_server_hello hmac curve secret hello noise))
unfolding send_server_hello
send_server_hello-verifies hmac curve secret noise hello size =
    let first = first_bytes curve hello in
    let rest = after_random curve hello ++ (change_cipher ++ noise_record noise) in
    let packet = hello_packet curve hello noise in
    let digest = hmac secret (hello.random ++ packet) in
    let l = length-first_bytes curve hello in
    let m = size secret (hello.random ++ packet) in
    let parts : packet ≡ first ++ (empty_random ++ rest) = packet_parts curve hello noise in
    let sent : put_digest digest packet ≡ first ++ (digest ++ rest) =
      ap (put_digest digest) parts ∙ put_digest-parts first empty_random digest rest l refl in
    let zeros : nullified (put_digest digest packet) ≡ packet =
      ap nullified sent ∙ put_digest-parts first digest empty_random rest l m ∙ sym parts in
    ap digest_in sent
    ∙ ap (take random_len) (drop-append random_offset first (digest ++ rest) l)
    ∙ take-append random_len digest rest m
    ∙ sym (ap (λ (b : Bytes). hmac secret (hello.random ++ b)) zeros)
