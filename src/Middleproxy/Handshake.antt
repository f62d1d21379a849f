-- ===== src/Middleproxy/Handshake.antt =====
-- mtglib/internal/middleproxy/handshake.go and cipher.go: the messages of the nonce and handshake
-- exchange, their checks, and the key schedule. The random nonce and the clock are arguments; the
-- hashes are parameters.
use mtg_multi.Prelude.{
  ℕ, ◌+◌, ◌%◌, ◌≡◌, refl, Bool, true, false, not, Option, none, some, List, [], ◌∷◌, ◌++◌, length,
  take, drop, replicate, ◌==◌, if◌then◌else◌, bytes_eq,
}
use mtg_multi.Prelude.Bytes.{Bytes, le32, le16, text}
use mtg_multi.Middleproxy.Tags.{
  tag_nonce, tag_handshake, nonce_crypto_aes, handshake_flags, handshake_pid,
}
pub mod Checks
mod Runs

pub record NonceRequest : Type 0 where
  pub key_selector : Bytes
  pub crypto_ts : Bytes
  pub nonce : Bytes

-- newNonceRequest: `copy` into four zero bytes.
pub new_nonce_request : Bytes → Bytes → ℕ → NonceRequest
new_nonce_request proxy_secret random unix = record {
  key_selector = take 4 (proxy_secret ++ replicate 4 0);
  crypto_ts = le32 (unix % 4294967296);
  nonce = random;
}

pub nonce_request_bytes : NonceRequest → Bytes
nonce_request_bytes r =
    tag_nonce ++ (r.key_selector ++ (nonce_crypto_aes ++ (r.crypto_ts ++ r.nonce)))

pub data HandshakeError : Type 0 where
  wrong_length wrong_tag wrong_crypto wrong_selector wrong_pid : HandshakeError

pub data Checked : Type 0 where
  accepted : Bytes → Checked
  rejected : HandshakeError → Checked

-- `data[from:to]`
abbrev pub slice : ℕ → ℕ → Bytes → Bytes
slice from size b = take size (drop from b)

pub parse_nonce_response : Bytes → NonceRequest → Checked
parse_nonce_response b req =
    if not (length b == 32)
    then rejected wrong_length
    else if not (bytes_eq (slice 0 4 b) tag_nonce)
    then rejected wrong_tag
    else if not (bytes_eq (slice 8 4 b) nonce_crypto_aes)
    then rejected wrong_crypto
    else if not (bytes_eq (slice 4 4 b) req.key_selector)
    then rejected wrong_selector
    else accepted (drop 16 b)

pub handshake_request_bytes : Bytes
handshake_request_bytes = tag_handshake ++ (handshake_flags ++ (handshake_pid ++ handshake_pid))

pub validate_handshake_response : Bytes → Option HandshakeError
validate_handshake_response b =
    if not (length b == 32)
    then some wrong_length
    else if not (bytes_eq (slice 0 4 b) tag_handshake)
    then some wrong_tag
    else if not (bytes_eq (drop 20 b) handshake_pid)
    then some wrong_pid
    else none

pub data CipherPurpose : Type 0 where
  purpose_client purpose_server : CipherPurpose

-- A *net.TCPAddr: IP.To4() where it is one, IP.To16(), and the port.
pub record SocketAddr : Type 0 where
  pub to4 : Option Bytes
  pub to16 : Bytes
  pub port : ℕ

pub reverse_bytes : Bytes → Bytes
reverse_bytes [] = []
reverse_bytes (x ∷ xs) = reverse_bytes xs ++ (x ∷ [])

pub purpose_text : CipherPurpose → Bytes
purpose_text purpose_client = text "CLIENT"
purpose_text purpose_server = text "SERVER"

-- reverseBytes of a nil To4() is empty.
pub reversed_or_empty : Option Bytes → Bytes
reversed_or_empty none = []
reversed_or_empty (some ip) = reverse_bytes ip

-- The client's and the server's IPv4 bytes, and the trailing IPv6 pair.
pub ipv4_bytes : Option Bytes → Option Bytes → Bytes × Bytes
ipv4_bytes none server = (replicate 4 0, replicate 4 0)
ipv4_bytes (some ip) server = (reverse_bytes ip, reversed_or_empty server)

pub ipv6_bytes : SocketAddr → SocketAddr → Option Bytes → Bytes
ipv6_bytes client remote none = client.to16 ++ remote.to16
ipv6_bytes client remote (some _) = []

-- What deriveKey hashes.
pub key_message : CipherPurpose → NonceRequest → Bytes → SocketAddr → SocketAddr → Bytes → Bytes
key_message purpose req resp_nonce client remote secret =
    let (client_ip, server_ip) = ipv4_bytes client.to4 remote.to4 in
    resp_nonce
    ++ (req.nonce
        ++ (req.crypto_ts
            ++ (server_ip
                ++ (le16 (client.port % 65536)
                    ++ (purpose_text purpose
                        ++ (client_ip
                            ++ (le16 (remote.port % 65536)
                                ++ (secret
                                    ++ (resp_nonce
                                        ++ (ipv6_bytes client remote client.to4
                                            ++ req.nonce))))))))))

-- The key and the initialisation vector.
module _ (md5 sha1 : Bytes → Bytes) where
  pub derive_key :
      CipherPurpose → NonceRequest → Bytes → SocketAddr → SocketAddr → Bytes → Bytes × Bytes
  derive_key purpose req resp_nonce client remote secret =
      let b = key_message purpose req resp_nonce client remote secret in
      (take 12 (md5 (drop 1 b)) ++ sha1 b, md5 (drop 2 b))
