-- ===== src/Middleproxy/Handshake/Runs.antt =====
-- mtglib/internal/middleproxy/handshake.go: a concrete response.
use mtg_multi.Prelude.{none, ◌++◌, replicate}
use mtg_multi.Prelude.Bytes.{Bytes}
use mtg_multi.Middleproxy.Tags.{tag_nonce, nonce_crypto_aes}
use mtg_multi.Middleproxy.Handshake.{NonceRequest, SocketAddr}

abbrev sent : NonceRequest
sent = record { key_selector = replicate 4 3; crypto_ts = replicate 4 1; nonce = replicate 16 2 }

abbrev response : Bytes
response = tag_nonce ++ (replicate 4 3 ++ (nonce_crypto_aes ++ (replicate 4 7 ++ replicate 16 8)))

abbrev loopback : SocketAddr
loopback = record { to4 = none; to16 = replicate 16 0; port = 443 }

-- Stand-ins of the right sizes for the hashes.
