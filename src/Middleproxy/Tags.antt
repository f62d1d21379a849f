-- ===== src/Middleproxy/Tags.antt =====
-- mtglib/internal/middleproxy/tags.go: the constants of the wire protocol.
use mtg_multi.Prelude.{ℕ, ◌-◌, ◌^◌, [], ◌∷◌}
use mtg_multi.Prelude.Bytes.{Bytes, text}

abbrev pub tag_nonce : Bytes
tag_nonce = 0xaa ∷ 0x87 ∷ 0xcb ∷ 0x7a ∷ []

abbrev pub tag_handshake : Bytes
tag_handshake = 0xf5 ∷ 0xee ∷ 0x82 ∷ 0x76 ∷ []

abbrev pub tag_proxy_request : Bytes
tag_proxy_request = 0xee ∷ 0xf1 ∷ 0xce ∷ 0x36 ∷ []

abbrev pub tag_proxy_ans : Bytes
tag_proxy_ans = 0x0d ∷ 0xda ∷ 0x03 ∷ 0x44 ∷ []

abbrev pub tag_simple_ack : Bytes
tag_simple_ack = 0x9b ∷ 0x40 ∷ 0xac ∷ 0x3b ∷ []

abbrev pub tag_close_ext : Bytes
tag_close_ext = 0xa2 ∷ 0x34 ∷ 0xb6 ∷ 0x5e ∷ []

abbrev pub nonce_crypto_aes : Bytes
nonce_crypto_aes = 0x01 ∷ 0x00 ∷ 0x00 ∷ 0x00 ∷ []

abbrev pub handshake_flags : Bytes
handshake_flags = 0x00 ∷ 0x00 ∷ 0x00 ∷ 0x00 ∷ []

abbrev pub proxy_request_extra_size : Bytes
proxy_request_extra_size = 0x18 ∷ 0x00 ∷ 0x00 ∷ 0x00 ∷ []

abbrev pub proxy_request_proxy_tag : Bytes
proxy_request_proxy_tag = 0xae ∷ 0x26 ∷ 0x1e ∷ 0xdb ∷ []

abbrev pub handshake_pid : Bytes
handshake_pid = text "IPIPPRPDTIME"

abbrev pub flag_has_ad_tag : ℕ
flag_has_ad_tag = 0x8

abbrev pub flag_encrypted : ℕ
flag_encrypted = 0x2

abbrev pub flag_magic : ℕ
flag_magic = 0x1000

abbrev pub flag_ext_mode2 : ℕ
flag_ext_mode2 = 0x20000

abbrev pub flag_intermediate : ℕ
flag_intermediate = 0x20000000

abbrev pub flag_quick_ack : ℕ
flag_quick_ack = 0x80000000

abbrev pub flag_pad : ℕ
flag_pad = 0x8000000

-- An int32 is kept as its bit pattern, so -2 and -1 are these.
abbrev pub seq_no_nonce : ℕ
seq_no_nonce = 2 ^ 32 - 2

abbrev pub seq_no_handshake : ℕ
seq_no_handshake = 2 ^ 32 - 1

abbrev pub ad_tag_length : ℕ
ad_tag_length = 16
