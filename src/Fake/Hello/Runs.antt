-- ===== src/Fake/Hello/Runs.antt =====
-- mtglib/internal/tls/fake on a concrete client hello in fragments.
use mtg_multi.Prelude.{length, ◌+◌, ◌%◌, ◌≡◌, refl, List, [], ◌∷◌, ◌++◌, replicate, ok, arith}
use mtg_multi.Prelude.Bytes.{Bytes, be16, be16_value, le32_value}
use mtg_multi.Fake.{
  RawHello, raw_hello, parse_client_hello, parse_type, read_bytes, read_some, next_fragments,
  parse_next_fragment, parse_next_header, copy_fragment, is_empty,
}
use mtg_multi.Fake.Fragments.{fragments, parse_client_hello-fragments}
use mtg_multi.Fake.Hello.{
  ClientHello, matched, read_suites, parse_handshake, sni_names, parse_sni_data, find_sni,
  parse_sni, contains, match_host, xor_bytes, digest_input, age, confirms, try_secrets, verdict,
  try_host, read_client_hello_multi,
}
use mtg_multi.Fake.ServerHello.{send_server_hello, digest_in, nullified, send_server_hello-verifies}
use mtg_multi.Fake.Hello.Secrets.{IsVerdict, read_client_hello_multi-IsVerdict}

parse_client_hello-fragments_example :
    parse_client_hello
      (fragments ((1 ∷ 0 ∷ []) ∷ [] ∷ (0 ∷ 2 ∷ 9 ∷ []) ∷ (7 ∷ []) ∷ []) ++ (5 ∷ []))
    ≡ ok (raw_hello (0 ∷ 0 ∷ 2 ∷ []) (9 ∷ 7 ∷ []))
parse_client_hello-fragments_example =
    parse_client_hello-fragments ((1 ∷ 0 ∷ []) ∷ [] ∷ (0 ∷ 2 ∷ 9 ∷ []) ∷ (7 ∷ []) ∷ []) 0 0 2
      (9 ∷ 7 ∷ []) [] (5 ∷ []) refl refl (omega arith) (omega arith)

-- The host "h", in the extension of the server name.
abbrev extensions : Bytes
extensions = 0 ∷ 10 ∷ (0 ∷ 0 ∷ 0 ∷ 6 ∷ 0 ∷ 4 ∷ 0 ∷ 0 ∷ 1 ∷ 104 ∷ [])

-- One GREASE suite and one suite.
abbrev hello_body : Bytes
hello_body = 3 ∷ 3 ∷ (replicate 32 0 ++ (0 ∷ 0 ∷ 4 ∷ 0x0a ∷ 0x0a ∷ 0x13 ∷ 1 ∷ 1 ∷ 0 ∷ extensions))

-- A stand-in for the digest: all zeros for the key 2.
abbrev first_byte : Bytes → Bytes → Bytes
first_byte [] b = replicate 32 0
first_byte (k ∷ ks) b = replicate 32 ((k + 254) % 256)

abbrev hello_input : Bytes
hello_input = 22 ∷ 3 ∷ 1 ∷ 0 ∷ 3 ∷ 1 ∷ 0 ∷ 0 ∷ 22 ∷ 3 ∷ 1 ∷ 0 ∷ 56 ∷ 55 ∷ hello_body

abbrev host : Bytes
host = 104 ∷ []

abbrev hello : ClientHello
hello = record { random = replicate 32 0; session_id = []; cipher_suite = 0x1301 }

hello_is_second :
    read_client_hello_multi first_byte 0 0 ((1 ∷ []) ∷ (2 ∷ []) ∷ []) (host ∷ []) hello_input
    ≡ ok (matched hello 1 host)
unfolding read_client_hello_multi parse_client_hello parse_type read_bytes read_some next_fragments
    parse_next_fragment parse_next_header copy_fragment is_empty read_suites parse_handshake
    sni_names parse_sni_data find_sni parse_sni contains match_host xor_bytes digest_input age
    confirms try_secrets verdict try_host be16 be16_value le32_value
hello_is_second = refl

read_client_hello_multi-IsVerdict_example :
    (raw : RawHello) × (hello' : ClientHello) × (rest : Bytes) × (names : List Bytes)
    × (parse_client_hello hello_input ≡ ok raw)
    × (parse_handshake raw.handshake ≡ ok (hello', rest))
    × (parse_sni rest ≡ ok names)
    × IsVerdict first_byte 0 0
        ((1 ∷ []) ∷ (2 ∷ []) ∷ [])
        (host ∷ [])
        raw
        hello'
        names
        (matched hello 1 host)
read_client_hello_multi-IsVerdict_example =
    read_client_hello_multi-IsVerdict first_byte 0 0 ((1 ∷ []) ∷ (2 ∷ []) ∷ []) (host ∷ [])
      hello_input hello_is_second

abbrev length_of_key : Bytes → Bytes → Bytes
length_of_key k b = replicate 32 (length k)

abbrev two_bytes : Bytes
two_bytes = 1 ∷ 2 ∷ []

send_server_hello-verifies_example :
    digest_in (send_server_hello length_of_key (replicate 32 6) two_bytes hello (replicate 40 7))
    ≡ length_of_key two_bytes (
        hello.random
        ++ nullified
            (send_server_hello length_of_key (replicate 32 6) two_bytes hello (replicate 40 7)))
send_server_hello-verifies_example =
    send_server_hello-verifies length_of_key (replicate 32 6) two_bytes (replicate 40 7) hello
      (λ k b. refl)
