-- ===== src/Obfuscation/Runs.antt =====
-- mtglib/obfuscation on a concrete frame.
use mtg_multi.Prelude.{ℕ, ◌%◌, ◌≡◌, refl, List, [], ◌∷◌, ◌++◌, replicate, arith}
use mtg_multi.Prelude.Bytes.{Bytes, IsByte}
use mtg_multi.Obfuscation.{Cipher, Conn, write, read}
use mtg_multi.Obfuscation.RoundTrip.{read-write}

abbrev same_bytes : Bytes → Bytes
same_bytes b = b

abbrev counting : Bytes → Bytes → ℕ → ℕ
counting k v n = n % 256

counting-IsByte : (k v : Bytes) (n : ℕ) → IsByte (counting k v n)
counting-IsByte k v n = omega arith

abbrev random : Bytes
random = replicate 64 7

-- The first draw would be taken for HTTP.
abbrev draws : List Bytes
draws = (0xef ∷ replicate 63 1) ∷ random ∷ []

abbrev cipher_at : ℕ → Cipher
cipher_at n = record { block_key = []; iv = []; position = n }

abbrev sender : Conn
sender = record { input = []; recv_cipher = cipher_at 0; send_cipher = cipher_at 64 }

abbrev receiver : Conn
receiver = record {
  input = (write same_bytes counting sender (1 ∷ 2 ∷ 3 ∷ [])).1 ++ (8 ∷ []);
  recv_cipher = cipher_at 64;
  send_cipher = cipher_at 0;
}

read-write_example :
    ((read same_bytes counting receiver 3).1 ≡ 1 ∷ 2 ∷ 3 ∷ [])
    × ((read same_bytes counting receiver 3).0.recv_cipher
        ≡ (write same_bytes counting sender (1 ∷ 2 ∷ 3 ∷ [])).0.send_cipher)
    × ((read same_bytes counting receiver 3).0.input ≡ 8 ∷ [])
read-write_example =
    read-write same_bytes counting sender receiver (1 ∷ 2 ∷ 3 ∷ []) (8 ∷ []) counting-IsByte
      (omega arith) refl refl
