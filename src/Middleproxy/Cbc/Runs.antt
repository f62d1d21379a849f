-- ===== src/Middleproxy/Cbc/Runs.antt =====
-- cbcConn on concrete bytes; the cipher turns a block upside down.
use mtg_multi.Prelude.{◌≡◌, refl, false, some, [], ◌++◌, replicate, arith}
use mtg_multi.Prelude.Bytes.{Bytes}
use mtg_multi.Middleproxy.Cbc.{
  xor_block, blocks, encrypt, decrypt, CbcConn, new_cbc_conn, read, fill_buf, written, write,
}
use mtg_multi.Middleproxy.Cbc.Plain.{plain_input, Inverse, IsRead, plain_input-write, read-IsRead}

abbrev same : Bytes → Bytes
same b = b

same-Inverse : Inverse same same
same-Inverse = record { undone = λ b h. refl; block = λ b h. h }

abbrev idle : Bytes → CbcConn
idle input =
    new_cbc_conn (record { input = input; output = []; broken = false }) (replicate 16 1)
      (replicate 16 1)

two_blocks :
    (write same (idle []) (replicate 16 3 ++ replicate 16 5)).0.raw.output
    ≡ replicate 16 2 ++ replicate 16 7
unfolding write encrypt blocks xor_block new_cbc_conn
two_blocks = refl

read_back : (read same (idle (replicate 16 2 ++ replicate 16 7)) 4).1 ≡ some (replicate 4 3)
unfolding read fill_buf decrypt xor_block new_cbc_conn
read_back = refl

plain_input-write_example :
    (sent : Bytes) × ((write same (idle []) (replicate 32 3)).1 ≡ written 32)
    × ((write same (idle []) (replicate 32 3)).0.raw.output ≡ [] ++ sent)
    × (plain_input same (record (idle []) { raw = record (idle []).raw { input = sent ++ [] } })
        ≡ replicate 32 3
          ++ plain_input same (record (idle []) {
            raw = record (idle []).raw { input = [] };
            dec = (write same (idle []) (replicate 32 3)).0.enc;
          }))
unfolding new_cbc_conn
plain_input-write_example =
    plain_input-write same same same-Inverse (idle []) (idle []) (replicate 32 3) [] refl
      (omega arith) (omega arith) (refl, omega arith) refl refl

read-IsRead_example : IsRead same (idle (replicate 32 2)) 5 (read same (idle (replicate 32 2)) 5)
read-IsRead_example = read-IsRead same (idle (replicate 32 2)) 5
