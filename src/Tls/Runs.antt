-- ===== src/Tls/Runs.antt =====
-- mtglib/internal/tls: two concrete records.
use mtg_multi.Prelude.{◌≡◌, refl, false, List, [], ◌∷◌, arith}
use mtg_multi.Prelude.Bytes.{Bytes}
use mtg_multi.Tls.{Conn, bytes}
use mtg_multi.Tls.Records.{write_all, read_all, read_all-write_all}

abbrev idle : Conn
idle = record { input = []; output = []; broken = false; read_buf = [] }

abbrev hello : List Bytes
hello = (1 ∷ 2 ∷ 3 ∷ []) ∷ (4 ∷ []) ∷ []

abbrev arrived : Conn
arrived = record {
  input = (write_all idle hello).output;
  output = [];
  broken = false;
  read_buf = [];
}

read_all-write_all_example :
    (read_all arrived 16379 2).1 ≡ bytes (1 ∷ 2 ∷ 3 ∷ []) ∷ bytes (4 ∷ []) ∷ []
read_all-write_all_example =
    read_all-write_all hello idle arrived 16378 refl refl refl refl
      ((omega arith, omega arith), ((omega arith, omega arith), tt)) (omega arith)
