-- ===== src/Tls/Records.antt =====
-- mtglib/internal/tls: what one end writes in records the other end reads.
use mtg_multi.Prelude.{
  ℕ, zero, suc, ◌+◌, ◌-◌, ◌/◌, ◌%◌, ◌≤◌, ◌<◌, ◌≡◌, inl, inr, refl, sym, ap, ap₂, ◌∙◌, Bool, false,
  some, List, [], ◌∷◌, ◌++◌, append_assoc, append-nil, map, length, drop, take-all, take-append,
  drop-append, length-append, ltb, Bool-cases, All, arith, ltb→lt,
}
use mtg_multi.Prelude.Bytes.{Bytes, be16, be16_value}
use mtg_multi.Tls.{
  RecordRead, max_record_payload_size, type_application_data, copy_payload, read_header,
  read_record, Conn, record_bytes, write_record, write, ReadResult, bytes, read_buffered, kept,
  read_loop, read,
}

-- Several payloads, each written by a Write; and several reads of at most `n` bytes.
abbrev pub write_all : Conn → List Bytes → Conn
write_all c [] = c
write_all c (p ∷ ps) = write_all (write c p).0 ps

abbrev pub read_all : Conn → ℕ → ℕ → Conn × List ReadResult
read_all c n zero = (c, [])
read_all c n (suc k) = let (d, r) = read c n in let (e, rs) = read_all d n k in (e, r ∷ rs)

-- A payload that fits one record and has at least a byte.
abbrev pub IsPayload : Bytes → Type 0
IsPayload p = (0 < length p) × (length p ≤ max_record_payload_size)

copy_payload-append :
    (x : ℕ) (p s : Bytes)
    → copy_payload x (p ++ s) (length p) ≡ record { input = s; copied = p; result = inl x }
unfolding copy_payload
copy_payload-append x p s = elim (Bool-cases (ltb (length (p ++ s)) (length p))) [
  | inl e ↦ let y : ⊥ = omega (arith, ltb→lt _ _ e, length-append p s) in elim y [ ]
  | inr e ↦ rw (e, take-append (length p) p s refl, drop-append (length p) p s refl) refl
]

size_word : (n : ℕ) → n < 65536 → be16_value ((n % 65536 / 256 % 256) ∷ (n % 65536 % 256) ∷ []) ≡ n
unfolding be16_value
size_word n h = omega arith

read_record-record_bytes :
    (p s : Bytes)
    → length p ≤ max_record_payload_size
    → read_record (record_bytes p ++ s)
      ≡ record { input = s; copied = p; result = inl type_application_data }
unfolding read_record read_header be16
read_record-record_bytes p s l =
    rw (size_word (length p) (omega arith)) (copy_payload-append type_application_data p s)

drop-all : (n : ℕ) (xs : Bytes) → length xs ≤ n → drop n xs ≡ []
drop-all zero [] l = refl
drop-all (suc n) [] l = refl
drop-all zero (x ∷ xs) l = let y : ⊥ = omega arith in elim y [ ]
drop-all (suc n) (x ∷ xs) l = drop-all n xs (omega arith)

buffered :
    (m : ℕ) (p : Bytes) → 0 < length p → length p ≤ suc m → read_buffered (suc m) p ≡ some (p, [])
unfolding read_buffered
buffered m [] z l = let y : ⊥ = omega arith in elim y [ ]
buffered m (x ∷ xs) z l =
    let t = take-all (suc m) (x ∷ xs) l in
    let d : drop m xs ≡ [] = drop-all m xs (omega arith) in rw (t, d) refl

abbrev reader : Bytes → Bytes → Bool → Conn
reader s o k = record { input = s; output = o; broken = k; read_buf = [] }

read_loop-fill :
    (fuel m : ℕ) (x p s o : Bytes) (k : Bool)
    → read_record x ≡ record { input = s; copied = p; result = inl type_application_data }
    → read_loop (suc fuel) (reader x o k) (suc m)
      ≡ read_loop fuel (record { input = s; output = o; broken = k; read_buf = p }) (suc m)
unfolding read_loop kept read_buffered
read_loop-fill fuel m x p s o k e =
    rw (e, read_loop)
      (ap
        (λ (r : RecordRead).
          read_loop fuel (record { input = r.input; output = o; broken = k; read_buf = r.copied })
            (suc m))
        e)

read_loop-hand_out :
    (fuel m : ℕ) (p s o : Bytes) (k : Bool)
    → 0 < length p
    → length p ≤ suc m
    → read_loop (suc fuel) (record { input = s; output = o; broken = k; read_buf = p }) (suc m)
      ≡ (reader s o k, bytes p)
unfolding read_loop
read_loop-hand_out fuel m p s o k z room = rw (buffered m p z room, read_loop) refl

-- A record that is read with room for its payload is handed out whole.
read_loop-record :
    (fuel m : ℕ) (x p s o : Bytes) (k : Bool)
    → read_record x ≡ record { input = s; copied = p; result = inl type_application_data }
    → 0 < length p
    → length p ≤ suc m
    → read_loop (suc (suc fuel)) (reader x o k) (suc m) ≡ (reader s o k, bytes p)
read_loop-record fuel m x p s o k e z room =
    read_loop-fill (suc fuel) m x p s o k e ∙ read_loop-hand_out fuel m p s o k z room

abbrev records : List Bytes → Bytes
records [] = []
records (p ∷ ps) = record_bytes p ++ records ps

read-record :
    (m : ℕ) (p s o : Bytes) (k : Bool)
    → IsPayload p
    → length p ≤ suc m
    → read (reader (record_bytes p ++ s) o k) (suc m) ≡ (reader s o k, bytes p)
unfolding read
read-record m p s o k (z, l) room =
    let x = record_bytes p ++ s in
    let q : length x + 1 ≡ suc (suc (length x - 1)) = omega arith in
    ap (λ (f : ℕ). read_loop f (reader x o k) (suc m)) q
    ∙ read_loop-record (length x - 1) m x p s o k (read_record-record_bytes p s l) z room

read_all-records :
    (ps : List Bytes) (m : ℕ) (s o : Bytes) (k : Bool)
    → All IsPayload ps
    → max_record_payload_size ≤ suc m
    → (read_all (reader (records ps) o k) (suc m) (length ps)).1 ≡ map bytes ps
read_all-records [] m s o k vs room = refl
read_all-records (p ∷ ps) m s o k (v, vs) room =
    rw (read-record m p (records ps) o k v (omega (arith, v.1)))
      (ap (◌∷◌ (bytes p)) (read_all-records ps m s o k vs room))

write-record_bytes :
    (w : Conn) (p : Bytes)
    → w.broken ≡ false
    → length p ≤ max_record_payload_size
    → (write w p).0 ≡ record w { output = w.output ++ record_bytes p }
unfolding write write_record
write-record_bytes w p b l = elim (Bool-cases (ltb max_record_payload_size (length p))) [
  | inl e ↦ let y : ⊥ = omega (arith, ltb→lt _ _ e) in elim y [ ]
  | inr e ↦ simp (e, b) refl
]

write_all-records :
    (ps : List Bytes) (w : Conn)
    → w.broken ≡ false
    → All IsPayload ps
    → (write_all w ps).output ≡ w.output ++ records ps
write_all-records [] w b vs = sym (append-nil w.output)
write_all-records (p ∷ ps) w b (v, vs) =
    rw (write-record_bytes w p b v.1, write_all)
      (write_all-records ps (record w { output = w.output ++ record_bytes p }) b vs
        ∙ append_assoc w.output (record_bytes p) (records ps))

-- The payloads that one end writes, each of 1 to 16379 bytes, over a connection that takes writes,
-- are what the other end reads, in order, when every Read has room for a whole payload.
pub read_all-write_all :
    (ps : List Bytes) (w c : Conn) (m : ℕ)
    → w.broken ≡ false
    → w.output ≡ []
    → c.read_buf ≡ []
    → c.input ≡ (write_all w ps).output
    → All IsPayload ps
    → max_record_payload_size ≤ suc m
    → (read_all c (suc m) (length ps)).1 ≡ map bytes ps
read_all-write_all ps w c m b e r i vs room =
    let from : c ≡ reader (records ps) c.output c.broken =
      ap₂ (λ (x y : Bytes). record c { input = x; read_buf = y })
        (i ∙ write_all-records ps w b vs ∙ rw e refl) r in
    rw from (read_all-records ps m [] c.output c.broken vs room)
