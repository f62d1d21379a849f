-- ===== src/Tls/Ends.antt =====
-- mtglib/internal/tls/conn.go: the loop of Conn.Read ends.
use mtg_multi.Prelude.{
  ℕ, zero, suc, ◌+◌, ◌≤◌, ◌<◌, ◌≡◌, ◌≢◌, ◌⊎◌, inl, inr, refl, ap, Bool, true, false, Option, none,
  some, [], ◌∷◌, ◌++◌, length, length-drop, ltb, Bool-cases, bytes_eq, arith,
}
use mtg_multi.Prelude.Bytes.{Bytes, be16_value}
use mtg_multi.Tls.{
  tls_version, RecordError, copy_payload, read_header, read_record, Conn, ReadResult, bytes, failed,
  stuck, read_buffered, kept, read_loop, read,
}

copy_payload-shorter : (t : ℕ) (s : Bytes) (n : ℕ) → length (copy_payload t s n).input ≤ length s
unfolding copy_payload
copy_payload-shorter t s n = elim (Bool-cases (ltb (length s) n)) [
  | inl e ↦ rw e (omega arith)
  | inr e ↦ rw e (omega (arith, length-drop n s))
]

abbrev is_inl : ℕ ⊎ RecordError → Bool
is_inl (inl t) = true
is_inl (inr e) = false

-- A record that was read is gone from the input.
read_record-shorter :
    (x : Bytes) (t : ℕ) → (read_record x).result ≡ inl t → length (read_record x).input < length x
unfolding read_record read_header
read_record-shorter [] t p = let q : false ≡ true = ap is_inl p in cc
read_record-shorter (a ∷ []) t p = omega arith
read_record-shorter (a ∷ b ∷ []) t p = omega arith
read_record-shorter (a ∷ b ∷ c ∷ []) t p = omega arith
read_record-shorter (a ∷ b ∷ c ∷ d ∷ []) t p = omega arith
read_record-shorter (a ∷ b ∷ c ∷ d ∷ e ∷ s) t p =
    elim (Bool-cases (bytes_eq tls_version (b ∷ c ∷ []))) [
      | inl v ↦ rw v (omega (arith, copy_payload-shorter a s (be16_value (d ∷ e ∷ []))))
      | inr v ↦ rw v (omega arith)
    ]

abbrev is_stuck : ReadResult → Bool
is_stuck stuck = true
is_stuck (bytes b) = false
is_stuck (failed e) = false

bytes-ne-stuck : (b : Bytes) → bytes b ≢ stuck
bytes-ne-stuck b p = let q : false ≡ true = ap is_stuck p in cc

failed-ne-stuck : (e : RecordError) → failed e ≢ stuck
failed-ne-stuck e p = let q : false ≡ true = ap is_stuck p in cc

-- One round of the loop, which goes on with `next` after a record.
abbrev round :
    Option (Bytes × Bytes)
    → ℕ ⊎ RecordError
    → Conn
    → Conn
    → (ℕ → Conn × ReadResult)
    → Conn × ReadResult
round o r c d next = elim o [
  | some (out, rest) ↦ (record c { read_buf = rest }, bytes out)
  | none ↦ elim r [ inr e ↦ (d, failed e) | inl t ↦ next t ]
]

round-ne-stuck :
    (o : Option (Bytes × Bytes)) (r : ℕ ⊎ RecordError) (c d : Conn) (next : ℕ → Conn × ReadResult)
    → ((t : ℕ) → r ≡ inl t → (next t).1 ≢ stuck)
    → (round o r c d next).1 ≢ stuck
round-ne-stuck (some (out, rest)) r c d next h = bytes-ne-stuck out
round-ne-stuck none (inr e) c d next h = failed-ne-stuck e
round-ne-stuck none (inl t) c d next h = h t refl

read_loop-ne-stuck :
    (fuel : ℕ) (c : Conn) (n : ℕ) → length c.input < fuel → (read_loop fuel c n).1 ≢ stuck
unfolding read_loop
read_loop-ne-stuck zero c n l = let y : ⊥ = omega arith in elim y [ ]
read_loop-ne-stuck (suc fuel) c n l =
    let r = read_record c.input in
    let buffered = record c { input = r.input; read_buf = c.read_buf ++ r.copied } in
    round-ne-stuck (read_buffered n c.read_buf) r.result c buffered
      (λ t. read_loop fuel (record buffered { read_buf = kept t buffered.read_buf }) n)
      (λ t p.
        read_loop-ne-stuck fuel (record buffered { read_buf = kept t buffered.read_buf }) n
          (omega (arith, read_record-shorter c.input t p)))

-- Read with records on ends on every connection within its fuel, the length of the input and one:
-- with bytes or an error.
pub record_read-ne-stuck : (c : Conn) (n : ℕ) → (read c n).1 ≢ stuck
unfolding read
record_read-ne-stuck c n = read_loop-ne-stuck (length c.input + 1) c n (omega arith)
