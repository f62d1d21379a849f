-- ===== src/Tls.antt =====
-- mtglib/internal/tls/utils.go and conn.go: TLS records around an established connection. A reader
-- is the bytes that will still arrive, a writer the bytes written so far and whether writes fail.
use mtg_multi.Prelude.{
  ℕ, zero, suc, ◌+◌, ◌-◌, ◌%◌, Bool, true, false, not, ◌⊎◌, inl, inr, Option, none, some, List, [],
  ◌∷◌, ◌++◌, length, take, drop, ltb, ◌==◌, if◌then◌else◌, bytes_eq,
}
use mtg_multi.Prelude.Bytes.{Bytes, be16, be16_value, read_full}
pub mod Records
pub mod Ends
mod Runs

abbrev pub size_header : ℕ
size_header = 5

abbrev pub max_record_payload_size : ℕ
max_record_payload_size = 16384 - size_header

abbrev pub type_application_data : ℕ
type_application_data = 0x17

abbrev pub tls_version : Bytes
tls_version = 3 ∷ 3 ∷ []

pub data RecordError : Type 0 where
  cut_header incorrect_version cut_payload payload_exceeds write_failed : RecordError

-- What ReadRecord leaves of the reader, what it added to the writer, and the record type.
pub record RecordRead : Type 0 where
  pub input : Bytes
  pub copied : Bytes
  pub result : ℕ ⊎ RecordError

-- io.CopyN: a shorter stream is copied and is an error.
pub copy_payload : ℕ → Bytes → ℕ → RecordRead
copy_payload record_type s n =
    if ltb (length s) n
    then record { input = []; copied = s; result = inr cut_payload }
    else record { input = drop n s; copied = take n s; result = inl record_type }

pub read_header : Bytes → RecordRead
read_header (record_type ∷ major ∷ minor ∷ high ∷ low ∷ s) =
    if bytes_eq tls_version (major ∷ minor ∷ [])
    then copy_payload record_type s (be16_value (high ∷ low ∷ []))
    else record { input = s; copied = []; result = inr incorrect_version }
read_header _ = record { input = []; copied = []; result = inr cut_header }

pub read_record : Bytes → RecordRead
read_record s = read_header s

pub record Conn : Type 0 where
  pub input : Bytes
  pub output : Bytes
  pub broken : Bool
  pub read_buf : Bytes

-- The bytes of a record.
abbrev pub record_bytes : Bytes → Bytes
record_bytes payload = type_application_data ∷ 3 ∷ 3 ∷ (be16 (length payload % 65536) ++ payload)

-- WriteRecord and WriteRecordInPlace.
pub write_record : Conn → Bytes → Conn × Option RecordError
write_record c payload =
    if ltb max_record_payload_size (length payload)
    then (c, some payload_exceeds)
    else if c.broken
    then (c, some write_failed)
    else (record c { output = c.output ++ record_bytes payload }, none)

-- Conn.Write with records on: it reports all of `p` written whatever the record's fate.
pub write : Conn → Bytes → Conn × ℕ × Option RecordError
write c p = let (c', e) = write_record c p in (c', length p, e)

-- Read returns bytes or an error; `stuck` is no Go value: the loop ran out of fuel.
pub data ReadResult : Type 0 where
  bytes : Bytes → ReadResult
  failed : RecordError → ReadResult
  stuck : ReadResult

-- bytes.Buffer.Read: an empty buffer is the end of it, unless nothing was asked for.
pub read_buffered : ℕ → Bytes → Option (Bytes × Bytes)
read_buffered zero [] = some ([], [])
read_buffered (suc n) [] = none
read_buffered n (x ∷ xs) = some (take n (x ∷ xs), drop n (x ∷ xs))

-- The buffer after a record: only application data stays.
pub kept : ℕ → Bytes → Bytes
kept record_type b = if record_type == type_application_data then b else []

-- The loop of Conn.Read with records on. Each round takes a record's header, so the length of the
-- input and one rounds suffice.
pub read_loop : ℕ → Conn → ℕ → Conn × ReadResult
read_loop zero c n = (c, stuck)
read_loop (suc fuel) c n =
    let r = read_record c.input in
    let buffered = record c { input = r.input; read_buf = c.read_buf ++ r.copied } in
    elim (read_buffered n c.read_buf) [
      | some (out, rest) ↦ (record c { read_buf = rest }, bytes out)
      | none ↦ elim r.result [
        | inr e ↦ (buffered, failed e)
        | inl record_type ↦
            read_loop fuel (record buffered { read_buf = kept record_type buffered.read_buf }) n
      ]
    ]

pub read : Conn → ℕ → Conn × ReadResult
read c n = read_loop (length c.input + 1) c n
