-- ===== src/Middleproxy/Frame.antt =====
-- mtglib/internal/middleproxy/frame.go: the RPC transport frame, frameConn.
-- The io.ReadWriter under it is a `Wire`: the bytes that will still arrive, the bytes written so
-- far, and whether writes fail. Sequence numbers are int32 bit patterns.
pub mod RoundTrip
pub mod Accept
mod Runs
use mtg_multi.Prelude.{
  ℕ, zero, suc, ◌+◌, ◌-◌, ◌/◌, ◌%◌, ◌≡◌, refl, ◌⊎◌, inl, inr, Bool, true, false, not, ◌||◌, Option,
  none, some, List, [], ◌∷◌, ◌++◌, length, take, drop, ltb, ◌==◌, if◌then◌else◌, bytes_eq,
}
use mtg_multi.Prelude.Bytes.{Bytes, le32, le32_value, read_full}
use mtg_multi.Middleproxy.Crc.{crc32}

pub data Error : Type 0 where
  cannot_read_length cannot_read_body unexpected_seq_no crc_mismatch write_failed : Error
  incorrect_length : ℕ → Error

pub data Result {ℓ} (A : Type ℓ) : Type ℓ where
  ok : A → Result A
  err : Error → Result A

pub Result-cases {ℓ} :
    {A : Type ℓ} (r : Result A) → ((a : A) × (r ≡ ok a)) ⊎ ((e : Error) × (r ≡ err e))
Result-cases (ok a) = inl (a, refl)
Result-cases (err e) = inr (e, refl)

pub record Wire : Type 0 where
  pub input : Bytes
  pub output : Bytes
  pub broken : Bool

pub record FrameConn : Type 0 where
  pub raw : Wire
  pub read_seq_no : ℕ
  pub write_seq_no : ℕ

abbrev pub frame_padding : Bytes
frame_padding = 0x04 ∷ 0x00 ∷ 0x00 ∷ 0x00 ∷ []

abbrev pub frame_min_message_length : ℕ
frame_min_message_length = 12

abbrev pub frame_max_message_length : ℕ
frame_max_message_length = 16777216

abbrev pub next_seq_no : ℕ → ℕ
next_seq_no n = (n + 1) % 4294967296

-- bytes.Repeat(framePadding, n)
abbrev pub paddings : ℕ → Bytes
paddings zero = []
paddings (suc n) = frame_padding ++ paddings n

abbrev pub message_length : Bytes → ℕ
message_length msg = 4 + 4 + length msg + 4

abbrev pub padding_length : Bytes → ℕ
padding_length msg = (16 - message_length msg % 16) % 16

-- MSGLEN, SEQNO and MSG: what the checksum covers.
abbrev pub packet_head : ℕ → Bytes → Bytes
packet_head seq msg = le32 (message_length msg) ++ (le32 seq ++ msg)

-- The buffer that writePacket hands to Write.
abbrev pub packet_bytes : ℕ → Bytes → Bytes
packet_bytes seq msg =
    packet_head seq msg ++ (le32 (crc32 (packet_head seq msg)) ++ paddings (padding_length msg / 4))

pub write_raw : Wire → Bytes → Wire × Result (Unit {0})
write_raw w b =
    if w.broken then (w, err write_failed) else (record w { output = w.output ++ b }, ok tt)

pub new_frame_conn : Wire → ℕ → FrameConn
new_frame_conn raw seq = record { raw = raw; read_seq_no = seq; write_seq_no = seq }

pub write_packet : FrameConn → Bytes → FrameConn × Result (Unit {0})
write_packet f msg =
    let (w, r) = write_raw f.raw (packet_bytes f.write_seq_no msg) in
    (record f { raw = w; write_seq_no = next_seq_no f.write_seq_no }, r)

-- The `for` of readPacket: four bytes at a time until they are not a padding word.
pub skip_padding : Bytes → Option (Bytes × Bytes)
skip_padding (a ∷ b ∷ c ∷ d ∷ s) =
    let more = skip_padding s in
    if bytes_eq (a ∷ b ∷ c ∷ d ∷ []) frame_padding then more else some (a ∷ b ∷ c ∷ d ∷ [], s)
skip_padding _ = none

abbrev pub consumed : FrameConn → Bytes → FrameConn
consumed f s = record f { raw = record f.raw { input = s } }

-- The sequence number and the checksum of a whole frame.
pub check_body : FrameConn → Bytes → Bytes → Bytes → FrameConn × Result Bytes
check_body f len_buf rest s =
    let g = consumed f s in
    let covered = take (length rest - 4) rest in
    if not (le32_value (take 4 rest) == f.read_seq_no)
    then (g, err unexpected_seq_no)
    else if not (crc32 (len_buf ++ covered) == le32_value (drop (length rest - 4) rest))
    then (g, err crc_mismatch)
    else (record g { read_seq_no = next_seq_no f.read_seq_no }, ok (drop 4 covered))

abbrev pub bad_length : ℕ → Bool
bad_length n =
    not (n % 4 == 0) || (ltb n frame_min_message_length || ltb frame_max_message_length n)

pub read_body : FrameConn → Bytes → Bytes → FrameConn × Result Bytes
read_body f len_buf s =
    if bad_length (le32_value len_buf)
    then (consumed f s, err (incorrect_length (le32_value len_buf)))
    else elim (read_full (le32_value len_buf - 4) s) [
      | none ↦ (consumed f [], err cannot_read_body)
      | some (rest, s') ↦ check_body f len_buf rest s'
    ]

-- A read that meets the end of the stream has taken what was there.
pub read_packet : FrameConn → FrameConn × Result Bytes
read_packet f = elim (skip_padding f.raw.input) [
  | none ↦ (consumed f [], err cannot_read_length)
  | some (len_buf, s) ↦ read_body f len_buf s
]

-- Several packets in a row, up to the first error.
pub write_packets : FrameConn → List Bytes → FrameConn
write_packets f [] = f
write_packets f (m ∷ ms) = write_packets (write_packet f m).0 ms

pub read_packets : FrameConn → ℕ → FrameConn × List (Result Bytes)
read_packets f zero = (f, [])
read_packets f (suc n) = let (g, r) = read_packet f in let (h, rs) = read_packets g n in (h, r ∷ rs)
