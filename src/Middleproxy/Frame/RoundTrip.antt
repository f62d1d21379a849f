-- ===== src/Middleproxy/Frame/RoundTrip.antt =====
-- What frameConn.readPacket makes of the bytes that writePacket wrote.
use mtg_multi.Prelude.{
  ℕ, zero, suc, ◌+◌, ◌-◌, ◌*◌, ◌/◌, ◌%◌, ◌≤◌, ◌<◌, ◌≡◌, ◌≢◌, refl, sym, ap, ◌∙◌, false, some, List,
  [], ◌∷◌, ◌++◌, map, append_assoc, append-nil, length, take, drop, All, length-append, take-append,
  drop-append, ==_iff, arith,
}
use mtg_multi.Prelude.Bytes.{
  Bytes, le32, le32_value, le32_value-le32, length-le32, read_full-append,
}
use mtg_multi.Middleproxy.Crc.{crc32, crc32-lt}
use mtg_multi.Middleproxy.Frame.{
  ok, Wire, FrameConn, next_seq_no, paddings, message_length, padding_length, packet_head,
  packet_bytes, write_packet, new_frame_conn, skip_padding, check_body, read_body, read_packet,
  write_packets, read_packets, write_raw, bad_length, frame_max_message_length,
}

-- What readPacket accepts: the length is a multiple of 4 and within the bound.
abbrev pub IsMessage : Bytes → Type 0
IsMessage msg = (length msg % 4 ≡ 0) × (message_length msg ≤ frame_max_message_length)

pub skip_padding-paddings : (k : ℕ) (s : Bytes) → skip_padding (paddings k ++ s) ≡ skip_padding s
unfolding skip_padding
skip_padding-paddings zero s = refl
skip_padding-paddings (suc k) s = skip_padding-paddings k s

pub skip_padding-le32 :
    (n : ℕ) (s : Bytes) → n ≢ 4 → n < 4294967296 → skip_padding (le32 n ++ s) ≡ some (le32 n, s)
unfolding skip_padding le32
skip_padding-le32 n s h b = ground arith

bad_length-IsMessage : (msg : Bytes) → IsMessage msg → bad_length (message_length msg) ≡ false
bad_length-IsMessage msg h = ground arith

abbrev pub covered : Bytes → Bytes
covered rest = take (length rest - 4) rest

-- When both tests pass.
check_body_pass :
    (f : FrameConn) (len_buf rest s : Bytes)
    → le32_value (take 4 rest) ≡ f.read_seq_no
    → crc32 (len_buf ++ covered rest) ≡ le32_value (drop (length rest - 4) rest)
    → check_body f len_buf rest s ≡ (
      record f { raw = record f.raw { input = s }; read_seq_no = next_seq_no f.read_seq_no },
      ok (drop 4 (covered rest)),
    )
unfolding check_body
check_body_pass f len_buf rest s p q =
    let a = (==_iff _ _).1 p in let b = (==_iff _ _).1 q in rw (a, b)

abbrev body_of : Bytes → Bytes → Bytes → Bytes
body_of head msg crc = (head ++ msg) ++ crc

module _ (head msg crc : Bytes) (h4 : length head ≡ 4) (c4 : length crc ≡ 4) where
  length-body : length (body_of head msg crc) - 4 ≡ length (head ++ msg)
  length-body = omega (arith, length-append (head ++ msg) crc)

  covered-body : covered (body_of head msg crc) ≡ head ++ msg
  covered-body = rw length-body (take-append _ (head ++ msg) crc refl)

  last-body : drop (length (body_of head msg crc) - 4) (body_of head msg crc) ≡ crc
  last-body = rw length-body (drop-append _ (head ++ msg) crc refl)

  first-body : take 4 (body_of head msg crc) ≡ head
  first-body = rw (append_assoc head msg crc) (take-append 4 head (msg ++ crc) h4)

  message-body : drop 4 (covered (body_of head msg crc)) ≡ msg
  message-body = rw covered-body (drop-append 4 head msg h4)

-- The frame after its length word, up to the padding.
abbrev body : ℕ → Bytes → Bytes
body seq msg = body_of (le32 seq) msg (le32 (crc32 (packet_head seq msg)))

check_body-body :
    (f : FrameConn) (msg s : Bytes)
    → f.read_seq_no < 4294967296
    → check_body f (le32 (message_length msg)) (body f.read_seq_no msg) s ≡ (
      record f { raw = record f.raw { input = s }; read_seq_no = next_seq_no f.read_seq_no },
      ok msg,
    )
check_body-body f msg s h =
    let c = crc32 (packet_head f.read_seq_no msg) in
    let q = le32 f.read_seq_no in
    let lq = length-le32 f.read_seq_no in
    let lc = length-le32 c in
    check_body_pass f (le32 (message_length msg)) (body f.read_seq_no msg) s
      (ap le32_value (first-body q msg (le32 c) lq lc) ∙ le32_value-le32 _ h)
      (ap (λ x. crc32 (le32 (message_length msg) ++ x)) (covered-body q msg (le32 c) lq lc)
        ∙ sym (ap le32_value (last-body q msg (le32 c) lq lc) ∙ le32_value-le32 _ (crc32-lt _)))
    ∙ ap
        (λ x. (
          record f { raw = record f.raw { input = s }; read_seq_no = next_seq_no f.read_seq_no },
          ok x,
        ))
        (message-body q msg (le32 c) lq lc)

length-body_word : (seq : ℕ) (msg : Bytes) → length (body seq msg) ≡ message_length msg - 4
length-body_word seq msg = omega (
  arith,
  length-append (le32 seq ++ msg) (le32 (crc32 (packet_head seq msg))),
  length-append (le32 seq) msg,
  length-le32 seq,
  length-le32 (crc32 (packet_head seq msg)),
)

pub read_body-body :
    (f : FrameConn) (msg s : Bytes)
    → f.read_seq_no < 4294967296
    → IsMessage msg
    → read_body f (le32 (message_length msg)) (body f.read_seq_no msg ++ s) ≡ (
      record f { raw = record f.raw { input = s }; read_seq_no = next_seq_no f.read_seq_no },
      ok msg,
    )
unfolding read_body
read_body-body f msg s h m =
    rw
      (
        le32_value-le32 (message_length msg) (omega (arith, m)),
        bad_length-IsMessage msg m,
        read_full-append _ (body f.read_seq_no msg) s (length-body_word f.read_seq_no msg),
      )
      (check_body-body f msg s h)

packet_bytes-split :
    (seq : ℕ) (msg s : Bytes)
    → packet_bytes seq msg ++ s
      ≡ le32 (message_length msg) ++ (body seq msg ++ (paddings (padding_length msg / 4) ++ s))
packet_bytes-split seq msg s = simp append_assoc

-- A frame behind any number of padding words is read back, and its own padding stays.
pub read_packet-packet_bytes :
    (f : FrameConn) (k : ℕ) (msg s : Bytes)
    → f.raw.input ≡ paddings k ++ (packet_bytes f.read_seq_no msg ++ s)
    → f.read_seq_no < 4294967296
    → IsMessage msg
    → read_packet f ≡ (
      record f {
        raw = record f.raw { input = paddings (padding_length msg / 4) ++ s };
        read_seq_no = next_seq_no f.read_seq_no;
      },
      ok msg,
    )
unfolding read_packet
read_packet-packet_bytes f k msg s e h m = rw (found, read_packet) (read_body-body f msg _ h m)
  where
    found :
        skip_padding f.raw.input
        ≡ some (
          le32 (message_length msg),
          body f.read_seq_no msg ++ (paddings (padding_length msg / 4) ++ s),
        )
    found =
        ap skip_padding e
        ∙ skip_padding-paddings k (packet_bytes f.read_seq_no msg ++ s)
        ∙ ap skip_padding (packet_bytes-split f.read_seq_no msg s)
        ∙ skip_padding-le32 (message_length msg) _ (omega arith) (omega (arith, m))

pub write_packet-unbroken :
    (f : FrameConn) (msg : Bytes)
    → f.raw.broken ≡ false
    → write_packet f msg ≡ (
      record f {
        raw = record f.raw { output = f.raw.output ++ packet_bytes f.write_seq_no msg };
        write_seq_no = next_seq_no f.write_seq_no;
      },
      ok tt,
    )
unfolding write_packet write_raw
write_packet-unbroken f msg b = simp b

-- What write_packets sends for a list of messages.
stream : ℕ → List Bytes → Bytes
stream seq [] = []
stream seq (m ∷ ms) = packet_bytes seq m ++ stream (next_seq_no seq) ms

write_packets-stream :
    (ms : List Bytes) (f : FrameConn)
    → f.raw.broken ≡ false
    → (write_packets f ms).raw.output ≡ f.raw.output ++ stream f.write_seq_no ms
unfolding write_packets stream write_packet write_raw
write_packets-stream [] f b = sym (append-nil f.raw.output)
write_packets-stream (m ∷ ms) f b =
    write_packets-stream ms (write_packet f m).0 (still b)
    ∙ rw (one f m b) (append_assoc f.raw.output (packet_bytes f.write_seq_no m) _)
  where
    still : f.raw.broken ≡ false → (write_packet f m).0.raw.broken ≡ false
    still h = ground arith

    one :
        (f : FrameConn) (m : Bytes)
        → f.raw.broken ≡ false
        → (write_packet f m).0.raw.output ≡ f.raw.output ++ packet_bytes f.write_seq_no m
    one f m h = rw h

read_packets-stream :
    (ms : List Bytes) (k : ℕ) (f : FrameConn)
    → f.read_seq_no < 4294967296
    → f.raw.input ≡ paddings k ++ stream f.read_seq_no ms
    → All IsMessage ms
    → (read_packets f (length ms)).1 ≡ map ok ms
unfolding read_packets stream
read_packets-stream [] k f h e ok_all = refl
read_packets-stream (m ∷ ms) k f h e (hm, hms) =
    rw (read_packet-packet_bytes f k m (stream (next_seq_no f.read_seq_no) ms) e h hm)
      (ap (◌∷◌ (ok m)) (read_packets-stream ms (padding_length m / 4) _ (omega arith) refl hms))

-- The messages that one end writes with writePacket are the messages that the other end reads with
-- readPacket, in order: for equal starting sequence numbers (wrapping at 2^32), a connection that
-- takes writes, and messages whose lengths are multiples of 4 and within the bound.
pub read_packets-write_packets :
    (ms : List Bytes) (w r : Wire) (seq : ℕ)
    → seq < 4294967296
    → w.broken ≡ false
    → w.output ≡ []
    → All IsMessage ms
    → r.input ≡ (write_packets (new_frame_conn w seq) ms).raw.output
    → (read_packets (new_frame_conn r seq) (length ms)).1 ≡ map ok ms
unfolding new_frame_conn
read_packets-write_packets ms w r seq h b o good e =
    read_packets-stream ms 0 (new_frame_conn r seq) h
      (e ∙ write_packets-stream ms (new_frame_conn w seq) b ∙ ap (λ x. x ++ stream seq ms) o) good

length-paddings : (k : ℕ) → length (paddings k) ≡ 4 * k
length-paddings zero = refl
length-paddings (suc k) = omega (arith, length-paddings k)

length-packet_bytes :
    (seq : ℕ) (msg : Bytes)
    → length (packet_bytes seq msg) ≡ message_length msg + 4 * (padding_length msg / 4)
length-packet_bytes seq msg = omega (
  arith,
  ap length (packet_bytes-split seq msg []),
  ap length (append-nil (packet_bytes seq msg)),
  length-append (le32 (message_length msg))
      (body seq msg ++ (paddings (padding_length msg / 4) ++ [])),
  length-append (body seq msg) (paddings (padding_length msg / 4) ++ []),
  length-append (paddings (padding_length msg / 4)) [],
  length-paddings (padding_length msg / 4),
  length-body_word seq msg,
  length-le32 (message_length msg),
)

-- A message of whole words is framed into whole cipher blocks of 16 bytes, with at most 12 bytes
-- of padding.
pub packet_bytes-aligned :
    (seq : ℕ) (msg : Bytes)
    → length msg % 4 ≡ 0
    → (length (packet_bytes seq msg) % 16 ≡ 0)
      × (message_length msg ≤ length (packet_bytes seq msg))
      × (length (packet_bytes seq msg) ≤ message_length msg + 12)
packet_bytes-aligned seq msg h =
    rw (length-packet_bytes seq msg) (omega arith, omega arith, omega arith)
