-- ===== src/Middleproxy/Frame/Runs.antt =====
-- mtglib/internal/middleproxy/frame.go: the frame on concrete messages.
use mtg_multi.Prelude.{ℕ, ◌-◌, ◌≡◌, refl, false, List, [], ◌∷◌, ◌++◌, length, arith}
use mtg_multi.Prelude.Bytes.{Bytes, le32_value}
use mtg_multi.Middleproxy.Frame.{
  Wire, FrameConn, cannot_read_length, ok, err, new_frame_conn, next_seq_no, paddings, packet_bytes,
  bad_length, write_packets, read_packet, read_packets, skip_padding,
}
use mtg_multi.Middleproxy.Frame.RoundTrip.{read_packet-packet_bytes, read_packets-write_packets}
use mtg_multi.Middleproxy.Frame.Accept.{Accepted, read_packet_sound}

abbrev idle_wire : Wire
idle_wire = record { input = []; output = []; broken = false }

abbrev nonce_msg : Bytes
nonce_msg = 7 ∷ 8 ∷ 9 ∷ 10 ∷ []

abbrev two_msgs : List Bytes
two_msgs = nonce_msg ∷ [] ∷ []

abbrev sent_wire : Wire
sent_wire = record {
  input = (write_packets (new_frame_conn idle_wire 5) two_msgs).raw.output;
  output = [];
  broken = false;
}

read_packets-write_packets_example :
    (read_packets (new_frame_conn sent_wire 5) 2).1 ≡ ok (7 ∷ 8 ∷ 9 ∷ 10 ∷ []) ∷ ok [] ∷ []
read_packets-write_packets_example =
    read_packets-write_packets two_msgs idle_wire sent_wire 5 (omega arith) refl refl
      ((refl, omega arith), ((refl, omega arith), tt)) refl

abbrev ready : FrameConn
ready = record {
  raw = record { input = packet_bytes 5 nonce_msg ++ []; output = []; broken = false };
  read_seq_no = 5;
  write_seq_no = 5;
}

abbrev taken : FrameConn
taken = record {
  raw = record { input = paddings 0 ++ []; output = []; broken = false };
  read_seq_no = 6;
  write_seq_no = 5;
}

read_packet-ready : read_packet ready ≡ (taken, ok nonce_msg)
read_packet-ready =
    read_packet-packet_bytes ready 0 nonce_msg [] refl (omega arith) (refl, omega arith)

read_packet_sound_example :
    (k : ℕ) × (len_buf : Bytes) × (rest : Bytes) × (t : Bytes) × (ready.raw.input
      ≡ paddings k ++ (len_buf ++ (rest ++ t)))
    × (length rest ≡ le32_value len_buf - 4)
    × (bad_length (le32_value len_buf) ≡ false)
    × Accepted ready len_buf rest nonce_msg
    × (taken ≡ record ready { raw = record ready.raw { input = t }; read_seq_no = next_seq_no 5 })
read_packet_sound_example = read_packet_sound ready read_packet-ready

abbrev cut_off : FrameConn
cut_off = new_frame_conn (record { input = 4 ∷ 0 ∷ 0 ∷ 0 ∷ 16 ∷ []; output = []; broken = false }) 5

cut_off-refused : (read_packet cut_off).1 ≡ err cannot_read_length
unfolding read_packet skip_padding new_frame_conn
cut_off-refused = refl
