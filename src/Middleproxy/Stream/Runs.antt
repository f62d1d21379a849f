-- ===== src/Middleproxy/Stream/Runs.antt =====
-- mtglib/internal/middleproxy/stream.go: the stream on concrete packets.
use mtg_multi.Prelude.{ℕ, ◌≡◌, ◌≢◌, refl, false, some, none, [], ◌∷◌, ◌++◌, replicate, arith}
use mtg_multi.Prelude.Bytes.{Bytes, le32}
use mtg_multi.Middleproxy.Frame.{FrameConn, ok, packet_bytes, paddings, read_packet}
use mtg_multi.Middleproxy.Frame.RoundTrip.{read_packet-packet_bytes}
use mtg_multi.Middleproxy.Stream.{
  MiddleConn, build_proxy_req, next_packet, write_loop, write_of, write, read, stuck,
}
use mtg_multi.Middleproxy.Stream.Write.{failure, write-append}
use mtg_multi.Middleproxy.Stream.Request.{IsSized, client_packet, write_one_packet}
use mtg_multi.Middleproxy.Stream.Read.{read-ne-stuck, proxy_ans, simple_ack}

abbrev frame_with : Bytes → ℕ → FrameConn
frame_with input' seq = record {
  raw = record { input = input'; output = []; broken = false };
  read_seq_no = seq;
  write_seq_no = 1;
}

abbrev stream_with : Bytes → ℕ → MiddleConn
stream_with input' seq = record {
  frame = frame_with input' seq;
  conn_id = replicate 8 3;
  ad_tag = replicate 16 9;
  client_addr = some record { to16 = replicate 16 1; port = 443 };
  our_addr = none;
  inbuf = [];
  outbuf = [];
}

abbrev idle : MiddleConn
idle = stream_with [] 2

abbrev half_word : Bytes
half_word = 4 ∷ 0 ∷ []

abbrev other_half : Bytes
other_half = 0 ∷ 0 ∷ 1 ∷ 2 ∷ 3 ∷ 4 ∷ []

write-half_word : write idle half_word ≡ (record idle { inbuf = half_word }, ok 2)
unfolding write write_of write_loop next_packet
write-half_word = refl

write-append_example :
    ((write idle (half_word ++ other_half)).0
      ≡ (write (record idle { inbuf = half_word }) other_half).0)
    × (failure (write idle (half_word ++ other_half)).1
        ≡ failure (write (record idle { inbuf = half_word }) other_half).1)
write-append_example = write-append idle half_word other_half write-half_word

idle-IsSized : IsSized idle
idle-IsSized = record { conn_id_size = refl; ad_tag_size = refl }

abbrev ping : Bytes
ping = 1 ∷ 2 ∷ 3 ∷ 4 ∷ []

write_one_packet_example :
    ((write idle (client_packet ping (5 ∷ []))).1 ≡ ok 9)
    × ((write idle (client_packet ping (5 ∷ []))).0.inbuf ≡ [])
    × ((write idle (client_packet ping (5 ∷ []))).0.frame.raw.output
        ≡ packet_bytes 1 (build_proxy_req idle ping false))
unfolding le32
write_one_packet_example =
    write_one_packet idle ping (5 ∷ []) refl refl refl (omega arith) (omega arith)

read-ne-stuck_example : (read idle 3).1 ≢ stuck
read-ne-stuck_example = read-ne-stuck idle 3

abbrev answer : Bytes
answer = proxy_ans (replicate 12 6) ping

abbrev answered : MiddleConn
answered = stream_with (packet_bytes 2 answer ++ []) 2

abbrev after : Bytes → FrameConn
after b = frame_with b 3

read_packet-answered : read_packet answered.frame ≡ (after (paddings 0 ++ []), ok answer)
read_packet-answered =
    read_packet-packet_bytes answered.frame 0 answer [] refl (omega arith) (refl, omega arith)

abbrev ack : Bytes
ack = simple_ack (replicate 8 6) ping

abbrev acked : MiddleConn
acked = stream_with (packet_bytes 2 ack ++ []) 2

read_packet-acked : read_packet acked.frame ≡ (after (paddings 1 ++ []), ok ack)
read_packet-acked =
    read_packet-packet_bytes acked.frame 0 ack [] refl (omega arith) (refl, omega arith)
