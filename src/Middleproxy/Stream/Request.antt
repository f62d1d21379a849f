-- ===== src/Middleproxy/Stream/Request.antt =====
-- middleConn.buildProxyReq, and one packet through middleConn.Write.
use mtg_multi.Prelude.{
  ℕ, zero, suc, ◌+◌, ◌-◌, ◌%◌, ◌≤◌, ◌<◌, ◌≡◌, refl, sym, ap, ◌∙◌, Bool, false, Option, none, some,
  [], ◌∷◌, ◌++◌, append-nil, append_assoc, length, drop, replicate, length-append, length-take,
  take-append, drop-append, arith,
}
use mtg_multi.Prelude.Bytes.{Bytes, le32, length-le32, le32_value-le32}
use mtg_multi.Middleproxy.Frame.{FrameConn, Result, ok, write_packet, packet_bytes, next_seq_no}
use mtg_multi.Middleproxy.Frame.RoundTrip.{IsMessage, write_packet-unbroken}
use mtg_multi.Middleproxy.Stream.{
  MiddleConn, TcpAddr, next_packet, write_loop, write_of, write, build_proxy_req, request_head,
  encode_ip_port, fill16, is_quick_ack, strip_padding,
}
use mtg_multi.Middleproxy.Stream.Write.{
  advance, next_packet_at, write_loop_send, write_loop_idle, next_packet_empty, le32_value-append,
}

length-encode_ip_port : (a : Option TcpAddr) → length (encode_ip_port a) ≡ 20
unfolding encode_ip_port
length-encode_ip_port none = refl
length-encode_ip_port (some a) = omega (
  arith,
  length-append (fill16 a.to16) (le32 (a.port % 4294967296)),
  length-take 16 (a.to16 ++ replicate 16 0),
  length-append a.to16 (replicate {A = ℕ} 16 0),
  length-le32 (a.port % 4294967296),
)

length-request_head :
    (m : MiddleConn) (packet : Bytes) (ack : Bool)
    → length (request_head m packet ack) ≡ 57 + length m.conn_id + length m.ad_tag
unfolding request_head
length-request_head m packet ack =
    simp (length-append, length-le32, length-encode_ip_port) (omega arith)

-- The connection id and the tag have their sizes.
pub record IsSized (m : MiddleConn) : Type 0 where
  pub conn_id_size : length m.conn_id ≡ 8
  pub ad_tag_size : length m.ad_tag ≡ 16

-- A request is a head of 84 bytes, whatever the addresses are, and then the packet, for a
-- connection identifier of 8 and a tag of 16 bytes.
pub build_proxy_req-packet :
    (m : MiddleConn) (packet : Bytes) (ack : Bool)
    → IsSized m
    → (length (build_proxy_req m packet ack) ≡ 84 + length packet)
      × (drop 84 (build_proxy_req m packet ack) ≡ packet)
unfolding build_proxy_req
build_proxy_req-packet m packet ack v =
    let h : length (request_head m packet ack) ≡ 81 =
      omega (arith, length-request_head m packet ack, v) in
    rw h (
      omega (arith, length-append (request_head m packet ack) (0 ∷ 0 ∷ 0 ∷ packet), h),
      ap (λ (x : Bytes). drop 84 x)
            (sym (append_assoc (request_head m packet ack) (0 ∷ 0 ∷ 0 ∷ []) packet))
          ∙ drop-append 84 (request_head m packet ack ++ 0 ∷ 0 ∷ 0 ∷ []) packet
              (omega (arith, length-append (request_head m packet ack) (0 ∷ 0 ∷ 0 ∷ []), h)),
    )

-- The request for a packet of whole words and at most 16777120 bytes is a message that the frame
-- layer accepts, for a connection identifier of 8 and a tag of 16 bytes.
pub build_proxy_req-IsMessage :
    (m : MiddleConn) (packet : Bytes) (ack : Bool)
    → IsSized m
    → length packet % 4 ≡ 0
    → length packet ≤ 16777120
    → IsMessage (build_proxy_req m packet ack)
build_proxy_req-IsMessage m packet ack v h b =
    let p = (build_proxy_req-packet m packet ack v).0 in (omega arith, omega arith)

strip_padding-pad :
    (payload pad : Bytes)
    → length payload % 4 ≡ 0
    → length pad < 4
    → strip_padding (payload ++ pad) ≡ payload
strip_padding-pad payload pad h k =
    let n : length (payload ++ pad) - length (payload ++ pad) % 4 ≡ length payload =
      omega (arith, length-append payload pad) in
    rw n (take-append (length payload) payload pad refl)

-- A padded-intermediate packet, as the client sends it.
abbrev pub client_packet : Bytes → Bytes → Bytes
client_packet payload pad = le32 (length payload + length pad) ++ (payload ++ pad)

next_packet-client_packet :
    (payload pad rest : Bytes)
    → length payload % 4 ≡ 0
    → length pad < 4
    → length payload + length pad < 0x80000000
    → next_packet (client_packet payload pad ++ rest) ≡ some (payload, false, rest)
next_packet-client_packet payload pad rest h k b =
    next_packet_at (client_packet payload pad ++ rest) n n
      (le32_value-append (client_packet payload pad) rest (omega (arith, size))
        ∙ le32_value-append (le32 n) (payload ++ pad) (omega (arith, length-le32 n))
        ∙ le32_value-le32 n (omega arith))
      (ground arith) (omega (arith, size, length-append (client_packet payload pad) rest))
      (omega (arith, size, length-append (client_packet payload pad) rest))
    ∙ rw (
      drop-append (4 + n) (client_packet payload pad) rest size,
      ap (drop 4) (append_assoc (le32 n) (payload ++ pad) rest),
      drop-append 4 (le32 n) ((payload ++ pad) ++ rest) (length-le32 n),
      take-append n (payload ++ pad) rest (length-append payload pad),
      strip_padding-pad payload pad h k,
      is_plain,
    )
  where
    n : ℕ
    n = length payload + length pad

    size : length (client_packet payload pad) ≡ 4 + n
    size =
        omega
          (arith, length-append (le32 n) (payload ++ pad), length-append payload pad, length-le32 n)

    is_plain : is_quick_ack n ≡ false
    is_plain = ground arith

write_loop_one :
    (f : ℕ) (m : MiddleConn) {p : Bytes} {k : Bool}
    → 0 < f
    → next_packet m.inbuf ≡ some (p, k, [])
    → (write_packet m.frame (build_proxy_req m p k)).1 ≡ ok tt
    → write_loop f m ≡ (advance m p k [], ok tt)
write_loop_one zero m h e s = absurd (omega arith)
write_loop_one (suc f) m {p} {k} h e s =
    write_loop_send f m {p = p} {r = []} {k = k} {u = tt} e s
    ∙ write_loop_idle f (advance m p k []) (next_packet_empty [] (omega arith))

-- A complete packet of the client with less than 4 padding bytes, a payload of whole words and a
-- length below 2^31, written to an idle stream over a connection that takes writes, goes out as
-- one frame around one request for its payload without the padding, and leaves nothing in the
-- buffer.
pub write_one_packet :
    (m : MiddleConn) (payload pad : Bytes)
    → m.inbuf ≡ []
    → m.frame.raw.broken ≡ false
    → length payload % 4 ≡ 0
    → length pad < 4
    → length payload + length pad < 0x80000000
    → let r = write m (client_packet payload pad) in
      (r.1 ≡ ok (length (client_packet payload pad)))
      × (r.0.inbuf ≡ [])
      × (r.0.frame.raw.output
          ≡ m.frame.raw.output
            ++ packet_bytes m.frame.write_seq_no (build_proxy_req m payload false))
unfolding write write_of build_proxy_req request_head
write_one_packet m payload pad e b h k bound =
    rw done (refl, refl, ap (λ (z : FrameConn × Result (Unit {0})). z.0.raw.output) sent)
  where
    sent : write_packet m.frame (build_proxy_req m payload false) ≡ (
      record m.frame {
        raw = record m.frame.raw {
          output =
              m.frame.raw.output
              ++ packet_bytes m.frame.write_seq_no (build_proxy_req m payload false);
        };
        write_seq_no = next_seq_no m.frame.write_seq_no;
      },
      ok tt,
    )
    sent = write_packet-unbroken m.frame (build_proxy_req m payload false) b

    buffered : m.inbuf ++ client_packet payload pad ≡ client_packet payload pad ++ []
    buffered =
        ap (λ (x : Bytes). x ++ client_packet payload pad) e
        ∙ sym (append-nil (client_packet payload pad))

    done :
        write_loop
          (length (m.inbuf ++ client_packet payload pad))
          (record m { inbuf = m.inbuf ++ client_packet payload pad })
        ≡ (advance m payload false [], ok tt)
    done =
        write_loop_one (length (m.inbuf ++ client_packet payload pad))
          (record m { inbuf = m.inbuf ++ client_packet payload pad })
          (omega (
            arith,
            ap length buffered,
            length-append (client_packet payload pad) [],
            length-append (le32 (length payload + length pad)) (payload ++ pad),
            length-le32 (length payload + length pad),
          ))
          (ap next_packet buffered ∙ next_packet-client_packet payload pad [] h k bound)
          (ap (λ (z : FrameConn × Result (Unit {0})). z.1) sent)
