-- ===== src/Middleproxy/Stream.antt =====
-- mtglib/internal/middleproxy/stream.go: middleConn, the byte stream over the RPC channel.
pub mod Write
pub mod Request
pub mod Read
mod Runs
use Prim.Native.Nat.{bit_or}
use mtg_multi.Prelude.{
  ℕ, zero, suc, ◌+◌, ◌-◌, ◌%◌, ◌≤◌, ◌<◌, Bool, true, false, not, ◌&&◌, ◌||◌, Option, none, some,
  List, [], ◌∷◌, ◌++◌, length, take, drop, replicate, ltb, leb, ◌==◌, if◌then◌else◌, bytes_eq, min,
}
use mtg_multi.Prelude.Bytes.{Bytes, le32, le32_value}
use mtg_multi.Middleproxy.Tags.{
  tag_proxy_request, tag_proxy_ans, tag_simple_ack, tag_close_ext, proxy_request_extra_size,
  proxy_request_proxy_tag, flag_has_ad_tag, flag_encrypted, flag_magic, flag_ext_mode2,
  flag_intermediate, flag_quick_ack, flag_pad,
}
use mtg_multi.Middleproxy.Frame.{FrameConn, Result, ok, err, Error, write_packet, read_packet}

abbrev pub quick_ack_length : ℕ
quick_ack_length = 0x80000000

pub data ProxyResponseType : Type 0 where
  resp_ans resp_simple_ack resp_close_ext : ProxyResponseType

-- A *net.TCPAddr: the 16 bytes of IP.To16() and the port.
pub record TcpAddr : Type 0 where
  pub to16 : Bytes
  pub port : ℕ

pub record MiddleConn : Type 0 where
  pub frame : FrameConn
  pub conn_id : Bytes
  pub ad_tag : Bytes
  pub client_addr : Option TcpAddr
  pub our_addr : Option TcpAddr
  pub inbuf : Bytes
  pub outbuf : Bytes

-- copy(out[:16], ip) into a zeroed slice: at most 16 bytes, the rest stays 0.
abbrev pub fill16 : Bytes → Bytes
fill16 b = take 16 (b ++ replicate 16 0)

pub encode_ip_port : Option TcpAddr → Bytes
encode_ip_port none = replicate 20 0
encode_ip_port (some a) = fill16 a.to16 ++ le32 (a.port % 4294967296)

pub is_all_zero : Bytes → Bool
is_all_zero [] = true
is_all_zero (v ∷ b) = (v == 0) && is_all_zero b

pub request_flags : Bytes → Bool → ℕ
unfolding is_all_zero
request_flags packet quick_ack =
    let flags =
      bit_or (bit_or (bit_or (bit_or flag_has_ad_tag flag_magic) flag_ext_mode2) flag_intermediate)
        flag_pad in
    let flags' = if quick_ack then bit_or flags flag_quick_ack else flags in
    if leb 8 (length packet) && is_all_zero (take 8 packet)
    then bit_or flags' flag_encrypted
    else flags'

pub request_head : MiddleConn → Bytes → Bool → Bytes
request_head m packet quick_ack =
    tag_proxy_request
    ++ (le32 (request_flags packet quick_ack)
        ++ (m.conn_id
            ++ (encode_ip_port m.client_addr
                ++ (encode_ip_port m.our_addr
                    ++ (proxy_request_extra_size
                        ++ (proxy_request_proxy_tag ++ ((length m.ad_tag % 256) ∷ m.ad_tag)))))))

pub build_proxy_req : MiddleConn → Bytes → Bool → Bytes
build_proxy_req m packet quick_ack =
    let head = request_head m packet quick_ack in
    head ++ (replicate ((4 - length head % 4) % 4) 0 ++ packet)

-- What a padded-intermediate length word announces.
abbrev pub is_quick_ack : ℕ → Bool
is_quick_ack length_word = leb quick_ack_length length_word

abbrev pub packet_length : ℕ → ℕ
packet_length length_word =
    if is_quick_ack length_word then length_word - quick_ack_length else length_word

-- The secure padding of 0 to 3 bytes is cut off.
abbrev pub strip_padding : Bytes → Bytes
strip_padding packet = take (length packet - length packet % 4) packet

-- The first complete packet of the buffer, stripped, with its quick-ack bit and what follows it.
pub next_packet : Bytes → Option (Bytes × Bool × Bytes)
next_packet inbuf =
    let word = le32_value inbuf in
    let n = packet_length word in
    if ltb (length inbuf) 4
    then none
    else if ltb (length inbuf) (n + 4)
    then none
    else some (strip_padding (take n (drop 4 inbuf)), is_quick_ack word, drop (4 + n) inbuf)

-- The loop of Write. Each round takes at least the length word, so `length inbuf` rounds suffice;
-- an error leaves the packet in the buffer.
pub write_loop : ℕ → MiddleConn → MiddleConn × Result (Unit {0})
write_loop zero m = (m, ok tt)
write_loop (suc fuel) m = elim (next_packet m.inbuf) [
  | none ↦ (m, ok tt)
  | some (packet, quick_ack, rest) ↦
      let sent = write_packet m.frame (build_proxy_req m packet quick_ack) in
      elim sent.1 [
        | ok _ ↦ write_loop fuel (record m { frame = sent.0; inbuf = rest })
        | err e ↦ (record m { frame = sent.0 }, err e)
      ]
]

-- What Write returns for the state and the verdict of its loop.
pub write_of : ℕ → MiddleConn × Result (Unit {0}) → MiddleConn × Result ℕ
write_of n (m, ok _) = (m, ok n)
write_of n (m, err e) = (m, err e)

pub write : MiddleConn → Bytes → MiddleConn × Result ℕ
write m p =
    let m' = record m { inbuf = m.inbuf ++ p } in
    write_of (length p) (write_loop (length m'.inbuf) m')

pub data ResponseError : Type 0 where
  unexpected_eof : ResponseError

pub data Parsed : Type 0 where
  response : ProxyResponseType → Bytes → Parsed
  bad_response : ResponseError → Parsed

pub parse_proxy_response : Bytes → Parsed
parse_proxy_response packet =
    let tag = take 4 packet in
    if ltb (length packet) 4
    then bad_response unexpected_eof
    else if bytes_eq tag tag_proxy_ans
    then (if ltb (length packet) 16
        then bad_response unexpected_eof
        else response resp_ans (drop 16 packet))
    else if bytes_eq tag tag_simple_ack
    then (if ltb (length packet) 12
        then bad_response unexpected_eof
        else response resp_simple_ack (drop 12 packet))
    else if bytes_eq tag tag_close_ext
    then response resp_close_ext []
    else bad_response unexpected_eof

-- `uint32(len(payload))`
pub frame_intermediate : Bytes → Bytes
frame_intermediate payload = le32 (length payload % 4294967296) ++ payload

-- Read returns the bytes, the frame's error, io.ErrUnexpectedEOF or io.EOF. `stuck` is no Go value:
-- the loop ran out of fuel.
pub data ReadResult : Type 0 where
  bytes : Bytes → ReadResult
  frame_error : Error → ReadResult
  response_error : ResponseError → ReadResult
  eof : ReadResult
  stuck : ReadResult

-- What one response adds to outbuf, if the loop goes on.
pub data Reply : Type 0 where
  append : Bytes → Reply
  stop : ReadResult → Reply

pub reply : Parsed → Reply
reply (bad_response e) = stop (response_error e)
reply (response resp_ans payload) = append (frame_intermediate payload)
reply (response resp_simple_ack payload) = append payload
reply (response resp_close_ext payload) = stop eof

pub copy_out : MiddleConn → ℕ → MiddleConn × ReadResult
copy_out m n = (record m { outbuf = drop n m.outbuf }, bytes (take n m.outbuf))

-- The loop of Read, while outbuf is empty; `n` is `len(dst)`. Each round takes at least one frame
-- from the input. (`append` meets an empty outbuf.)
pub read_loop : ℕ → MiddleConn → ℕ → MiddleConn × ReadResult
read_loop zero m n = (m, stuck)
read_loop (suc fuel) m n =
    let got = read_packet m.frame in
    let m' = record m { frame = got.0 } in
    elim m.outbuf [
      | x ∷ xs ↦ copy_out m n
      | [] ↦ elim got.1 [
        | err e ↦ (m', frame_error e)
        | ok msg ↦ elim (reply (parse_proxy_response msg)) [
          | stop r ↦ (m', r)
          | append b ↦ read_loop fuel (record m' { outbuf = b }) n
        ]
      ]
    ]

pub read : MiddleConn → ℕ → MiddleConn × ReadResult
read m n = read_loop (length m.frame.raw.input + 1) m n
