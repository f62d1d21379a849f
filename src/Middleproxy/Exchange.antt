-- ===== src/Middleproxy/Exchange.antt =====
-- mtglib/internal/middleproxy/handshake.go and cipher.go: doHandshake over a raw connection, and
-- deriveCiphers. The encrypted channel is the stream of plain bytes that cbcConn reads and writes.
use mtg_multi.Prelude.{ℕ, Option, none, some, [], Fallible, err, ok, ◌>>=◌}
use mtg_multi.Prelude.Bytes.{Bytes}
use mtg_multi.Middleproxy.Tags.{seq_no_nonce, seq_no_handshake}
use mtg_multi.Middleproxy.Frame
use mtg_multi.Middleproxy.Frame.{Wire, FrameConn, new_frame_conn, write_packet, read_packet}
use mtg_multi.Middleproxy.Cbc.{new_cbc_conn}
use mtg_multi.Middleproxy.Cbc.Plain.{plain_input}
use mtg_multi.Middleproxy.Handshake.{
  NonceRequest, new_nonce_request, nonce_request_bytes, HandshakeError, Checked, accepted, rejected,
  parse_nonce_response, handshake_request_bytes, validate_handshake_response, SocketAddr,
  purpose_client, purpose_server, derive_key,
}

pub data ExchangeError : Type 0 where
  frame_failed : Frame.Error → ExchangeError
  refused : HandshakeError → ExchangeError

abbrev pub on_frame : {A : Type 0} → Frame.Result A → Fallible ExchangeError A
on_frame (Frame.Result.ok a) = ok a
on_frame (Frame.Result.err e) = err (frame_failed e)

abbrev pub on_checked : Checked → Fallible ExchangeError Bytes
on_checked (accepted nonce) = ok nonce
on_checked (rejected e) = err (refused e)

abbrev pub on_validated : FrameConn → Option HandshakeError → Fallible ExchangeError FrameConn
on_validated frame none = ok frame
on_validated frame (some e) = err (refused e)

-- The ciphers of the two directions: key and initialisation vector of each.
pub record Ciphers : Type 0 where
  pub enc : Bytes × Bytes
  pub dec : Bytes × Bytes

-- What the handshake takes from outside: the hashes, the decryption with a key, the random nonce and
-- the clock.
pub record Outside : Type 0 where
  pub md5 : Bytes → Bytes
  pub sha1 : Bytes → Bytes
  pub aes_decrypt : Bytes → Bytes → Bytes
  pub random : Bytes
  pub unix : ℕ

module _ (o : Outside) where
  pub derive_ciphers : NonceRequest → Bytes → SocketAddr → SocketAddr → Bytes → Ciphers
  derive_ciphers req resp_nonce local remote secret = record {
    enc = derive_key o.md5 o.sha1 purpose_client req resp_nonce local remote secret;
    dec = derive_key o.md5 o.sha1 purpose_server req resp_nonce local remote secret;
  }

  -- The plain bytes that the channel over a connection carries.
  pub channel : Wire → Ciphers → Wire
  channel raw c = record {
    input = plain_input (o.aes_decrypt c.dec.0) (new_cbc_conn raw c.enc.1 c.dec.1);
    output = [];
    broken = raw.broken;
  }

  -- The second half: the handshake proper, over the encrypted channel.
  pub confirm : FrameConn → Fallible ExchangeError FrameConn
  confirm frame =
      let sent = write_packet frame handshake_request_bytes in
      on_frame sent.1 >>= λ _.
      let got = read_packet sent.0 in
      on_frame got.1 >>= λ b. on_validated got.0 (validate_handshake_response b)

  pub do_handshake : Wire → Bytes → SocketAddr → SocketAddr → Fallible ExchangeError FrameConn
  do_handshake conn secret local remote =
      let req = new_nonce_request secret o.random o.unix in
      let sent = write_packet (new_frame_conn conn seq_no_nonce) (nonce_request_bytes req) in
      on_frame sent.1 >>= λ _.
      let got = read_packet sent.0 in
      on_frame got.1 >>= λ b. on_checked (parse_nonce_response b req) >>= λ resp_nonce.
      let ciphers = derive_ciphers req resp_nonce local remote secret in
      confirm (new_frame_conn (channel got.0.raw ciphers) seq_no_handshake)
