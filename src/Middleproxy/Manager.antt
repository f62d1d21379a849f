-- ===== src/Middleproxy/Manager.antt =====
-- mtglib/internal/middleproxy/manager.go: the secret and the address lists of Telegram's middle
-- proxies, their refresh, the order of addresses, and the dial of a stream. What the HTTP client and
-- the network answer is an argument.
pub mod Config
pub mod Refresh
pub mod Offers
pub mod Dials
pub mod Outcome
mod Runs
use mtg_multi.Prelude.{
  ℕ, zero, suc, ◌<◌, Bool, true, false, not, ◌&&◌, ◌||◌, Option, none, some, List, [], ◌∷◌, ◌++◌,
  map, length, ltb, leb, if◌then◌else◌, bytes_eq, Fallible, err, ok, ◌>>=◌, or_err,
}
use mtg_multi.Prelude.Bytes.{Bytes, text}
use mtg_multi.Prelude.Ints.{ℤ, pos, neg}
use mtg_multi.Prelude.Strings.{str_contains}
use mtg_multi.Middleproxy.Frame.{Wire, FrameConn}
use mtg_multi.Middleproxy.Stream.{TcpAddr, MiddleConn}
use mtg_multi.Middleproxy.Handshake.{SocketAddr}
use mtg_multi.Middleproxy.Exchange.{Outside, ExchangeError, do_handshake}
use mtg_multi.Middleproxy.Manager.Config.{Table, addrs_of, parse_middle_config}

-- `refreshing` is that refreshOnce has started the hourly loop.
pub record Manager : Type 0 where
  pub prefer_ip : Bytes
  pub ready : Bool
  pub secret : Bytes
  pub middle_v4 : Table
  pub middle_v6 : Table
  pub refreshing : Bool

pub new_manager : Bytes → Manager
new_manager prefer_ip = record {
  prefer_ip = prefer_ip;
  ready = false;
  secret = [];
  middle_v4 = [];
  middle_v6 = [];
  refreshing = false;
}

-- What httpClient.Do gives: an error, or a status code and a body, which may be cut off.
pub data HttpAnswer : Type 0 where
  unreachable : HttpAnswer
  answered : ℕ → Option Bytes → HttpAnswer

pub data FetchError : Type 0 where
  no_answer bad_status cut_off too_long : FetchError

pub fetch_bytes : HttpAnswer → Fallible FetchError Bytes
fetch_bytes unreachable = err no_answer
fetch_bytes (answered status body) = if leb 400 status then err bad_status else or_err cut_off body

pub fetch_config : HttpAnswer → Fallible FetchError Table
fetch_config answer = fetch_bytes answer >>= λ b. or_err too_long (parse_middle_config b)

-- The answers to the three requests of one fetch.
pub record Site : Type 0 where
  pub proxy_secret : HttpAnswer
  pub config_v4 : HttpAnswer
  pub config_v6 : HttpAnswer

-- An IPv6 configuration that cannot be had is an empty one.
abbrev pub or_no_table : Fallible FetchError Table → Table
or_no_table (err e) = []
or_no_table (ok table) = table

abbrev pub is_some_table : Table → Bool
is_some_table [] = false
is_some_table (_ ∷ _) = true

pub stored : Manager → Bytes → Table → Table → Manager
stored m secret v4 v6 = record m {
  ready = ltb 0 (length secret) && (is_some_table v4 || is_some_table v6);
  secret = secret;
  middle_v4 = v4;
  middle_v6 = v6;
}

pub fetch : Site → Manager → Fallible FetchError Manager
fetch site m = fetch_bytes site.proxy_secret >>= λ secret. fetch_config site.config_v4 >>= λ v4.
    ok (stored m secret v4 (or_no_table (fetch_config site.config_v6)))

abbrev pub start_refresh : Manager → Manager
start_refresh m = record m { refreshing = true }

-- ensureReady once Ready has said no, which other streams may have changed since. startRefresh
-- follows the fetch at once.
unfoldable pub fetch_and_refresh : Site → Manager → Fallible FetchError Manager
fetch_and_refresh site m = fetch site m >>= λ m'. ok (start_refresh m')

-- ensureReady of a stream that no other one overtakes.
pub ensure_ready : Site → Manager → Fallible FetchError Manager
unfolding fetch_and_refresh
ensure_ready site m = if m.ready then ok m else fetch_and_refresh site m

-- One tick of the refresh loop; a failed fetch is only logged.
abbrev pub or_kept : Manager → Fallible FetchError Manager → Manager
or_kept m (err e) = m
or_kept m (ok m') = m'

pub tick : Site → Manager → Manager
tick site m = if m.refreshing then or_kept m (fetch site m) else m

pub data Network : Type 0 where
  tcp4 tcp6 : Network

pub record MiddleAddress : Type 0 where
  pub network : Network
  pub addr : Bytes

abbrev pub addresses_on : Network → List Bytes → List MiddleAddress
addresses_on network = map (λ b. record { network = network; addr = b })

-- appendFamily: the entries of both signs.
pub family : Table → Network → ℤ → List MiddleAddress
family table network dc =
    addresses_on network (addrs_of table dc) ++ addresses_on network (addrs_of table (neg dc))

pub ordered_addresses : Manager → ℤ → List MiddleAddress
ordered_addresses m dc =
    let v6_first = str_contains m.prefer_ip (text "ipv6") in
    let only_v4 = bytes_eq m.prefer_ip (text "only-ipv4") in
    let only_v6 = bytes_eq m.prefer_ip (text "only-ipv6") in
    let v4 = if only_v6 then [] else family m.middle_v4 tcp4 dc in
    let v6 = if only_v4 then [] else family m.middle_v6 tcp6 dc in
    if v6_first then v6 ++ v4 else v4 ++ v6

-- A net.IP that is not nil.
pub record Ip : Type 0 where
  pub to4 : Option Bytes
  pub to16 : Bytes

pub record DialParams : Type 0 where
  pub dc : ℤ
  pub client_addr : Option TcpAddr
  pub public_ipv4 : Option Ip
  pub public_ipv6 : Option Ip
  pub advertised_port : ℕ
  pub ad_tag : Bytes

-- A connection that was dialled: its ends where they are TCP addresses, and its bytes.
pub record Peer : Type 0 where
  pub local : Option SocketAddr
  pub remote : Option SocketAddr
  pub wire : Wire

pub to_tcp_addr : Option SocketAddr → SocketAddr
to_tcp_addr none = record { to4 = none; to16 = []; port = 0 }
to_tcp_addr (some a) = a

-- The advertised address of the family of the socket.
pub public_ip : DialParams → Option Bytes → Option Ip
public_ip params none = params.public_ipv6
public_ip params (some _) = params.public_ipv4

abbrev pub key_local : Option Ip → SocketAddr → SocketAddr
key_local none local = local
key_local (some ip) local = record { to4 = ip.to4; to16 = ip.to16; port = local.port }

abbrev pub rpc_ip : Option Ip → SocketAddr → Bytes
rpc_ip none local = local.to16
rpc_ip (some ip) local = ip.to16

pub data DialError : Type 0 where
  not_fetched : FetchError → DialError
  no_secret no_address none_connects : DialError

-- A connected stream, with the address of the middle proxy.
pub record Connected : Type 0 where
  pub conn : MiddleConn
  pub remote : SocketAddr

pub new_middle_conn : Bytes → DialParams → SocketAddr → FrameConn → MiddleConn
new_middle_conn conn_id params local frame = record {
  frame = frame;
  conn_id = conn_id;
  ad_tag = params.ad_tag;
  client_addr = params.client_addr;
  our_addr =
      some (record {
        to16 = rpc_ip (public_ip params local.to4) local;
        port = params.advertised_port;
      });
  inbuf = [];
  outbuf = [];
}

-- The handshake with a peer.
pub shake : Outside → Bytes → DialParams → Peer → Fallible ExchangeError FrameConn
shake o secret params peer =
    let local = to_tcp_addr peer.local in
    do_handshake o peer.wire secret (key_local (public_ip params local.to4) local)
      (to_tcp_addr peer.remote)

module _ (o : Outside) (dial : MiddleAddress → Option Peer) (conn_id : Bytes) where
  -- The rest of the loop's body, for the outcome of the handshake and of the dial; `next` is what
  -- the rounds after this one give.
  pub on_shaken :
      DialParams
      → MiddleAddress
      → Peer
      → List MiddleAddress × Fallible DialError Connected
      → Fallible ExchangeError FrameConn
      → List MiddleAddress × Fallible DialError Connected
  on_shaken params a peer next (err e) = (a ∷ next.0, next.1)
  on_shaken params a peer next (ok frame) = (
    [],
    ok (record {
      conn = new_middle_conn conn_id params (to_tcp_addr peer.local) frame;
      remote = to_tcp_addr peer.remote;
    }),
  )

  pub on_peer :
      Bytes
      → DialParams
      → MiddleAddress
      → List MiddleAddress × Fallible DialError Connected
      → Option Peer
      → List MiddleAddress × Fallible DialError Connected
  on_peer secret params a next none = next
  on_peer secret params a next (some peer) =
      on_shaken params a peer next (shake o secret params peer)

  -- The loop over the addresses: the connections that it closed, and how it ended.
  pub dial_addresses :
      Bytes → DialParams → List MiddleAddress → List MiddleAddress × Fallible DialError Connected
  dial_addresses secret params [] = ([], err none_connects)
  dial_addresses secret params (a ∷ rest) =
      on_peer secret params a (dial_addresses secret params rest) (dial a)

  pub with_addresses :
      Bytes → DialParams → List MiddleAddress → List MiddleAddress × Fallible DialError Connected
  with_addresses secret params [] = ([], err no_address)
  with_addresses secret params (a ∷ rest) = dial_addresses secret params (a ∷ rest)

  with_secret : Manager → DialParams → Bytes → List MiddleAddress × Fallible DialError Connected
  with_secret m params [] = ([], err no_secret)
  with_secret m params (x ∷ secret) =
      with_addresses (x ∷ secret) params (ordered_addresses m params.dc)

  on_ready :
      Manager
      → DialParams
      → Fallible FetchError Manager
      → Manager × List MiddleAddress × Fallible DialError Connected
  on_ready m params (err e) = (m, [], err (not_fetched e))
  on_ready m params (ok m') =
      let (closed, end) = with_secret m' params m'.secret in (m', closed, end)

  -- DialProxyStream
  pub dial_proxy_stream :
      Site → Manager → DialParams → Manager × List MiddleAddress × Fallible DialError Connected
  dial_proxy_stream site m params = on_ready m params (ensure_ready site m)
