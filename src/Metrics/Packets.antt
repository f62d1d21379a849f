-- ===== src/Metrics/Packets.antt =====
-- stats/statsd.go: the observer that sends every change to statsd. A packet is a call of the client,
-- with the series that its name and tags are.
use mtg_multi.Prelude.{
  ℕ, ◌≡◌, refl, Bool, true, Option, none, some, List, [], ◌∷◌, ◌++◌, if◌then◌else◌, bytes_key,
}
use mtg_multi.Prelude.Bytes.{Bytes}
use mtg_multi.Prelude.Map.{lookup, insert, erase}
use mtg_multi.Prelude.Ints.{ℤ, pos, negsuc, int_of}
use mtg_multi.Metrics.{
  Event, start, connected_to_dc, domain_fronting_of, traffic, finish, concurrency_limited_at,
  ip_listed, replay_attack, pending_limit, throttled, ip_list_size, Label, StreamInfo, Streams,
  Series, client_connections, telegram_connections, domain_fronting_connections, ip_list_size_of,
  telegram_traffic, domain_fronting_traffic, ip_blocklisted, pending_handshake_limit,
  domain_fronting, concurrency_limited, replay_attacks, Metrics, add_to, set_to, family_of,
  new_info,
}

pub data Packet : Type 0 where
  gauge_delta incr : Series → ℤ → Packet
  gauge : Series → ℕ → Packet

abbrev pub Sent : Type 0
Sent = Streams × List Packet

abbrev pub send_start : Bytes → Bool → Streams → Sent
send_start id to4 st =
    (insert id (new_info to4) st, gauge_delta (client_connections (family_of to4)) (pos 1) ∷ [])

unfoldable pub send_connected : Bytes → Label → Option StreamInfo → Streams → Sent
send_connected id l none st = (st, [])
send_connected id l (some info) st = (
  insert id (record info { telegram = some l }) st,
  gauge_delta (telegram_connections l) (pos 1) ∷ [],
)

unfoldable pub send_fronting : Bytes → Option StreamInfo → Streams → Sent
send_fronting id none st = (st, [])
send_fronting id (some info) st = (
  insert id (record info { is_domain_fronted = true }) st,
  incr domain_fronting (pos 1)
      ∷ gauge_delta (domain_fronting_connections info.ip_family) (pos 1)
      ∷ [],
)

unfoldable pub send_traffic : ℕ → Bool → Option StreamInfo → Streams → Sent
send_traffic n is_read none st = (st, [])
send_traffic n is_read (some info) st = (
  st,
  (if info.is_domain_fronted
        then incr (domain_fronting_traffic is_read) (int_of n)
        else incr (telegram_traffic info.telegram is_read) (int_of n))
      ∷ [],
)

abbrev pub send_disconnected : Option Label → List Packet
send_disconnected none = []
send_disconnected (some l) = gauge_delta (telegram_connections l) (negsuc 0) ∷ []

unfoldable pub send_finished : Bytes → Option StreamInfo → Streams → Sent
send_finished id none st = (st, [])
send_finished id (some info) st = (
  erase id st,
  gauge_delta (client_connections info.ip_family) (negsuc 0)
      ∷ (if info.is_domain_fronted
          then gauge_delta (domain_fronting_connections info.ip_family) (negsuc 0) ∷ []
          else send_disconnected info.telegram),
)

-- statsdProcessor
unfoldable pub emit : Event → Streams → Sent
unfolding send_connected send_fronting send_traffic send_finished
emit (start id to4) st = send_start id to4 st
emit (connected_to_dc id ip dc) st = send_connected id (ip, dc) (lookup id st) st
emit (domain_fronting_of id) st = send_fronting id (lookup id st) st
emit (traffic id n is_read) st = send_traffic n is_read (lookup id st) st
emit (finish id) st = send_finished id (lookup id st) st
emit concurrency_limited_at st = (st, incr concurrency_limited (pos 1) ∷ [])
emit (ip_listed is_block) st = (st, incr (ip_blocklisted is_block) (pos 1) ∷ [])
emit (replay_attack id) st = (st, incr replay_attacks (pos 1) ∷ [])
emit (pending_limit id action) st = (st, incr (pending_handshake_limit action) (pos 1) ∷ [])
emit (throttled id) st = (st, [])
emit (ip_list_size n is_block) st = (st, gauge (ip_list_size_of is_block) n ∷ [])

unfoldable pub send_all : List Event → Streams → Sent
unfolding emit
send_all [] st = (st, [])
send_all (e ∷ events) st =
    let (st', packets) = emit e st in
    let (st'', rest) = send_all events st' in (st'', packets ++ rest)

abbrev pub stream_ids : Streams → List Bytes
stream_ids [] = []
stream_ids ((id, info) ∷ st) = id ∷ stream_ids st

abbrev pub finishes : List Bytes → List Event
finishes [] = []
finishes (id ∷ ids) = finish id ∷ finishes ids

-- Shutdown: the streams that are open finish.
unfoldable pub send_shutdown : Streams → Sent
unfolding send_all
send_shutdown st = send_all (finishes (stream_ids st)) st

-- What statsd makes of the packets.
abbrev pub receive : Packet → Metrics → Metrics
receive (gauge_delta s n) m = add_to s n m
receive (incr s n) m = add_to s n m
receive (gauge s n) m = set_to s (pos n) m

unfoldable pub receive_all : List Packet → Metrics → Metrics
receive_all [] m = m
receive_all (p ∷ packets) m = receive_all packets (receive p m)

pub receive_all-append :
    (xs ys : List Packet) (m : Metrics)
    → receive_all (xs ++ ys) m ≡ receive_all ys (receive_all xs m)
unfolding receive_all
receive_all-append [] ys m = refl
receive_all-append (x ∷ xs) ys m = receive_all-append xs ys (receive x m)
