-- ===== src/Metrics.antt =====
-- stats/prometheus.go, stats/statsd.go, stats/stream_info.go and events/event_stream.go: how the
-- events of streams become metrics. A series of Prometheus is a metric with its labels; its value is
-- an integer. The clients of Prometheus and statsd are libraries: WithLabelValues picks the series,
-- Inc, Dec, Add and Set change it.
pub mod Counts
pub mod Gauges
pub mod Changes
pub mod Open
pub mod Packets
pub mod Agreement
pub mod Shutdown
pub mod Routing
mod Runs
use mtg_multi.Prelude.{
  ℕ, ◌+◌, ◌%◌, Bool, true, false, not, ◌&&◌, ◌||◌, Option, none, some, List, [], ◌∷◌, ◌++◌, ◌==◌,
  if◌then◌else◌, bytes_eq, bytes_key,
}
use mtg_multi.Prelude.Bytes.{Bytes}
use mtg_multi.Prelude.Map.{Map, lookup, insert, erase}
use mtg_multi.Prelude.Ints.{ℤ, pos, negsuc, int_beq, ◌+ℤ◌}

pub data Family : Type 0 where
  ipv4 ipv6 : Family

-- The events of mtglib/events.go, with what an observer reads of them; `to4` tells whether
-- RemoteIP.To4() is not nil.
pub data Event : Type 0 where
  start : Bytes → Bool → Event
  connected_to_dc : Bytes → Bytes → ℤ → Event
  domain_fronting_of : Bytes → Event
  traffic : Bytes → ℕ → Bool → Event
  finish : Bytes → Event
  concurrency_limited_at : Event
  ip_listed : Bool → Event
  replay_attack : Bytes → Event
  pending_limit : Bytes → Bytes → Event
  throttled : Bytes → Event
  ip_list_size : ℕ → Bool → Event

-- The tags telegram_ip and dc, which are set together.
abbrev pub Label : Type 0
Label = Bytes × ℤ

pub record StreamInfo : Type 0 where
  pub is_domain_fronted : Bool
  pub ip_family : Family
  pub telegram : Option Label

abbrev pub Streams : Type 0
Streams = Map Bytes StreamInfo

-- The series. A missing tag is an empty label value, which is none.
pub data Series : Type 0 where
  client_connections : Family → Series
  telegram_connections : Label → Series
  domain_fronting_connections : Family → Series
  ip_list_size_of : Bool → Series
  telegram_traffic : Option Label → Bool → Series
  domain_fronting_traffic : Bool → Series
  ip_blocklisted : Bool → Series
  pending_handshake_limit : Bytes → Series
  domain_fronting concurrency_limited replay_attacks : Series

abbrev pub family_beq : Family → Family → Bool
family_beq ipv4 ipv4 = true
family_beq ipv6 ipv6 = true
family_beq ipv4 ipv6 = false
family_beq ipv6 ipv4 = false

abbrev pub bool_beq : Bool → Bool → Bool
bool_beq true b = b
bool_beq false b = not b

abbrev pub label_beq : Label → Label → Bool
label_beq (ip, dc) (ip', dc') = bytes_eq ip ip' && int_beq dc dc'

abbrev pub tags_beq : Option Label → Option Label → Bool
tags_beq none none = true
tags_beq none (some l) = false
tags_beq (some l) none = false
tags_beq (some l) (some l') = label_beq l l'

unfoldable pub same_series : Series → Series → Bool
same_series (client_connections f) (client_connections g) = family_beq f g
same_series (telegram_connections l) (telegram_connections k) = label_beq l k
same_series (domain_fronting_connections f) (domain_fronting_connections g) = family_beq f g
same_series (ip_list_size_of b) (ip_list_size_of d) = bool_beq b d
same_series (telegram_traffic l b) (telegram_traffic k d) = tags_beq l k && bool_beq b d
same_series (domain_fronting_traffic b) (domain_fronting_traffic d) = bool_beq b d
same_series (ip_blocklisted b) (ip_blocklisted d) = bool_beq b d
same_series (pending_handshake_limit a) (pending_handshake_limit b) = bytes_eq a b
same_series domain_fronting domain_fronting = true
same_series concurrency_limited concurrency_limited = true
same_series replay_attacks replay_attacks = true
same_series _ _ = false

abbrev pub Metrics : Type 0
Metrics = Series → ℤ

-- Inc, Dec and Add, and Set. A value is exact, as a float64 is for whole numbers up to 2^53.
unfoldable pub add_to : Series → ℤ → Metrics → Metrics
unfolding same_series
add_to s n m s' = if same_series s s' then n +ℤ m s' else m s'

unfoldable pub set_to : Series → ℤ → Metrics → Metrics
unfolding same_series
set_to s n m s' = if same_series s s' then n else m s'

abbrev pub inc : Series → Metrics → Metrics
inc s m = add_to s (pos 1) m

abbrev pub dec : Series → Metrics → Metrics
dec s m = add_to s (negsuc 0) m

pub record Processor : Type 0 where
  pub streams : Streams
  pub metrics : Metrics

abbrev pub family_of : Bool → Family
family_of true = ipv4
family_of false = ipv6

abbrev pub new_info : Bool → StreamInfo
new_info to4 = record { is_domain_fronted = false; ip_family = family_of to4; telegram = none }

abbrev pub with_metrics : Metrics → Processor → Processor
with_metrics m p = record p { metrics = m }

-- A handler that looks its stream up does nothing for an unknown one.
unfoldable pub event_start : Bytes → Bool → Processor → Processor
event_start id to4 p = record {
  streams = insert id (new_info to4) p.streams;
  metrics = inc (client_connections (family_of to4)) p.metrics;
}

unfoldable pub event_connected : Bytes → Label → Option StreamInfo → Processor → Processor
event_connected id l none p = p
event_connected id l (some info) p = record {
  streams = insert id (record info { telegram = some l }) p.streams;
  metrics = inc (telegram_connections l) p.metrics;
}

unfoldable pub event_domain_fronting : Bytes → Option StreamInfo → Processor → Processor
event_domain_fronting id none p = p
event_domain_fronting id (some info) p = record {
  streams = insert id (record info { is_domain_fronted = true }) p.streams;
  metrics = inc (domain_fronting_connections info.ip_family) (inc domain_fronting p.metrics);
}

unfoldable pub event_traffic : ℕ → Bool → Option StreamInfo → Processor → Processor
event_traffic n is_read none p = p
event_traffic n is_read (some info) p =
    if info.is_domain_fronted
    then with_metrics (add_to (domain_fronting_traffic is_read) (pos n) p.metrics) p
    else with_metrics (add_to (telegram_traffic info.telegram is_read) (pos n) p.metrics) p

abbrev pub dec_telegram : Option Label → Metrics → Metrics
dec_telegram none m = m
dec_telegram (some l) m = dec (telegram_connections l) m

unfoldable pub event_finish : Bytes → Option StreamInfo → Processor → Processor
event_finish id none p = p
event_finish id (some info) p =
    let m = dec (client_connections info.ip_family) p.metrics in
    record {
      streams = erase id p.streams;
      metrics =
          if info.is_domain_fronted
          then dec (domain_fronting_connections info.ip_family) m
          else dec_telegram info.telegram m;
    }

-- prometheusProcessor, behind the switch of eventStreamProcessor.
unfoldable pub step : Event → Processor → Processor
unfolding event_start event_connected event_domain_fronting event_traffic event_finish
step (start id to4) p = event_start id to4 p
step (connected_to_dc id ip dc) p = event_connected id (ip, dc) (lookup id p.streams) p
step (domain_fronting_of id) p = event_domain_fronting id (lookup id p.streams) p
step (traffic id n is_read) p = event_traffic n is_read (lookup id p.streams) p
step (finish id) p = event_finish id (lookup id p.streams) p
step concurrency_limited_at p = with_metrics (inc concurrency_limited p.metrics) p
step (ip_listed is_block) p = with_metrics (inc (ip_blocklisted is_block) p.metrics) p
step (replay_attack id) p = with_metrics (inc replay_attacks p.metrics) p
step (pending_limit id action) p = with_metrics (inc (pending_handshake_limit action) p.metrics) p
-- The switch has no case for it.
step (throttled id) p = p
step (ip_list_size n is_block) p =
    with_metrics (set_to (ip_list_size_of is_block) (pos n) p.metrics) p

unfoldable pub process : List Event → Processor → Processor
unfolding step
process [] p = p
process (e ∷ events) p = process events (step e p)

abbrev pub new_processor : Processor
new_processor = record { streams = []; metrics = λ s. pos 0 }
