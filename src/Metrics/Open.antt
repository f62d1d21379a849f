-- ===== src/Metrics/Open.antt =====
-- stats/prometheus.go: the gauges after any events that the proxy sends.
use mtg_multi.Prelude.{
  ℕ, ◌≡◌, refl, ◌∙◌, Bool, Option, none, some, List, [], ◌∷◌, if_both, bytes_key,
}
use mtg_multi.Prelude.Bytes.{Bytes}
use mtg_multi.Prelude.Map.{lookup}
use mtg_multi.Metrics.{
  Family, Event, start, connected_to_dc, domain_fronting_of, traffic, finish,
  concurrency_limited_at, ip_listed, replay_attack, pending_limit, throttled, ip_list_size, Label,
  StreamInfo, client_connections, telegram_connections, domain_fronting_connections, Metrics,
  add_to, set_to, Processor, with_metrics, event_connected, event_domain_fronting, event_traffic,
  event_finish, step, process, new_processor,
}
use mtg_multi.Metrics.Counts.{open_count}
use mtg_multi.Metrics.Gauges.{IsCounted, IsFresh, IsSent, IsProtocol, event_start-IsCounted}
use mtg_multi.Metrics.Changes.{connected-IsCounted, fronted-IsCounted, finish-IsCounted}

-- A change of other series.
with_metrics-IsCounted :
    (p : Processor) (m : Metrics)
    → IsCounted p
    → ((f : Family) → m (client_connections f) ≡ p.metrics (client_connections f))
    → ((f : Family) → m (domain_fronting_connections f) ≡ p.metrics (domain_fronting_connections f))
    → ((l : Label) → m (telegram_connections l) ≡ p.metrics (telegram_connections l))
    → IsCounted (with_metrics m p)
with_metrics-IsCounted p m c client fronting telegram = record {
  distinct = c.distinct;
  client = λ f. client f ∙ c.client f;
  fronting = λ f. fronting f ∙ c.fronting f;
  telegram = λ l. telegram l ∙ c.telegram l;
}

connect_found :
    (id : Bytes) (l : Label) (p : Processor) (o : Option StreamInfo)
    → lookup id p.streams ≡ o
    → IsFresh o
    → IsCounted p
    → IsCounted (event_connected id l o p)
connect_found id l p none e fresh c = unfold event_connected in c
connect_found id l p (some info) e (untagged, direct) c =
    connected-IsCounted id info p e c l untagged direct

front_found :
    (id : Bytes) (p : Processor) (o : Option StreamInfo)
    → lookup id p.streams ≡ o
    → IsFresh o
    → IsCounted p
    → IsCounted (event_domain_fronting id o p)
front_found id p none e fresh c = unfold event_domain_fronting in c
front_found id p (some info) e (untagged, direct) c =
    fronted-IsCounted id info p e c untagged direct

finish_found :
    (id : Bytes) (p : Processor) (o : Option StreamInfo)
    → lookup id p.streams ≡ o
    → IsCounted p
    → IsCounted (event_finish id o p)
finish_found id p none e c = unfold event_finish in c
finish_found id p (some info) e c = finish-IsCounted id info p e c

traffic-IsCounted :
    (n : ℕ) (is_read : Bool) (o : Option StreamInfo) (p : Processor)
    → IsCounted p
    → IsCounted (event_traffic n is_read o p)
unfolding event_traffic add_to
traffic-IsCounted n is_read none p c = c
traffic-IsCounted n is_read (some info) p c =
    if_both IsCounted info.is_domain_fronted _ _
      (with_metrics-IsCounted p _ c (λ f. refl) (λ f. refl) (λ l. refl))
      (with_metrics-IsCounted p _ c (λ f. refl) (λ f. refl) (λ l. refl))

step-IsCounted : (e : Event) (p : Processor) → IsSent e p → IsCounted p → IsCounted (step e p)
unfolding step add_to set_to
step-IsCounted (start id to4) p sent c = event_start-IsCounted id to4 p sent c
step-IsCounted (connected_to_dc id ip dc) p sent c = connect_found id (ip, dc) p _ refl sent c
step-IsCounted (domain_fronting_of id) p sent c = front_found id p _ refl sent c
step-IsCounted (traffic id n is_read) p sent c = traffic-IsCounted n is_read _ p c
step-IsCounted (finish id) p sent c = finish_found id p _ refl c
step-IsCounted concurrency_limited_at p sent c =
    with_metrics-IsCounted p _ c (λ f. refl) (λ f. refl) (λ l. refl)
step-IsCounted (ip_listed is_block) p sent c =
    with_metrics-IsCounted p _ c (λ f. refl) (λ f. refl) (λ l. refl)
step-IsCounted (replay_attack id) p sent c =
    with_metrics-IsCounted p _ c (λ f. refl) (λ f. refl) (λ l. refl)
step-IsCounted (pending_limit id action) p sent c =
    with_metrics-IsCounted p _ c (λ f. refl) (λ f. refl) (λ l. refl)
step-IsCounted (throttled id) p sent c = c
step-IsCounted (ip_list_size n is_block) p sent c =
    with_metrics-IsCounted p _ c (λ f. refl) (λ f. refl) (λ l. refl)

pub process-IsCounted_from :
    (events : List Event) (p : Processor)
    → IsProtocol events p
    → IsCounted p
    → IsCounted (process events p)
unfolding process
process-IsCounted_from [] p sent c = c
process-IsCounted_from (e ∷ events) p (first, sent) c =
    process-IsCounted_from events (step e p) sent (step-IsCounted e p first c)

-- After any events in which a stream starts while it is not open and is connected or fronted at
-- most once, each gauge of the Prometheus observer is the number of open streams that it stands
-- for: the clients of an address family, the fronted ones of it, and those connected to an address
-- and a DC.
pub process-IsCounted :
    (events : List Event)
    → IsProtocol events new_processor
    → IsCounted (process events new_processor)
process-IsCounted events sent = process-IsCounted_from events new_processor sent (
    unfold open_count in
    record { distinct = tt; client = λ f. refl; fronting = λ f. refl; telegram = λ l. refl })
