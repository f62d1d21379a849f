-- ===== src/Metrics/Shutdown.antt =====
-- stats/statsd.go: what statsd has received is what Prometheus shows, and after Shutdown no stream is
-- with_metrics as open.
use mtg_multi.Prelude.{
  ℕ, ◌+◌, ◌<◌, ◌^◌, false, arith, All, ◌≡◌, refl, sym, ap, ◌∙◌, Option, none, some, List, [], ◌∷◌,
  ◌++◌, if◌then◌else◌, bytes_eq, bytes_eq_iff, bytes_key, Bool-cases, inl, inr,
}
use mtg_multi.Prelude.Bytes.{Bytes}
use mtg_multi.Prelude.Map.{lookup, lookup-erase}
use mtg_multi.Prelude.Ints.{pos}
use mtg_multi.Metrics.{
  Family, Series, Event, finish, Label, StreamInfo, Streams, client_connections,
  telegram_connections, domain_fronting_connections, Metrics, Processor, event_finish, step,
  process, new_processor,
}
use mtg_multi.Metrics.Counts.{open_count, lookup-here, lookup-there}
use mtg_multi.Metrics.Gauges.{has_family, is_fronted, is_connected, IsCounted, IsProtocol}
use mtg_multi.Metrics.Open.{process-IsCounted, process-IsCounted_from}
use mtg_multi.Metrics.Packets.{
  emit, send_all, send_shutdown, stream_ids, finishes, receive_all, receive_all-append,
}
use mtg_multi.Metrics.Agreement.{AgreesAt, receive_all-at, is_traffic, size, IsExact, emit-AgreesAt}

send_all-AgreesAt_from :
    (s : Series) (events : List Event) (p : Processor)
    → All (IsExact s) events
    → AgreesAt s (send_all events p.streams) p.metrics (process events p)
unfolding send_all process
send_all-AgreesAt_from s [] p x = (refl, unfold receive_all in refl)
send_all-AgreesAt_from s (e ∷ events) p (x, xs) =
    let (same, shown) = emit-AgreesAt s e p x in
    let (rest_same, rest_shown) = send_all-AgreesAt_from s events (step e p) xs in
    let after = receive_all (emit e p.streams).1 p.metrics in
    (
      ap (λ st. (send_all events st).0) same ∙ rest_same,
      ap (λ (m : Metrics). m s)
            (receive_all-append (emit e p.streams).1 (send_all events (emit e p.streams).0).1
              p.metrics)
          ∙ ap (λ st. receive_all (send_all events st).1 after s) same
          ∙ receive_all-at (send_all events (step e p).streams).1 after (step e p).metrics s shown
          ∙ rest_shown,
    )

-- What all events together add or set at most.
abbrev pub volume : List Event → ℕ
volume [] = 0
volume (e ∷ events) = size e + volume events

All-IsExact : (s : Series) (events : List Event) → volume events < 2 ^ 53 → All (IsExact s) events
All-IsExact s [] h = tt
All-IsExact s (e ∷ events) h = ((λ _. omega arith), All-IsExact s events (omega arith))

-- For events whose counts sum to less than 2^53, where a float64 and an int64 are exact, the
-- statsd observer keeps the same open streams as the Prometheus observer, and its packets,
-- received in order, give every series the value that Prometheus shows.
pub send_all-Agrees :
    (events : List Event) (s : Series)
    → volume events < 2 ^ 53
    → AgreesAt s (send_all events []) (λ t. pos 0) (process events new_processor)
send_all-Agrees events s h = send_all-AgreesAt_from s events new_processor (All-IsExact s events h)

not_traffic : (s : Series) (events : List Event) → is_traffic s ≡ false → All (IsExact s) events
not_traffic s [] e = tt
not_traffic s (_ ∷ events) e = ((λ f. absurd (cc)), not_traffic s events e)

lookup-finish :
    (id j : Bytes) (p : Processor)
    → lookup j (step (finish id) p).streams ≡ (if bytes_eq id j then none else lookup j p.streams)
unfolding step
lookup-finish id j p = by_info (lookup id p.streams) refl
  where
    by_info :
        (o : Option StreamInfo)
        → lookup id p.streams ≡ o
        → lookup j (event_finish id o p).streams
          ≡ (if bytes_eq id j then none else lookup j p.streams)
    by_info none e = elim (Bool-cases (bytes_eq id j)) [
      | inl same ↦ rw same (ap (λ k. lookup k p.streams) (sym ((bytes_eq_iff id j).0 same)) ∙ e)
      | inr other ↦ rw other
    ]
    by_info (some info) e = unfold event_finish in lookup-erase id j p.streams

-- A stream whose id is among those that finish, or that was not open, is not open afterwards.
finishes_gone :
    (m : Streams) (p : Processor) (j : Bytes)
    → (lookup j m ≡ none → lookup j p.streams ≡ none)
    → lookup j (process (finishes (stream_ids m)) p).streams ≡ none
unfolding process
finishes_gone [] p j h = h (unfold lookup in refl)
finishes_gone ((k, info) ∷ m) p j h = finishes_gone m (step (finish k) p) j (λ rest.
    lookup-finish k j p ∙ elim (Bool-cases (bytes_eq k j)) [
      | inl same ↦ rw same refl
      | inr other ↦ rw other (h (lookup-there k j info m other ∙ rest))
    ])

no_streams : (m : Streams) → ((j : Bytes) → lookup j m ≡ none) → m ≡ []
no_streams [] h = refl
no_streams ((k, info) ∷ m) h =
    let q : some info ≡ none = sym (lookup-here k k info m ((bytes_eq_iff k k).1 refl)) ∙ h k in
    absurd (cc)

finishes-IsProtocol : (ids : List Bytes) (p : Processor) → IsProtocol (finishes ids) p
finishes-IsProtocol [] p = tt
finishes-IsProtocol (id ∷ ids) p = (tt, finishes-IsProtocol ids (step (finish id) p))

-- The gauges of a shut observer.
abbrev pub IsZero : Metrics → Type 0
IsZero m =
    ((f : Family) → m (client_connections f) ≡ pos 0)
    × ((f : Family) → m (domain_fronting_connections f) ≡ pos 0)
    × ((l : Label) → m (telegram_connections l) ≡ pos 0)

shut-IsZero : (p : Processor) → IsCounted p → p.streams ≡ [] → IsZero p.metrics
unfolding open_count
shut-IsZero p c none_open = (
  (λ f. c.client f ∙ ap (λ m. pos (open_count (has_family f) m)) none_open),
  (λ f. c.fronting f ∙ ap (λ m. pos (open_count (is_fronted f) m)) none_open),
  (λ l. c.telegram l ∙ ap (λ m. pos (open_count (is_connected l) m)) none_open),
)

finishes-IsZero :
    (p : Processor) → IsCounted p → IsZero (process (finishes (stream_ids p.streams)) p).metrics
finishes-IsZero p c =
    shut-IsZero (process (finishes (stream_ids p.streams)) p)
      (process-IsCounted_from (finishes (stream_ids p.streams)) p
        (finishes-IsProtocol (stream_ids p.streams) p) c)
      (no_streams _ (λ j. finishes_gone p.streams p j (λ h. h)))

-- After Shutdown statsd and Prometheus agree on every series that no traffic is counted in.
shut-shown :
    (events : List Event) (s : Series)
    → is_traffic s ≡ false
    → let (st, packets) = send_all events [] in
      let p = process events new_processor in
      receive_all (packets ++ (send_all (finishes (stream_ids st)) st).1) (λ t. pos 0) s
      ≡ (process (finishes (stream_ids p.streams)) p).metrics s
shut-shown events s e =
    let p = process events new_processor in
    let (st, packets) = send_all events [] in
    let (same, shown) = send_all-AgreesAt_from s events new_processor (not_traffic s events e) in
    let ids = finishes (stream_ids p.streams) in
    let after = receive_all packets (λ t. pos 0) in
    ap (λ (m : Metrics). m s)
      (receive_all-append packets (send_all (finishes (stream_ids st)) st).1 (λ t. pos 0))
    ∙ ap (λ (m : Streams). receive_all (send_all (finishes (stream_ids m)) m).1 after s) same
    ∙ receive_all-at (send_all ids p.streams).1 after p.metrics s shown
    ∙ (send_all-AgreesAt_from s ids p (not_traffic s ids e)).1

-- After any events in which a stream starts while it is not open and is connected or fronted at
-- most once, the packets of the statsd observer and of its Shutdown, received in order, leave
-- every gauge of connections at zero.
pub send_shutdown-IsZero :
    (events : List Event)
    → IsProtocol events new_processor
    → let (st, packets) = send_all events [] in
      IsZero (receive_all (packets ++ (send_shutdown st).1) (λ s. pos 0))
unfolding send_shutdown
send_shutdown-IsZero events sent =
    let p = process events new_processor in
    let (client, fronting, telegram) = finishes-IsZero p (process-IsCounted events sent) in
    (
      (λ f. shut-shown events (client_connections f) refl ∙ client f),
      (λ f. shut-shown events (domain_fronting_connections f) refl ∙ fronting f),
      (λ l. shut-shown events (telegram_connections l) refl ∙ telegram l),
    )
