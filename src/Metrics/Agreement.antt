-- ===== src/Metrics/Agreement.antt =====
-- stats/statsd.go and stats/prometheus.go: what the two observers make of one event.
use mtg_multi.Prelude.{
  ℕ, ◌<◌, ◌^◌, ltb, arith, ap, if_cases, ◌≡◌, refl, Bool, true, false, Option, none, some, List, [],
  ◌∷◌, if◌then◌else◌, bytes_key, Bool-cases, inl, inr,
}
use mtg_multi.Prelude.Bytes.{Bytes}
use mtg_multi.Prelude.Map.{lookup}
use mtg_multi.Prelude.Ints.{ℤ, pos, negsuc, int_of, ◌+ℤ◌}
use mtg_multi.Metrics.{
  Event, start, connected_to_dc, domain_fronting_of, traffic, finish, concurrency_limited_at,
  ip_listed, replay_attack, pending_limit, throttled, ip_list_size, Label, StreamInfo, Series,
  client_connections, telegram_connections, domain_fronting_connections, ip_list_size_of,
  telegram_traffic, domain_fronting_traffic, ip_blocklisted, pending_handshake_limit,
  domain_fronting, concurrency_limited, replay_attacks, Metrics, same_series, add_to, set_to,
  Processor, event_start, event_connected, event_domain_fronting, event_traffic, event_finish,
  dec_telegram, step,
}
use mtg_multi.Metrics.Packets.{
  Packet, gauge_delta, incr, gauge, Sent, send_connected, send_fronting, send_traffic,
  send_disconnected, send_finished, emit, receive, receive_all,
}

-- The two observers agree on one event.
abbrev Agrees : Sent → Metrics → Processor → Type 0
Agrees (st, packets) m p = (st ≡ p.streams) × (receive_all packets m ≡ p.metrics)

connected-Agrees :
    (id : Bytes) (l : Label) (o : Option StreamInfo) (p : Processor)
    → Agrees (send_connected id l o p.streams) p.metrics (event_connected id l o p)
unfolding send_connected event_connected receive_all
connected-Agrees id l none p = (refl, refl)
connected-Agrees id l (some info) p = (refl, refl)

fronting-Agrees :
    (id : Bytes) (o : Option StreamInfo) (p : Processor)
    → Agrees (send_fronting id o p.streams) p.metrics (event_domain_fronting id o p)
unfolding send_fronting event_domain_fronting receive_all
fronting-Agrees id none p = (refl, refl)
fronting-Agrees id (some info) p = (refl, refl)

finish-Agrees_by :
    (id : Bytes) (info : StreamInfo) (p : Processor) (b : Bool) (t : Option Label)
    → receive_all
        (gauge_delta (client_connections info.ip_family) (negsuc 0)
          ∷ (if b
              then gauge_delta (domain_fronting_connections info.ip_family) (negsuc 0) ∷ []
              else send_disconnected t))
        p.metrics
      ≡ (if b
          then add_to
              (domain_fronting_connections info.ip_family)
              (negsuc 0)
              (add_to (client_connections info.ip_family) (negsuc 0) p.metrics)
          else dec_telegram t (add_to (client_connections info.ip_family) (negsuc 0) p.metrics))
unfolding receive_all
finish-Agrees_by id info p true t = refl
finish-Agrees_by id info p false none = refl
finish-Agrees_by id info p false (some l) = refl

finish-Agrees :
    (id : Bytes) (o : Option StreamInfo) (p : Processor)
    → Agrees (send_finished id o p.streams) p.metrics (event_finish id o p)
unfolding send_finished event_finish
finish-Agrees id none p = (refl, unfold receive_all in refl)
finish-Agrees id (some info) p =
    (refl, finish-Agrees_by id info p info.is_domain_fronted info.telegram)

-- The two observers agree on one series.
abbrev pub AgreesAt : Series → Sent → Metrics → Processor → Type 0
AgreesAt s (st, packets) m p = (st ≡ p.streams) × (receive_all packets m s ≡ p.metrics s)

at :
    (s : Series) (sent : Sent) (m : Metrics) (p : Processor) → Agrees sent m p → AgreesAt s sent m p
at s sent m p (same, shown) = (same, ap (λ (m : Metrics). m s) shown)

add_to-at :
    (t : Series) (n : ℤ) (m m' : Metrics) (s : Series)
    → m s ≡ m' s
    → add_to t n m s ≡ add_to t n m' s
unfolding add_to
add_to-at t n m m' s e = elim (Bool-cases (same_series t s)) [
  | inl b ↦ rw b (ap (λ z. n +ℤ z) e)
  | inr b ↦ rw b e
]

receive-at :
    (p : Packet) (m m' : Metrics) (s : Series) → m s ≡ m' s → receive p m s ≡ receive p m' s
unfolding set_to
receive-at (gauge_delta t n) m m' s e = add_to-at t n m m' s e
receive-at (incr t n) m m' s e = add_to-at t n m m' s e
receive-at (gauge t n) m m' s e = elim (Bool-cases (same_series t s)) [
  | inl b ↦ rw b refl
  | inr b ↦ rw b e
]

-- What a series shows in the end hangs on what that series showed.
pub receive_all-at :
    (packets : List Packet) (m m' : Metrics) (s : Series)
    → m s ≡ m' s
    → receive_all packets m s ≡ receive_all packets m' s
unfolding receive_all
receive_all-at [] m m' s e = e
receive_all-at (p ∷ packets) m m' s e =
    receive_all-at packets (receive p m) (receive p m') s (receive-at p m m' s e)

abbrev pub is_traffic : Series → Bool
is_traffic (telegram_traffic l is_read) = true
is_traffic (domain_fronting_traffic is_read) = true
is_traffic _ = false

-- What an event adds to a series, or sets it to, at most.
abbrev pub size : Event → ℕ
size (traffic id n is_read) = n
size (ip_list_size n is_block) = n
size _ = 1

-- The conversion of the event to int64 keeps what it adds to the series.
abbrev pub IsExact : Series → Event → Type 0
IsExact s e = is_traffic s ≡ true → size e < 2 ^ 63

other_series :
    (s : Series)
    → is_traffic s ≡ false
    → ((l : Option Label) (is_read : Bool) → same_series (telegram_traffic l is_read) s ≡ false)
      × ((is_read : Bool) → same_series (domain_fronting_traffic is_read) s ≡ false)
unfolding same_series
other_series (telegram_traffic l b) e = absurd (cc)
other_series (domain_fronting_traffic b) e = absurd (cc)
other_series (client_connections f) e = ((λ l b. refl), (λ b. refl))
other_series (telegram_connections k) e = ((λ l b. refl), (λ b. refl))
other_series (domain_fronting_connections f) e = ((λ l b. refl), (λ b. refl))
other_series (ip_list_size_of b) e = ((λ l b. refl), (λ b. refl))
other_series (ip_blocklisted b) e = ((λ l b. refl), (λ b. refl))
other_series (pending_handshake_limit a) e = ((λ l b. refl), (λ b. refl))
other_series domain_fronting e = ((λ l b. refl), (λ b. refl))
other_series concurrency_limited e = ((λ l b. refl), (λ b. refl))
other_series replay_attacks e = ((λ l b. refl), (λ b. refl))

int_of-pos : (n : ℕ) → n < 2 ^ 63 → int_of n ≡ pos n
int_of-pos n h = if_cases (λ z. z ≡ pos n) (ltb n (2 ^ 63)) _ _ (λ _. refl) (λ e. ground (arith, e))

-- A series that the traffic is not for, or a count that the conversion keeps.
add_to-traffic :
    (t s : Series) (n : ℕ) (m : Metrics)
    → (is_traffic s ≡ false → same_series t s ≡ false)
    → (is_traffic s ≡ true → n < 2 ^ 63)
    → add_to t (int_of n) m s ≡ add_to t (pos n) m s
unfolding add_to
add_to-traffic t s n m other small = elim (Bool-cases (is_traffic s)) [
  | inl e ↦ rw (int_of-pos n (small e)) refl
  | inr e ↦ rw (other e) refl
]

traffic-AgreesAt :
    (s : Series) (n : ℕ) (is_read : Bool) (o : Option StreamInfo) (p : Processor)
    → (is_traffic s ≡ true → n < 2 ^ 63)
    → AgreesAt s (send_traffic n is_read o p.streams) p.metrics (event_traffic n is_read o p)
unfolding send_traffic event_traffic receive_all
traffic-AgreesAt s n is_read none p small = (refl, refl)
traffic-AgreesAt s n is_read (some info) p small = elim (Bool-cases info.is_domain_fronted) [
  | inl e ↦ simp e (
    refl,
    add_to-traffic (domain_fronting_traffic is_read) s n p.metrics
        (λ f. (other_series s f).1 is_read) small,
  )
  | inr e ↦ simp e (
    refl,
    add_to-traffic (telegram_traffic info.telegram is_read) s n p.metrics
        (λ f. (other_series s f).0 info.telegram is_read) small,
  )
]

pub emit-AgreesAt :
    (s : Series) (e : Event) (p : Processor)
    → IsExact s e
    → AgreesAt s (emit e p.streams) p.metrics (step e p)
unfolding emit step receive_all
emit-AgreesAt s (start id to4) p x = (unfold event_start in refl, unfold event_start in refl)
emit-AgreesAt s (connected_to_dc id ip dc) p x =
    at s (send_connected id (ip, dc) (lookup id p.streams) p.streams) p.metrics _
      (connected-Agrees id (ip, dc) (lookup id p.streams) p)
emit-AgreesAt s (domain_fronting_of id) p x =
    at s (send_fronting id (lookup id p.streams) p.streams) p.metrics _
      (fronting-Agrees id (lookup id p.streams) p)
emit-AgreesAt s (traffic id n is_read) p x = traffic-AgreesAt s n is_read (lookup id p.streams) p x
emit-AgreesAt s (finish id) p x =
    at s (send_finished id (lookup id p.streams) p.streams) p.metrics _
      (finish-Agrees id (lookup id p.streams) p)
emit-AgreesAt s concurrency_limited_at p x = (refl, refl)
emit-AgreesAt s (ip_listed is_block) p x = (refl, refl)
emit-AgreesAt s (replay_attack id) p x = (refl, refl)
emit-AgreesAt s (pending_limit id action) p x = (refl, refl)
emit-AgreesAt s (throttled id) p x = (refl, refl)
emit-AgreesAt s (ip_list_size n is_block) p x = (refl, refl)
