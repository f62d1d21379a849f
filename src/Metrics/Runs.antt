-- ===== src/Metrics/Runs.antt =====
-- stats and events/event_stream.go on concrete events.
use mtg_multi.Prelude.{
  ◌%◌, ◌≡◌, refl, true, false, some, arith, List, [], ◌∷◌, ◌++◌, ◌==◌, if◌then◌else◌, length,
}
use mtg_multi.Prelude.Bytes.{Bytes, text}
use mtg_multi.Prelude.Map.{lookup, insert, erase}
use mtg_multi.Prelude.Ints.{pos, ◌+ℤ◌}
use mtg_multi.Metrics.{
  Event, start, connected_to_dc, domain_fronting_of, traffic, finish, ipv4, client_connections,
  telegram_traffic, process, new_processor, add_to,
}
use mtg_multi.Metrics.Gauges.{IsCounted, IsProtocol}
use mtg_multi.Metrics.Open.{process-IsCounted}
use mtg_multi.Metrics.Packets.{send_all, send_shutdown, receive_all}
use mtg_multi.Metrics.Agreement.{AgreesAt}
use mtg_multi.Metrics.Shutdown.{send_all-Agrees, IsZero, send_shutdown-IsZero}
use mtg_multi.Metrics.Routing.{Sending, observed, of_stream, received, of_stream-observed}

abbrev one : Bytes
one = text "one"

abbrev two : Bytes
two = text "two"

-- One stream is connected and finishes, the other is fronted and stays open.
abbrev events : List Event
events =
    start one true
    ∷ start two false
    ∷ connected_to_dc one (text "10.0.0.1") (pos 2)
    ∷ domain_fronting_of two
    ∷ traffic one 7 true
    ∷ finish one
    ∷ []

events-IsProtocol : IsProtocol events new_processor
unfolding process lookup insert erase
events-IsProtocol = (refl, (refl, ((refl, refl), ((refl, refl), (tt, (tt, tt))))))

open_clients :
    (process (start one true ∷ start two true ∷ []) new_processor).metrics (client_connections ipv4)
    ≡ pos 2
unfolding process insert add_to ◌+ℤ◌
open_clients = refl

process-IsCounted_example : IsCounted (process events new_processor)
process-IsCounted_example = process-IsCounted events events-IsProtocol

send_all-Agrees_example :
    AgreesAt
      (telegram_traffic (some (text "10.0.0.1", pos 2)) true)
      (send_all events [])
      (λ s. pos 0)
      (process events new_processor)
send_all-Agrees_example =
    send_all-Agrees events (telegram_traffic (some (text "10.0.0.1", pos 2)) true) (omega arith)

send_shutdown-IsZero_example :
    let (st, packets) = send_all events [] in
    IsZero (receive_all (packets ++ (send_shutdown st).1) (λ s. pos 0))
send_shutdown-IsZero_example = send_shutdown-IsZero events events-IsProtocol

abbrev sent : List Sending
sent = (start one true, 0, true) ∷ (start two true, 1, true) ∷ (finish one, 5, false) ∷ []

of_stream-observed_example :
    of_stream one (observed length 2 1 sent)
    ≡ (if (length one % 2) == 1 then of_stream one (received sent) else [])
of_stream-observed_example = of_stream-observed length 2 one 1 sent refl
