-- ===== src/Streams/Serve.antt =====
-- mtglib/proxy.go: ServeConn, up to the end of its relay, and then its deferred calls.
pub mod Unwinding
pub mod Restores
use mtg_multi.Prelude.{
  ℕ, zero, suc, Bool, true, false, not, ◌⊎◌, inl, inr, Option, none, some, List, [], ◌∷◌,
  if◌then◌else◌, Fallible, ok, err,
}
use mtg_multi.Prelude.Bytes.{Bytes}
use mtg_multi.Prelude.Ints.{ℤ}
use mtg_multi.Admission.PendingHandshakes.{
  Action, no_action, pending_handshake_rejected, pending_handshake_observed, Slot, Acquired,
  acquire,
}
use mtg_multi.Stats.{ProxyStats, can_connect, on_connect, on_disconnect, update_last_seen}
use mtg_multi.Stats.Counters.{count_moves}
use mtg_multi.Secrets.Swap.{Proxy, register_conn, unregister_conn}
use mtg_multi.Obfuscation.{HandshakeError, Conn, read_handshake}
use mtg_multi.Streams.{
  Addr, StreamEvent, event_start, event_finish, event_pending_handshake_limit, event_throttled,
  Settings, Answers, World, send, with_stats, finish_pending_handshake, Deferred, send_finish,
  release_slot, call_on_disconnect, call_unregister_conn, End, no_deadline, not_admitted, throttled,
  no_doppelganger, bad_obfuscation, deadline_kept, no_telegram, relayed, Session,
  do_fake_tls_handshake,
}
use mtg_multi.Streams.Telegram.{Call, not_called, direct, through_middle, do_telegram_call}

-- A stream at the end of the body of ServeConn: the state, its slot, the deferred calls (the last
-- one first) and what it came to.
pub record Served : Type 0 where
  pub world : World
  pub slot : Option Slot
  pub deferred : List Deferred
  pub end : End

abbrev served : World → Option Slot → List Deferred → End → Served
served w slot deferred e = record { world = w; slot = slot; deferred = deferred; end = e }

pub announce : Action → World → World
announce no_action w = w
announce pending_handshake_rejected w =
    send (event_pending_handshake_limit pending_handshake_rejected) w
announce pending_handshake_observed w =
    send (event_pending_handshake_limit pending_handshake_observed) w

abbrev slot_of : Option Bytes → Option Slot
slot_of none = none
slot_of (some addr) = some record { addr = addr; done = false }

abbrev defer_release : Option Bytes → List Deferred
defer_release none = send_finish ∷ []
defer_release (some addr) = release_slot ∷ send_finish ∷ []

-- The deferred calls of the stream `c`.
pub run_deferred : ℕ → List Deferred → Option Slot → World → World
run_deferred c [] slot w = w
run_deferred c (send_finish ∷ ds) slot w = run_deferred c ds slot (send event_finish w)
run_deferred c (release_slot ∷ ds) slot w =
    let (w', slot') = finish_pending_handshake w slot in run_deferred c ds slot' w'
run_deferred c (call_on_disconnect name ∷ ds) slot w =
    run_deferred c ds slot (with_stats (λ st. on_disconnect st name) w)
run_deferred c (call_unregister_conn name ∷ ds) slot w =
    run_deferred c ds slot (record w { proxy = unregister_conn name c w.proxy })

module _ {ℓ} {M : Type ℓ} (same_month : M → M → Bool) (month_of : ℕ → M) (now : ℕ)
    (hmac : Bytes → Bytes → Bytes) (tolerate : ℕ) (sha256 : Bytes → Bytes)
    (key_stream : Bytes → Bytes → ℕ → ℕ) (addresses : ℕ → List Addr) (s : Settings) (a : Answers)
    (c : ℕ) where
  -- The relay, which counts what it moves.
  pub relay : Bytes → Option Slot → List Deferred → World × Call → Served
  relay name slot deferred (w, not_called) = served w slot deferred no_telegram
  relay name slot deferred (w, direct addr dc) =
      served (with_stats (λ st. count_moves st name a.moves) w) slot deferred (relayed dc)
  relay name slot deferred (w, through_middle ip dc) =
      served (with_stats (λ st. count_moves st name a.moves) w) slot deferred (relayed dc)

  pub on_obfuscated :
      World → Option Slot → List Deferred → Session → Fallible HandshakeError (ℤ × Conn) → Served
  on_obfuscated w slot deferred session (err e) = served w slot deferred bad_obfuscation
  on_obfuscated w slot deferred session (ok (dc, conn)) =
      if not a.deadline_cleared
      then served w slot deferred deadline_kept
      else relay session.secret_name slot deferred
          (do_telegram_call addresses s a w dc session.ad_tag)

  -- From registerConn on.
  pub connected_stream : World → Option Slot → List Deferred → Session → Served
  connected_stream w slot deferred session =
      let w' = record w { proxy = register_conn session.secret_name c w.proxy } in
      let deferred' = call_unregister_conn session.secret_name ∷ deferred in
      if not a.doppelganger
      then served w' slot deferred' no_doppelganger
      else on_obfuscated w' slot deferred' session
          (read_handshake sha256 key_stream (some session.matched_secret_key) a.inner)

  pub on_can_connect : World → Option Slot → List Deferred → Session → ProxyStats × Bool → Served
  on_can_connect w slot deferred session (st, false) =
      served (send (event_throttled session.secret_name) (with_stats (λ _. st) w)) slot deferred
        throttled
  on_can_connect w slot deferred session (st, true) =
      connected_stream
        (with_stats
          (λ _. update_last_seen (on_connect st session.secret_name) session.secret_name now) w)
        slot (call_on_disconnect session.secret_name ∷ deferred) session

  pub on_handshake : List Deferred → World × Option Slot × (End ⊎ Session) → Served
  on_handshake deferred (w, slot, inl e) = served w slot deferred e
  on_handshake deferred (w, slot, inr session) =
      let (w', slot') = finish_pending_handshake w slot in
      on_can_connect w' slot' deferred session (can_connect w'.proxy.stats session.secret_name)

  pub on_acquired : World → Acquired → Served
  on_acquired w q =
      let w' = announce q.action (record w { pending = q.pending }) in
      if not q.admitted
      then served w' none (send_finish ∷ []) not_admitted
      else on_handshake (defer_release q.slot)
          (do_fake_tls_handshake same_month month_of now hmac tolerate s a w' (slot_of q.slot))

  pub serve_body : World → Served
  serve_body w =
      if not a.deadline_set
      then served w none [] no_deadline
      else on_acquired (send event_start w)
          (acquire w.pending a.client_ip s.pending_handshakes_per_ip s.pending_handshakes_dry_run)

  -- ServeConn of a stream that nothing interrupts.
  pub serve_conn : World → World
  serve_conn w = let r = serve_body w in run_deferred c r.deferred r.slot r.world
