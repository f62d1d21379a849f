-- ===== src/Streams/Serve/Restores.antt =====
-- mtglib/proxy.go: ServeConn gives back what it takes.
use mtg_multi.Prelude.{
  ℕ, ◌+◌, ◌<◌, ◌≡◌, refl, sym, Bool, true, false, not, ◌⊎◌, inl, inr, Option, some, List, ◌∷◌,
  if_both, if_cases, arith, Fallible, ok, err,
}
use mtg_multi.Prelude.Bytes.{Bytes}
use mtg_multi.Prelude.Ints.{ℤ}
use mtg_multi.Admission.PendingHandshakes.{Slot, Acquired, acquire, count, u32_mod}
use mtg_multi.Admission.PendingHandshakes.Returns.{IsReturned, acquire-IsReturned}
use mtg_multi.Stats.{ProxyStats, i64_mod, on_connect, on_disconnect, update_last_seen, can_connect}
use mtg_multi.Stats.Counters.{count_moves}
use mtg_multi.Stats.Counters.Connections.{conns, conns-can_connect}
use mtg_multi.Secrets.Swap.{register_conn, unregister_conn}
use mtg_multi.Secrets.Swap.Live.{live, holds}
use mtg_multi.Obfuscation.{HandshakeError, Conn, read_handshake}
use mtg_multi.Streams.{
  Addr, Settings, Answers, World, send, event_start, event_finish, event_throttled,
  do_fake_tls_handshake, with_stats, finish_pending_handshake, Deferred, call_on_disconnect,
  call_unregister_conn, End, Session,
}
use mtg_multi.Streams.Telegram.{Call, not_called, direct, through_middle, do_telegram_call}
use mtg_multi.Streams.Telegram.Events.{do_telegram_call-Kept}
use mtg_multi.Streams.Kept.{
  Kept, Kept-refl, Kept-trans, IsReady, Kept-IsReady, finished, finished-Kept, finished_again,
}
use mtg_multi.Streams.Hello.{IsGiven, IsFinished, do_fake_tls_handshake-IsFinished}
use mtg_multi.Streams.Serve.{
  announce, slot_of, defer_release, Served, run_deferred, relay, on_obfuscated, connected_stream,
  on_can_connect, on_handshake, on_acquired, serve_body, serve_conn,
}
use mtg_multi.Streams.Serve.Unwinding.{
  Settled, run_deferred-Kept, connected-Kept, registered-Kept, counted-Kept, IsGiven-twice,
  Settled-trans, announce-Kept, given_back, deferred_release,
}

module _ {ℓ} {M : Type ℓ} (same_month : M → M → Bool) (month_of : ℕ → M) (now : ℕ)
    (hmac : Bytes → Bytes → Bytes) (tolerate : ℕ) (sha256 : Bytes → Bytes)
    (key_stream : Bytes → Bytes → ℕ → ℕ) (addresses : ℕ → List Addr) (s : Settings) (a : Answers)
    (c : ℕ) where
  relay-Settled :
      (name : Bytes) (slot : Option Slot) (ds : List Deferred) (w : World) (p : World × Call)
      → Kept w p.0
      → Settled c ds slot w (
          relay same_month month_of now hmac tolerate sha256 key_stream addresses s a c name slot ds
            p)
  unfolding relay
  relay-Settled name slot ds w (w', not_called) k = run_deferred-Kept c ds slot w w' k
  relay-Settled name slot ds w (w', direct addr dc) k =
      run_deferred-Kept c ds slot w (with_stats (λ st. count_moves st name a.moves) w')
        (counted-Kept w w' name a.moves k)
  relay-Settled name slot ds w (w', through_middle ip dc) k =
      run_deferred-Kept c ds slot w (with_stats (λ st. count_moves st name a.moves) w')
        (counted-Kept w w' name a.moves k)

  on_obfuscated-Settled :
      (w : World) (slot : Option Slot) (ds : List Deferred) (session : Session)
      (r : Fallible HandshakeError (ℤ × Conn))
      → Settled c ds slot w (
          on_obfuscated same_month month_of now hmac tolerate sha256 key_stream addresses s a c w
            slot ds session r)
  unfolding on_obfuscated
  on_obfuscated-Settled w slot ds session (err e) = Kept-refl (run_deferred c ds slot w)
  on_obfuscated-Settled w slot ds session (ok (dc, conn)) =
      if_both (Settled c ds slot w) (not a.deadline_cleared) _ _
        (Kept-refl (run_deferred c ds slot w))
        (relay-Settled session.secret_name slot ds w
          (do_telegram_call addresses s a w dc session.ad_tag)
          (do_telegram_call-Kept addresses s a w dc session.ad_tag))

  connected_stream-Settled :
      (w : World) (slot : Option Slot) (ds : List Deferred) (session : Session)
      → holds c (live w.proxy session.secret_name) ≡ false
      → Settled c ds slot w (
          connected_stream same_month month_of now hmac tolerate sha256 key_stream addresses s a c w
            slot ds session)
  unfolding connected_stream run_deferred
  connected_stream-Settled w slot ds session absent =
      let name = session.secret_name in
      let w' = record w { proxy = register_conn name c w.proxy } in
      let ds' = call_unregister_conn name ∷ ds in
      let read = read_handshake sha256 key_stream (some session.matched_secret_key) a.inner in
      let gone =
        run_deferred-Kept c ds slot w
          (record w { proxy = unregister_conn name c (register_conn name c w.proxy) })
          (registered-Kept w name c absent) in
      if_both (Settled c ds slot w) (not a.doppelganger) _ _ gone (
        Settled-trans c ds ds' slot slot w w'
          (on_obfuscated same_month month_of now hmac tolerate sha256 key_stream addresses s a c w'
            slot ds' session read)
          gone (on_obfuscated-Settled w' slot ds' session read))

  on_can_connect-Settled :
      (w : World) (slot : Option Slot) (ds : List Deferred) (session : Session)
      (p : ProxyStats × Bool)
      → IsReady c w
      → ((j : Bytes) → conns p.0 j ≡ conns w.proxy.stats j)
      → Settled c ds slot w (
          on_can_connect same_month month_of now hmac tolerate sha256 key_stream addresses s a c w
            slot ds session p)
  unfolding on_can_connect run_deferred
  on_can_connect-Settled w slot ds session (st, false) ready same =
      run_deferred-Kept c ds slot w
        (send (event_throttled session.secret_name) (with_stats (λ _. st) w))
        ((λ _. refl), (λ j. sym (same j)), (λ _. refl))
  on_can_connect-Settled w slot ds session (st, true) (bound, absent) same =
      let name = session.secret_name in
      let same_bound : conns st name < i64_mod = rw (same name) (bound name) in
      let w' : World = with_stats (λ _. st) w in
      let start : Kept w w' = ((λ _. refl), (λ j. sym (same j)), (λ _. refl)) in
      let joined : World = with_stats (λ _. update_last_seen (on_connect st name) name now) w in
      let apart : World = with_stats (λ x. on_disconnect x name) joined in
      let back : Kept (run_deferred c ds slot w) (run_deferred c ds slot apart) =
        run_deferred-Kept c ds slot w apart
          (Kept-trans w w' apart start (connected-Kept w' name now same_bound)) in
      Settled-trans c ds (call_on_disconnect name ∷ ds) slot slot w joined
        (connected_stream same_month month_of now hmac tolerate sha256 key_stream addresses s a c
          joined slot (call_on_disconnect name ∷ ds) session)
        back
        (connected_stream-Settled joined slot (call_on_disconnect name ∷ ds) session (absent name))

  on_handshake-Settled :
      (w0 w : World) (slot : Option Slot) (ds : List Deferred)
      (r : World × Option Slot × (End ⊎ Session))
      → IsReady c w0
      → Kept w0 (finished w slot)
      → IsFinished w slot r
      → ((given : Option Slot) (x : World)
          → IsGiven slot given
          → Kept (finished x given) (run_deferred c ds given x))
      → Kept w0 (
          run_deferred c
            (on_handshake same_month month_of now hmac tolerate sha256 key_stream addresses s a c ds
              r).deferred
            (on_handshake same_month month_of now hmac tolerate sha256 key_stream addresses s a c ds
              r).slot
            (on_handshake same_month month_of now hmac tolerate sha256 key_stream addresses s a c ds
              r).world)
  unfolding on_handshake
  on_handshake-Settled w0 w slot ds (w', slot', inl e) ready k (f, g) first =
      Kept-trans w0 (finished w slot) (run_deferred c ds slot' w') k (
        Kept-trans (finished w slot) (finished w' slot') (run_deferred c ds slot' w') f
          (first slot' w' g))
  on_handshake-Settled w0 w slot ds (w', slot', inr session) ready k (f, g) first =
      let once = finished w' slot' in
      let given = (finish_pending_handshake w' slot').1 in
      let p = can_connect once.proxy.stats session.secret_name in
      let at : Kept w0 once = Kept-trans w0 (finished w slot) once k f in
      let end =
        on_can_connect same_month month_of now hmac tolerate sha256 key_stream addresses s a c once
          given ds session p in
      let due : Kept w0 (run_deferred c ds given once) =
        Kept-trans w0 once (run_deferred c ds given once) at (
          Kept-trans once (finished once given) (run_deferred c ds given once)
            (finished_again w' slot') (first given once (IsGiven-twice slot slot' w' g))) in
      Kept-trans w0 (run_deferred c ds given once) (run_deferred c end.deferred end.slot end.world)
        due
        (on_can_connect-Settled once given ds session p (Kept-IsReady c w0 once at ready)
          (λ j. conns-can_connect once.proxy.stats session.secret_name j))

  on_acquired-Kept :
      (w : World) (q : Acquired)
      → IsReady c w
      → IsReturned w.pending q
      → Kept w (
          run_deferred c
            (on_acquired same_month month_of now hmac tolerate sha256 key_stream addresses s a c
              (send event_start w)
              q).deferred
            (on_acquired same_month month_of now hmac tolerate sha256 key_stream addresses s a c
              (send event_start w)
              q).slot
            (on_acquired same_month month_of now hmac tolerate sha256 key_stream addresses s a c
              (send event_start w)
              q).world)
  unfolding on_acquired run_deferred
  on_acquired-Kept w q ready (back, kept) =
      let taken : World = record (send event_start w) { pending = q.pending } in
      let told = announce q.action taken in
      if_cases (λ (r : Served). Kept w (run_deferred c r.deferred r.slot r.world)) (not q.admitted)
        _ _
        (λ e.
          let same : q.pending ≡ w.pending = kept (ground (arith, e)) in
          Kept-trans w taken (send event_finish told)
            ((λ j. rw same refl), (λ _. refl), (λ _. refl)) (announce-Kept q.action taken))
        (λ e.
          let r =
            do_fake_tls_handshake same_month month_of now hmac tolerate s a told (slot_of q.slot) in
          let at : Kept w (finished told (slot_of q.slot)) =
            Kept-trans w (finished taken (slot_of q.slot)) (finished told (slot_of q.slot))
              (given_back w q q.slot back)
              (finished-Kept taken told (slot_of q.slot) (announce-Kept q.action taken)) in
          on_handshake-Settled w told (slot_of q.slot) (defer_release q.slot) r ready at
            (do_fake_tls_handshake-IsFinished same_month month_of now hmac tolerate s a told
              (slot_of q.slot))
            (deferred_release c q.slot))

  -- Whatever the network answers, ServeConn of a stream that is not registered yet leaves every
  -- pending-handshake counter, every user's number of connections and every name's live
  -- connections as they were, for counters below 2^32-1 and numbers of connections below 2^64.
  pub serve_conn-restores :
      (w : World)
      → IsReady c w
      → ((addr : Bytes) → count w.pending addr + 1 < u32_mod)
      → Kept w
          (serve_conn same_month month_of now hmac tolerate sha256 key_stream addresses s a c w)
  unfolding serve_conn serve_body run_deferred
  serve_conn-restores w ready bound =
      if_both (λ (r : Served). Kept w (run_deferred c r.deferred r.slot r.world))
        (not a.deadline_set) _ _ (Kept-refl w)
        (on_acquired-Kept w
          (acquire w.pending a.client_ip s.pending_handshakes_per_ip s.pending_handshakes_dry_run)
          ready
          (acquire-IsReturned w.pending a.client_ip s.pending_handshakes_per_ip
            s.pending_handshakes_dry_run bound))
