-- ===== src/Streams/Serve/Unwinding.antt =====
-- mtglib/proxy.go: what the deferred calls of ServeConn do to what is counted of the streams.
use mathlib.Core.Path.{subst}
use mtg_multi.Prelude.{
  ℕ, ◌<◌, ◌≡◌, refl, sym, ap, ◌∙◌, false, inl, inr, Option, none, some, List, [], ◌∷◌, Bool-cases,
  bytes_eq, bytes_eq_iff, arith,
}
use mtg_multi.Prelude.Bytes.{Bytes}
use mtg_multi.Admission.PendingHandshakes.{
  Action, no_action, pending_handshake_rejected, pending_handshake_observed, Slot, Acquired, count,
}
use mtg_multi.Admission.PendingHandshakes.Returns.{returned}
use mtg_multi.Stats.{
  ProxyStats, add_i64, minus_one, i64_mod, on_connect, on_disconnect, update_last_seen,
}
use mtg_multi.Stats.Counters.{Move, count_moves}
use mtg_multi.Stats.Counters.Connections.{
  conns, conns-on_connect, conns-on_disconnect, conns-update_last_seen, conns-count_moves,
}
use mtg_multi.Secrets.Swap.{Proxy, register_conn, unregister_conn, remove_conn}
use mtg_multi.Secrets.Swap.Live.{
  stats-unregister_conn, stats-register_conn, live, live-register_conn, live-unregister_conn, holds,
  remove_conn-add_conn,
}
use mtg_multi.Streams.{
  World, send, event_start, with_stats, finish_pending_handshake, finish_slot, Deferred,
  send_finish, release_slot, call_on_disconnect, call_unregister_conn,
}
use mtg_multi.Streams.Kept.{Kept, Kept-refl, Kept-trans, finished, finished-Kept, finished_slot}
use mtg_multi.Streams.Hello.{IsGiven, finish-IsGiven}
use mtg_multi.Streams.Serve.{announce, slot_of, defer_release, Served, run_deferred}

on_disconnect-Kept :
    (w w' : World) (name : Bytes)
    → Kept w w'
    → Kept
        (with_stats (λ st. on_disconnect st name) w)
        (with_stats (λ st. on_disconnect st name) w')
on_disconnect-Kept w w' name (p, q, r) = (
  p,
  (λ j.
      conns-on_disconnect w.proxy.stats name j
      ∙ rw (q name, q j) (sym (conns-on_disconnect w'.proxy.stats name j))),
  r,
)

unregister_conn-Kept :
    (w w' : World) (name : Bytes) (c : ℕ)
    → Kept w w'
    → Kept
        (record w { proxy = unregister_conn name c w.proxy })
        (record w' { proxy = unregister_conn name c w'.proxy })
unregister_conn-Kept w w' name c (p, q, r) = (
  p,
  (λ j.
      ap (λ (st : ProxyStats). conns st j) (stats-unregister_conn w.proxy name c)
      ∙ q j
      ∙ sym (ap (λ (st : ProxyStats). conns st j) (stats-unregister_conn w'.proxy name c))),
  (λ j.
      live-unregister_conn w.proxy name j c
      ∙ rw (r name, r j) (sym (live-unregister_conn w'.proxy name j c))),
)

-- The deferred calls do to a state what they do to one that counts the same.
pub run_deferred-Kept :
    (c : ℕ) (ds : List Deferred) (slot : Option Slot) (w w' : World)
    → Kept w w'
    → Kept (run_deferred c ds slot w) (run_deferred c ds slot w')
unfolding run_deferred
run_deferred-Kept c [] slot w w' k = k
run_deferred-Kept c (send_finish ∷ ds) slot w w' k = run_deferred-Kept c ds slot _ _ k
run_deferred-Kept c (release_slot ∷ ds) slot w w' k =
    subst
      (λ (given : Option Slot).
        Kept (run_deferred c ds (finish_pending_handshake w slot).1 (finished w slot))
          (run_deferred c ds given (finished w' slot)))
      (finished_slot w w' slot)
      (run_deferred-Kept c ds (finish_pending_handshake w slot).1 (finished w slot)
        (finished w' slot) (finished-Kept w w' slot k))
run_deferred-Kept c (call_on_disconnect name ∷ ds) slot w w' k =
    run_deferred-Kept c ds slot _ _ (on_disconnect-Kept w w' name k)
run_deferred-Kept c (call_unregister_conn name ∷ ds) slot w w' k =
    run_deferred-Kept c ds slot _ _ (unregister_conn-Kept w w' name c k)

there_and_back : (n : ℕ) → n < i64_mod → add_i64 (add_i64 n 1) minus_one ≡ n
there_and_back n bound = ground (arith, bound)

conns_back :
    (st : ProxyStats) (name j : Bytes) (now : ℕ)
    → conns st name < i64_mod
    → conns (on_disconnect (update_last_seen (on_connect st name) name now) name) j ≡ conns st j
conns_back st name j now bound =
    let st' = update_last_seen (on_connect st name) name now in
    let at : (x : Bytes) → conns st' x ≡ conns (on_connect st name) x =
      conns-update_last_seen (on_connect st name) name now in
    conns-on_disconnect st' name j ∙ elim (Bool-cases (bytes_eq name j)) [
      | inl e ↦ rw e (
          ap (λ (n : ℕ). add_i64 n minus_one)
            (at name ∙ conns-on_connect st name name ∙ rw ((bytes_eq_iff name name).1 refl) refl)
          ∙ there_and_back (conns st name) bound
          ∙ ap (conns st) ((bytes_eq_iff name j).0 e))
      | inr e ↦ rw e (at j ∙ conns-on_connect st name j ∙ rw e refl)
    ]

pub connected-Kept :
    (w : World) (name : Bytes) (now : ℕ)
    → conns w.proxy.stats name < i64_mod
    → Kept w (
        with_stats
          (λ st. on_disconnect st name)
          (with_stats (λ _. update_last_seen (on_connect w.proxy.stats name) name now) w))
connected-Kept w name now bound =
    ((λ _. refl), (λ j. sym (conns_back w.proxy.stats name j now bound)), (λ _. refl))

live_back :
    (p : Proxy) (name j : Bytes) (c : ℕ)
    → holds c (live p name) ≡ false
    → live (unregister_conn name c (register_conn name c p)) j ≡ live p j
live_back p name j c absent =
    live-unregister_conn (register_conn name c p) name j c ∙ elim (Bool-cases (bytes_eq name j)) [
      | inl e ↦ rw e (
          ap (remove_conn c)
            (live-register_conn p name name c ∙ rw ((bytes_eq_iff name name).1 refl) refl)
          ∙ remove_conn-add_conn c (live p name) absent
          ∙ ap (live p) ((bytes_eq_iff name j).0 e))
      | inr e ↦ rw e (live-register_conn p name j c ∙ rw e refl)
    ]

pub registered-Kept :
    (w : World) (name : Bytes) (c : ℕ)
    → holds c (live w.proxy name) ≡ false
    → Kept w (record w { proxy = unregister_conn name c (register_conn name c w.proxy) })
registered-Kept w name c absent = (
  (λ _. refl),
  (λ j. sym (
      ap (λ (st : ProxyStats). conns st j)
        (stats-unregister_conn (register_conn name c w.proxy) name c
          ∙ stats-register_conn w.proxy name c))),
  (λ j. sym (live_back w.proxy name j c absent)),
)

pub counted-Kept :
    (w w' : World) (name : Bytes) (ms : List Move)
    → Kept w w'
    → Kept w (with_stats (λ st. count_moves st name ms) w')
counted-Kept w w' name ms (p, q, r) =
    (p, (λ j. q j ∙ sym (conns-count_moves w'.proxy.stats name ms j)), r)

-- The deferred calls of a stream lead to what those that were due before lead to.
abbrev pub Settled : ℕ → List Deferred → Option Slot → World → Served → Type 0
Settled c ds slot w r = Kept (run_deferred c ds slot w) (run_deferred c r.deferred r.slot r.world)

pub IsGiven-twice :
    (slot slot' : Option Slot) (w : World)
    → IsGiven slot slot'
    → IsGiven slot (finish_pending_handshake w slot').1
IsGiven-twice none slot' w g = rw g (finish-IsGiven w none)
IsGiven-twice (some s) slot' w g = refl

-- From what one state leads to, and what it was to lead to.
pub Settled-trans :
    (c : ℕ) (ds ds' : List Deferred) (slot slot' : Option Slot) (w w' : World) (r : Served)
    → Kept (run_deferred c ds slot w) (run_deferred c ds' slot' w')
    → Settled c ds' slot' w' r
    → Settled c ds slot w r
Settled-trans c ds ds' slot slot' w w' r k t =
    Kept-trans (run_deferred c ds slot w) (run_deferred c ds' slot' w')
      (run_deferred c r.deferred r.slot r.world) k t

pub announce-Kept : (action : Action) (w : World) → Kept w (announce action w)
unfolding announce
announce-Kept no_action w = Kept-refl w
announce-Kept pending_handshake_rejected w = Kept-refl w
announce-Kept pending_handshake_observed w = Kept-refl w

-- A slot that was taken, given back.
pub given_back :
    (w : World) (q : Acquired) (o : Option Bytes)
    → ((j : Bytes) → count (returned q o) j ≡ count w.pending j)
    → Kept w (finished (record (send event_start w) { pending = q.pending }) (slot_of o))
unfolding finish_pending_handshake finish_slot
given_back w q none back = ((λ j. sym (back j)), (λ _. refl), (λ _. refl))
given_back w q (some addr) back = ((λ j. sym (back j)), (λ _. refl), (λ _. refl))

-- The calls that are deferred at the handshake release the slot and nothing else.
pub deferred_release :
    (c : ℕ) (o : Option Bytes) (given : Option Slot) (x : World)
    → IsGiven (slot_of o) given
    → Kept (finished x given) (run_deferred c (defer_release o) given x)
unfolding run_deferred finish_pending_handshake finish_slot
deferred_release c none given x g = rw g (Kept-refl x)
deferred_release c (some addr) given x g = Kept-refl (finished x given)
