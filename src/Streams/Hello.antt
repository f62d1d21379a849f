-- ===== src/Streams/Hello.antt =====
-- mtglib/proxy.go: doFakeTLSHandshake counts nothing but the release of its slot.
use mtg_multi.Prelude.{
  ℕ, ◌≡◌, refl, sym, Bool, true, not, ◌⊎◌, Option, none, some, List, [], ◌∷◌, if_both, Fallible, ok,
  err,
}
use mtg_multi.Prelude.Bytes.{Bytes}
use mtg_multi.Admission.PendingHandshakes.{Slot}
use mtg_multi.Secrets.{Secret, SecretLimits, check_limits}
use mtg_multi.Secrets.Limits.{conns-check_limits}
use mtg_multi.Fake.{HelloError}
use mtg_multi.Fake.Hello.{Matched, matched, unmatched}
use mtg_multi.Streams.{
  Settings, Answers, World, send, with_stats, finish_slot, event_replay_attack,
  event_domain_fronting, finish_pending_handshake, End, Session, do_domain_fronting, front_host,
  is_allowed, check_session, on_hello, with_first, do_fake_tls_handshake,
}
use mtg_multi.Streams.Kept.{Kept, Kept-refl, Kept-trans, finished, finished-Kept, finished_again}

-- A stream without a slot gets none.
abbrev pub IsGiven : Option Slot → Option Slot → Type 0
IsGiven none slot' = slot' ≡ none
IsGiven (some s) slot' = true ≡ true

pub same-IsGiven : (slot : Option Slot) → IsGiven slot slot
same-IsGiven none = refl
same-IsGiven (some s) = refl

pub finish-IsGiven :
    (w : World) (slot : Option Slot) → IsGiven slot (finish_pending_handshake w slot).1
unfolding finish_pending_handshake finish_slot
finish-IsGiven w none = refl
finish-IsGiven w (some s) = refl

-- Once the slot is released, the state counts what it counted before, its slot released.
abbrev pub IsFinished : World → Option Slot → World × Option Slot × (End ⊎ Session) → Type 0
IsFinished w slot r = Kept (finished w slot) (finished r.0 r.1) × IsGiven slot r.1

do_domain_fronting-IsFinished :
    (s : Settings) (a : Answers) (w w' : World) (slot : Option Slot) (host : Bytes)
    → Kept w w'
    → IsFinished w slot (do_domain_fronting s a w' slot host)
unfolding do_domain_fronting
do_domain_fronting-IsFinished s a w w' slot host k =
    let once = finished w' slot in
    let slot' = (finish_pending_handshake w' slot).1 in
    (
      Kept-trans (finished w slot) once (finished (send event_domain_fronting once) slot')
          (finished-Kept w w' slot k)
          (Kept-trans once (finished once slot') (finished (send event_domain_fronting once) slot')
            (finished_again w' slot)
            (finished-Kept once (send event_domain_fronting once) slot' (Kept-refl once))),
      finish-IsGiven w' slot,
    )

module _ {ℓ} {M : Type ℓ} (same_month : M → M → Bool) (month_of : ℕ → M) (now : ℕ)
    (hmac : Bytes → Bytes → Bytes) (tolerate : ℕ) (s : Settings) (a : Answers) where
  check_session-IsFinished :
      (w : World) (slot : Option Slot) (host : Bytes) (o : Option (Secret × (Bytes × SecretLimits)))
      (tag : Option Bytes)
      → IsFinished w slot
          (check_session same_month month_of now hmac tolerate s a w slot host o tag)
  unfolding check_session
  check_session-IsFinished w slot host none tag = (Kept-refl (finished w slot), same-IsGiven slot)
  check_session-IsFinished w slot host (some (secret, (name, limits))) tag =
      let r = check_limits same_month month_of w.proxy.stats name limits now in
      let w' : World = with_stats (λ _. r.0) w in
      let k : Kept w w' = (
        (λ _. refl),
        (λ j. sym (conns-check_limits same_month month_of w.proxy.stats name limits now j)),
        (λ _. refl),
      ) in
      if_both (IsFinished w slot) (not (is_allowed r.1)) _ _
        (do_domain_fronting-IsFinished s a w w' slot host k)
        (if_both (IsFinished w slot) (not a.server_hello_sent) _ _
          (finished-Kept w w' slot k, same-IsGiven slot)
          (finished-Kept w w' slot k, same-IsGiven slot))

  on_hello-IsFinished :
      (w : World) (slot : Option Slot) (first : Bytes) (r : Fallible HelloError Matched)
      → IsFinished w slot (on_hello same_month month_of now hmac tolerate s a w slot first r)
  unfolding on_hello
  on_hello-IsFinished w slot first (err e) =
      do_domain_fronting-IsFinished s a w w slot first (Kept-refl w)
  on_hello-IsFinished w slot first (ok (unmatched host)) =
      do_domain_fronting-IsFinished s a w w slot (front_host first host) (Kept-refl w)
  on_hello-IsFinished w slot first (ok (matched hello i host)) =
      if_both (IsFinished w slot) a.seen_before _ _
        (do_domain_fronting-IsFinished s a w (send event_replay_attack w) slot host (Kept-refl w))
        (check_session-IsFinished w slot host _ _)

  with_first-IsFinished :
      (w : World) (slot : Option Slot) (secrets : List Secret) (r : Fallible HelloError Matched)
      → IsFinished w slot (with_first same_month month_of now hmac tolerate s a w slot secrets r)
  unfolding with_first
  with_first-IsFinished w slot [] (err e) = (Kept-refl (finished w slot), same-IsGiven slot)
  with_first-IsFinished w slot [] (ok (unmatched host)) =
      (Kept-refl (finished w slot), same-IsGiven slot)
  with_first-IsFinished w slot [] (ok (matched hello i host)) =
      on_hello-IsFinished w slot [] (ok (matched hello i host))
  with_first-IsFinished w slot (secret ∷ secrets) r = on_hello-IsFinished w slot secret.host r

  pub do_fake_tls_handshake-IsFinished :
      (w : World) (slot : Option Slot)
      → IsFinished w slot (do_fake_tls_handshake same_month month_of now hmac tolerate s a w slot)
  unfolding do_fake_tls_handshake
  do_fake_tls_handshake-IsFinished w slot = with_first-IsFinished w slot w.proxy.secrets.secrets _
