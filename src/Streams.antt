-- ===== src/Streams.antt =====
-- mtglib/proxy.go and stream_context.go: one client's connection through ServeConn, from its
-- admission to the relay, and the deferred calls that end it. What the network, the clock and the
-- libraries answer is `Answers`; the components are those of the other modules.
pub mod Telegram
pub mod Serve
pub mod Addresses
pub mod Kept
pub mod Entries
pub mod Authentic
mod Runs
pub mod Hello
use mtg_multi.Prelude.{
  ℕ, zero, suc, ◌+◌, ◌≡◌, Bool, true, false, not, ◌&&◌, ◌||◌, Option, none, some, List, [], ◌∷◌,
  ◌++◌, length, get_elem?, ◌⊎◌, inl, inr, ◌==◌, if◌then◌else◌, Fallible, ok, err, ◌>>=◌, map,
}
use mtg_multi.Prelude.Bytes.{Bytes}
use mtg_multi.Prelude.Ints.{ℤ, pos, negsuc, nat_abs}
use mtg_multi.Admission.PendingHandshakes.{
  Action, no_action, Pending, Slot, Acquired, acquire, release,
}
use mtg_multi.Stats.{ProxyStats, can_connect, on_connect, on_disconnect, update_last_seen}
use mtg_multi.Stats.Counters.{Move, count_moves}
use mtg_multi.Secrets.{Secret, SecretSet, SecretLimits, DenyReason, deny_none, check_limits}
use mtg_multi.Secrets.Swap.{Proxy, register_conn, unregister_conn}
use mtg_multi.Fake.{HelloError, is_empty}
use mtg_multi.Fake.Hello.{ClientHello, Matched, matched, unmatched, read_client_hello_multi}
use mtg_multi.Obfuscation.{HandshakeError, Conn, read_handshake, default_dc}

-- dc.Addr
pub record Addr : Type 0 where
  pub network : Bytes
  pub address : Bytes

-- The events of a stream, and of the connections that do not become one.
pub data StreamEvent : Type 0 where
  event_start event_finish event_domain_fronting event_replay_attack : StreamEvent
  event_pending_handshake_limit : Action → StreamEvent
  event_throttled : Bytes → StreamEvent
  event_connected_to_dc : Bytes → ℤ → StreamEvent

-- The settings of a proxy that a stream reads.
pub record Settings : Type 0 where
  pub pending_handshakes_per_ip : ℕ
  pub pending_handshakes_dry_run : Bool
  pub domain_fronting_host : Bytes
  pub allow_fallback_on_unknown_dc : Bool
  pub middle_proxy : Bool

-- What the rest of the world answers to one stream.
pub record Answers : Type 0 where
  pub client_ip : Bytes
  pub deadline_set : Bool
  pub input : Bytes
  pub seen_before : Bool
  pub server_hello_sent : Bool
  pub fronting_dials : Bool
  pub doppelganger : Bool
  -- What arrives inside the TLS records.
  pub inner : Bytes
  pub deadline_cleared : Bool
  -- DialProxyStream: the address of the middle proxy.
  pub middle : Option Bytes
  pub dials : Addr → Bool
  pub handshake_sent : Bool
  pub split_host_port : Bytes → Option Bytes
  pub moves : List Move

-- The state that streams share.
pub record World : Type 0 where
  pub pending : Pending
  pub proxy : Proxy
  pub events : List StreamEvent

abbrev pub send : StreamEvent → World → World
send e w = record w { events = w.events ++ (e ∷ []) }

abbrev pub with_stats : (ProxyStats → ProxyStats) → World → World
with_stats f w = record w { proxy = record w.proxy { stats = f w.proxy.stats } }

-- releasePendingHandshake, behind its sync.Once.
pub finish_slot : Pending → Option Slot → Pending × Option Slot
finish_slot p none = (p, none)
finish_slot p (some s) =
    if s.done then (p, some s) else (release p s.addr, some record s { done = true })

pub finish_pending_handshake : World → Option Slot → World × Option Slot
finish_pending_handshake w slot =
    let (p, slot') = finish_slot w.pending slot in (record w { pending = p }, slot')

-- A call that ServeConn defers.
pub data Deferred : Type 0 where
  send_finish : Deferred
  release_slot : Deferred
  call_on_disconnect : Bytes → Deferred
  call_unregister_conn : Bytes → Deferred

-- What a stream came to: the fronting domain that it was relayed to or that could not be dialled, a
-- relay with Telegram, or the step that ended it. `panicked` is an index out of range.
pub data End : Type 0 where
  no_deadline not_admitted no_server_hello throttled no_doppelganger bad_obfuscation : End
  deadline_kept no_telegram panicked : End
  fronted no_fronting : Bytes → End
  relayed : ℤ → End

-- What the handshakes leave in streamContext.
pub record Session : Type 0 where
  pub matched_secret_key : Bytes
  pub secret_name : Bytes
  pub ad_tag : Option Bytes

abbrev pub override_or {ℓ} : {A : Type ℓ} → Option A → Option A → Option A
override_or (some a) b = some a
override_or none b = b

abbrev pub flatten {ℓ} : {A : Type ℓ} → Option (Option A) → Option A
flatten none = none
flatten (some o) = o

pub effective_ad_tag : SecretSet → ℕ → Option Bytes
effective_ad_tag set i = override_or (flatten (get_elem? set.ad_tags i)) set.global_ad_tag

abbrev pub is_allowed : DenyReason → Bool
is_allowed deny_none = true
is_allowed _ = false

-- The host that a stream is fronted to.
pub fronting_host : Settings → Bytes → Bytes
fronting_host s host = if is_empty s.domain_fronting_host then host else s.domain_fronting_host

-- doDomainFrontingForHost up to its relay.
pub do_domain_fronting :
    Settings → Answers → World → Option Slot → Bytes → World × Option Slot × (End ⊎ Session)
unfolding fronting_host
do_domain_fronting s a w slot host =
    let (w', slot') = finish_pending_handshake w slot in
    let addr = fronting_host s host in
    (
      send event_domain_fronting w',
      slot',
      inl (if a.fronting_dials then fronted addr else no_fronting addr),
    )

-- frontHost
abbrev pub front_host : Bytes → Bytes → Bytes
front_host first host = if is_empty host then first else host

abbrev pub zip_entry :
    Option Secret → Option Bytes → Option SecretLimits → Option (Secret × (Bytes × SecretLimits))
zip_entry (some secret) (some name) (some limits) = some (secret, (name, limits))
zip_entry _ _ _ = none

-- secrets[i], names[i] and limits[i].
pub entry_at : SecretSet → ℕ → Option (Secret × (Bytes × SecretLimits))
entry_at set i =
    zip_entry (get_elem? set.secrets i) (get_elem? set.names i) (get_elem? set.limits i)

module _ {ℓ} {M : Type ℓ} (same_month : M → M → Bool) (month_of : ℕ → M) (now : ℕ)
    (hmac : Bytes → Bytes → Bytes) (tolerate : ℕ) (s : Settings) (a : Answers) where
  -- From the matched secret on: the limits, then the server hello.
  pub check_session :
      World
      → Option Slot
      → Bytes
      → Option (Secret × (Bytes × SecretLimits))
      → Option Bytes
      → World × Option Slot × (End ⊎ Session)
  check_session w slot host none tag = (w, slot, inl panicked)
  check_session w slot host (some (secret, (name, limits))) tag =
      let (st, reason) = check_limits same_month month_of w.proxy.stats name limits now in
      let w' = with_stats (λ _. st) w in
      if not (is_allowed reason)
      then do_domain_fronting s a w' slot host
      else if not a.server_hello_sent
      then (w', slot, inl no_server_hello)
      else (
        w',
        slot,
        inr record { matched_secret_key = secret.key; secret_name = name; ad_tag = tag },
      )

  pub on_hello :
      World
      → Option Slot
      → Bytes
      → Fallible HelloError Matched
      → World × Option Slot × (End ⊎ Session)
  on_hello w slot first (err e) = do_domain_fronting s a w slot first
  on_hello w slot first (ok (unmatched host)) =
      do_domain_fronting s a w slot (front_host first host)
  on_hello w slot first (ok (matched hello i host)) =
      if a.seen_before
      then do_domain_fronting s a (send event_replay_attack w) slot host
      else check_session w slot host (entry_at w.proxy.secrets i)
          (effective_ad_tag w.proxy.secrets i)

  with_first :
      World
      → Option Slot
      → List Secret
      → Fallible HelloError Matched
      → World × Option Slot × (End ⊎ Session)
  with_first w slot [] (err e) = (w, slot, inl panicked)
  with_first w slot [] (ok (unmatched host)) = (w, slot, inl panicked)
  with_first w slot [] (ok (matched hello i host)) = on_hello w slot [] (ok (matched hello i host))
  with_first w slot (secret ∷ secrets) r = on_hello w slot secret.host r

  -- doFakeTLSHandshake
  pub do_fake_tls_handshake : World → Option Slot → World × Option Slot × (End ⊎ Session)
  do_fake_tls_handshake w slot = with_first w slot w.proxy.secrets.secrets (
      read_client_hello_multi hmac now tolerate
        (map (λ (k : Secret). k.key) w.proxy.secrets.secrets) w.proxy.secrets.hostnames a.input)
