-- ===== src/Streams/Authentic.antt =====
-- mtglib/proxy.go: who gets past doFakeTLSHandshake, and what becomes of the others.
use mtg_multi.Prelude.{
  ℕ, ◌≡◌, ◌≢◌, refl, Bool, true, false, not, ◌⊎◌, inl, inr, Option, none, some, List, [], ◌∷◌,
  if_cases, Fallible, ok, err, arith, map,
}
use mtg_multi.Prelude.Bytes.{Bytes}
use mtg_multi.Admission.PendingHandshakes.{Slot}
use mtg_multi.Secrets.{Secret, SecretLimits, deny_none, check_limits}
use mtg_multi.Fake.{HelloError, is_empty}
use mtg_multi.Fake.Hello.{ClientHello, Matched, matched, unmatched, read_client_hello_multi}
use mtg_multi.Streams.{
  Settings, Answers, World, with_stats, End, no_server_hello, panicked, fronted, no_fronting,
  Session, fronting_host, front_host, do_domain_fronting, effective_ad_tag, entry_at, is_allowed,
  check_session, on_hello, with_first, do_fake_tls_handshake, event_replay_attack, send,
}
use mtg_multi.Streams.Entries.{
  IsEntry, zip_entry-some, IsMissing, zip_entry-none, IsAdTag, effective_ad_tag-IsAdTag,
  deny_none_lem, denied, IsFirstHost, IsHelloHost, IsAddress, fronting_host-IsAddress,
}

module _ {ℓ} {M : Type ℓ} (same_month : M → M → Bool) (month_of : ℕ → M) (now : ℕ)
    (hmac : Bytes → Bytes → Bytes) (tolerate : ℕ) (s : Settings) (a : Answers) where
  -- The hello is taken for a secret of the set, it is no replay and the limits of the secret allow.
  abbrev pub IsAdmitted :
      World → Fallible HelloError Matched → ℕ → Secret → Bytes → SecretLimits → Type 0
  IsAdmitted w r i secret name limits =
      ((hello : ClientHello) × (host : Bytes) × (r ≡ ok (matched hello i host)))
      × IsEntry w.proxy.secrets i secret name limits
      × (a.seen_before ≡ false)
      × ((check_limits same_month month_of w.proxy.stats name limits now).1 ≡ deny_none)

  -- Why a client is not served: no hello of the set, a replay, or limits that deny.
  abbrev pub IsTurnedAway : World → Fallible HelloError Matched → Type 0
  IsTurnedAway w (err e) = true ≡ true
  IsTurnedAway w (ok (unmatched host)) = true ≡ true
  IsTurnedAway w (ok (matched hello i host)) =
      (a.seen_before ≡ true)
      ⊎ ((secret : Secret) × (name : Bytes) × (limits : SecretLimits) × IsEntry w.proxy.secrets i
            secret name limits
          × ((check_limits same_month month_of w.proxy.stats name limits now).1 ≢ deny_none))

  -- The fronting domain of a client that is turned away.
  abbrev pub IsFronting : World → Fallible HelloError Matched → Bytes → Type 0
  IsFronting w r addr =
      IsTurnedAway w r
      × ((host : Bytes) × IsHelloHost w.proxy.secrets r host
          × IsAddress s.domain_fronting_host host addr)

  -- What the handshake came to: a session only for one who is admitted, with that secret's key,
  -- name and tag; no answer only when it could not be sent to one who is admitted; an index out of
  -- range only where the set has no secret or not that one; and else the fronting domain.
  abbrev pub IsChecked : World → Fallible HelloError Matched → End ⊎ Session → Type 0
  IsChecked w r (inr session) =
      (i : ℕ) × (secret : Secret) × (limits : SecretLimits) × IsAdmitted w r i secret
        session.secret_name limits
      × (session.matched_secret_key ≡ secret.key)
      × IsAdTag w.proxy.secrets i session.ad_tag
  IsChecked w r (inl (fronted addr)) = IsFronting w r addr × (a.fronting_dials ≡ true)
  IsChecked w r (inl (no_fronting addr)) = IsFronting w r addr × (a.fronting_dials ≡ false)
  IsChecked w r (inl no_server_hello) =
      ((i : ℕ) × (secret : Secret) × (name : Bytes) × (limits : SecretLimits) × IsAdmitted w r i
          secret name limits)
      × (a.server_hello_sent ≡ false)
  IsChecked w r (inl panicked) =
      (w.proxy.secrets.secrets ≡ [])
      ⊎ ((i : ℕ) × ((hello : ClientHello) × (host : Bytes) × (r ≡ ok (matched hello i host)))
          × IsMissing w.proxy.secrets i)
  IsChecked w r (inl e) = true ≡ false

  do_domain_fronting-IsChecked :
      (w w' : World) (r : Fallible HelloError Matched) (slot : Option Slot) (host : Bytes)
      → IsTurnedAway w r
      → IsHelloHost w.proxy.secrets r host
      → IsChecked w r (do_domain_fronting s a w' slot host).2
  unfolding do_domain_fronting
  do_domain_fronting-IsChecked w w' r slot host away is =
      let fronting : IsFronting w r (fronting_host s host) =
        (away, (host, is, fronting_host-IsAddress s host)) in
      if_cases (λ e. IsChecked w r (inl e)) a.fronting_dials _ _ (λ d. (fronting, d))
        (λ d. (fronting, d))

  check_session-IsChecked :
      (w : World) (slot : Option Slot) (hello : ClientHello) (i : ℕ) (host : Bytes)
      (o : Option (Secret × (Bytes × SecretLimits)))
      → entry_at w.proxy.secrets i ≡ o
      → a.seen_before ≡ false
      → IsChecked w
          (ok (matched hello i host))
          (check_session same_month month_of now hmac tolerate s a w slot host o
            (effective_ad_tag w.proxy.secrets i)).2
  unfolding check_session
  check_session-IsChecked w slot hello i host none at fresh =
      inr (i, (hello, host, refl), zip_entry-none _ _ _ (unfold entry_at in at))
  check_session-IsChecked w slot hello i host (some (secret, (name, limits))) at fresh =
      let st = check_limits same_month month_of w.proxy.stats name limits now in
      let r : Fallible HelloError Matched = ok (matched hello i host) in
      let P : World × Option Slot × (End ⊎ Session) → Type 0 = λ x. IsChecked w r x.2 in
      let entry : IsEntry w.proxy.secrets i secret name limits =
        zip_entry-some _ _ _ secret name limits (unfold entry_at in at) in
      if_cases P (not (is_allowed st.1)) _ _
        (λ d.
          do_domain_fronting-IsChecked w (with_stats (λ _. st.0) w) r slot host
            (inr (secret, name, limits, entry, denied st.1 (ground (arith, d)))) refl)
        (λ allowed.
          let admitted : IsAdmitted w r i secret name limits =
            ((hello, host, refl), entry, fresh, deny_none_lem st.1 (ground (arith, allowed))) in
          if_cases P (not a.server_hello_sent) _ _
            (λ f. ((i, secret, name, limits, admitted), ground (arith, f)))
            (λ f. (i, secret, limits, admitted, refl, effective_ad_tag-IsAdTag w.proxy.secrets i)))

  -- Without a secret on the list there is no first host.
  abbrev HasFirst : World → Bytes → Fallible HelloError Matched → Type 0
  HasFirst w first (ok (matched hello i host)) = true ≡ true
  HasFirst w first r = IsFirstHost w.proxy.secrets first

  front_host-IsHelloHost :
      (w : World) (first host : Bytes)
      → IsFirstHost w.proxy.secrets first
      → IsHelloHost w.proxy.secrets (ok (unmatched host)) (front_host first host)
  unfolding is_empty
  front_host-IsHelloHost w first [] f = f
  front_host-IsHelloHost w first (b ∷ host) f = refl

  on_hello-IsChecked :
      (w : World) (slot : Option Slot) (first : Bytes) (r : Fallible HelloError Matched)
      → HasFirst w first r
      → IsChecked w r (on_hello same_month month_of now hmac tolerate s a w slot first r).2
  unfolding on_hello
  on_hello-IsChecked w slot first (err e) f =
      do_domain_fronting-IsChecked w w (err e) slot first refl f
  on_hello-IsChecked w slot first (ok (unmatched host)) f =
      do_domain_fronting-IsChecked w w (ok (unmatched host)) slot (front_host first host) refl
        (front_host-IsHelloHost w first host f)
  on_hello-IsChecked w slot first (ok (matched hello i host)) f =
      let r : Fallible HelloError Matched = ok (matched hello i host) in
      if_cases (λ (x : World × Option Slot × (End ⊎ Session)). IsChecked w r x.2) a.seen_before _ _
        (λ seen.
          do_domain_fronting-IsChecked w (send event_replay_attack w) r slot host (inl seen) refl)
        (λ fresh. check_session-IsChecked w slot hello i host _ refl fresh)

  HasFirst-cons :
      (w : World) (secret : Secret) (secrets : List Secret) (r : Fallible HelloError Matched)
      → w.proxy.secrets.secrets ≡ secret ∷ secrets
      → HasFirst w secret.host r
  HasFirst-cons w secret secrets (err e) same = (secret, secrets, same, refl)
  HasFirst-cons w secret secrets (ok (unmatched host)) same = (secret, secrets, same, refl)
  HasFirst-cons w secret secrets (ok (matched hello i host)) same = refl

  with_first-IsChecked :
      (w : World) (slot : Option Slot) (secrets : List Secret) (r : Fallible HelloError Matched)
      → w.proxy.secrets.secrets ≡ secrets
      → IsChecked w r (with_first same_month month_of now hmac tolerate s a w slot secrets r).2
  unfolding with_first
  with_first-IsChecked w slot [] (err e) same = inl same
  with_first-IsChecked w slot [] (ok (unmatched host)) same = inl same
  with_first-IsChecked w slot [] (ok (matched hello i host)) same =
      on_hello-IsChecked w slot [] (ok (matched hello i host)) refl
  with_first-IsChecked w slot (secret ∷ secrets) r same =
      on_hello-IsChecked w slot secret.host r (HasFirst-cons w secret secrets r same)

  -- doFakeTLSHandshake gives a session only to a client whose hello was taken for a secret of the
  -- set, is no replay and has limits that allow it, with that secret's key and name and its own
  -- tag or else the global one; whoever has no such hello, replays one or is denied goes to the
  -- configured fronting host, or else to the host of the hello, or else to that of the first
  -- secret, and is relayed there exactly if it can be dialled; else an admitted client's server
  -- hello could not be sent, or the set has no secret or not that index.
  pub do_fake_tls_handshake-IsChecked :
      (w : World) (slot : Option Slot)
      → IsChecked w
          (read_client_hello_multi hmac now tolerate
            (map (λ (k : Secret). k.key) w.proxy.secrets.secrets)
            w.proxy.secrets.hostnames
            a.input)
          (do_fake_tls_handshake same_month month_of now hmac tolerate s a w slot).2
  unfolding do_fake_tls_handshake
  do_fake_tls_handshake-IsChecked w slot =
      with_first-IsChecked w slot w.proxy.secrets.secrets _ refl
