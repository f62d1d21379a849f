-- ===== src/Middleproxy/Manager/Outcome.antt =====
-- mtglib/internal/middleproxy/manager.go: what DialProxyStream comes to.
use mathlib.Core.Path.{subst}
use mtg_multi.Prelude.{◌≡◌, refl, sym, Option, List, [], ◌∷◌, Fallible, err, ok, All}
use mtg_multi.Prelude.Bytes.{Bytes}
use mtg_multi.Middleproxy.Exchange.{Outside}
use mtg_multi.Middleproxy.Manager.{
  Manager, Site, MiddleAddress, ordered_addresses, DialParams, Peer, DialError, not_fetched,
  no_secret, no_address, none_connects, Connected, dial_addresses, with_addresses, with_secret,
  on_ready, dial_proxy_stream, FetchError, ensure_ready,
}
use mtg_multi.Middleproxy.Manager.Offers.{IsOffered, ordered_addresses-IsOffered}
use mtg_multi.Middleproxy.Manager.Dials.{Fails, opened, IsVerdict, dial_addresses-IsVerdict}

module _ (o : Outside) (dial : MiddleAddress → Option Peer) (conn_id : Bytes) where
  -- The outcome of DialProxyStream: which of its errors means what, and that every address tried is
  -- one that is offered.
  abbrev pub IsDialled :
      Site
      → Manager
      → DialParams
      → Manager
      → List MiddleAddress
      → Fallible DialError Connected
      → Type 0
  IsDialled site m params m' closed (err (not_fetched e)) =
      (ensure_ready site m ≡ err e) × (m' ≡ m) × (closed ≡ [])
  IsDialled site m params m' closed (err no_secret) =
      (ensure_ready site m ≡ ok m') × (m'.secret ≡ []) × (closed ≡ [])
  IsDialled site m params m' closed (err no_address) =
      (ensure_ready site m ≡ ok m') × (ordered_addresses m' params.dc ≡ []) × (closed ≡ [])
  IsDialled site m params m' closed (err none_connects) =
      (ensure_ready site m ≡ ok m')
      × All (Fails o dial conn_id m'.secret params) (ordered_addresses m' params.dc)
      × (closed ≡ opened o dial conn_id (ordered_addresses m' params.dc))
  IsDialled site m params m' closed (ok c) =
      (ensure_ready site m ≡ ok m')
      × IsVerdict o dial conn_id m'.secret params (ordered_addresses m' params.dc) closed (ok c)
      × All (IsOffered m' params.dc) (ordered_addresses m' params.dc)

  from_verdict :
      (site : Site) (m m' : Manager) (params : DialParams) (closed : List MiddleAddress)
      (r : Fallible DialError Connected)
      → ensure_ready site m ≡ ok m'
      → IsVerdict o dial conn_id m'.secret params (ordered_addresses m' params.dc) closed r
      → IsDialled site m params m' closed r
  from_verdict site m m' params closed (err (not_fetched e)) ready v = let h = v.0 in absurd (cc)
  from_verdict site m m' params closed (err no_secret) ready v = let h = v.0 in absurd (cc)
  from_verdict site m m' params closed (err no_address) ready v = let h = v.0 in absurd (cc)
  from_verdict site m m' params closed (err none_connects) ready v = (ready, v.1, v.2)
  from_verdict site m m' params closed (ok c) ready v =
      (ready, v, ordered_addresses-IsOffered m' params.dc)

  with_addresses-IsDialled :
      (site : Site) (m m' : Manager) (params : DialParams) (addrs : List MiddleAddress)
      → ensure_ready site m ≡ ok m'
      → ordered_addresses m' params.dc ≡ addrs
      → let (closed, r) = with_addresses o dial conn_id m'.secret params addrs in
        IsDialled site m params m' closed r
  unfolding with_addresses
  with_addresses-IsDialled site m m' params [] ready ordered = (ready, ordered, refl)
  with_addresses-IsDialled site m m' params (a ∷ rest) ready ordered =
      from_verdict site m m' params _ _ ready (
        subst
          (λ addrs.
            let (closed, r) = dial_addresses o dial conn_id m'.secret params (a ∷ rest) in
            IsVerdict o dial conn_id m'.secret params addrs closed r)
          (sym ordered) (dial_addresses-IsVerdict o dial conn_id m'.secret params (a ∷ rest)))

  with_secret-IsDialled :
      (site : Site) (m m' : Manager) (params : DialParams) (secret : Bytes)
      → ensure_ready site m ≡ ok m'
      → m'.secret ≡ secret
      → let (closed, r) = with_secret o dial conn_id m' params secret in
        IsDialled site m params m' closed r
  unfolding with_secret
  with_secret-IsDialled site m m' params [] ready has = (ready, has, refl)
  with_secret-IsDialled site m m' params (x ∷ secret) ready has =
      subst
        (λ s.
          let (closed, r) =
            with_addresses o dial conn_id s params (ordered_addresses m' params.dc) in
          IsDialled site m params m' closed r)
        has (with_addresses-IsDialled site m m' params _ ready refl)

  on_ready-IsDialled :
      (site : Site) (m : Manager) (params : DialParams) (r : Fallible FetchError Manager)
      → ensure_ready site m ≡ r
      → let (m', closed, end) = on_ready o dial conn_id m params r in
        IsDialled site m params m' closed end
  unfolding on_ready
  on_ready-IsDialled site m params (err e) h = (h, refl, refl)
  on_ready-IsDialled site m params (ok m') h = with_secret-IsDialled site m m' params _ h refl

  -- DialProxyStream connects to the first of the ordered addresses that can be dialled and passes
  -- the handshake, every one of which is listed for the DC with either sign in a table that the
  -- preference allows, and closes exactly the connections opened before it; each of its errors is
  -- returned only for its reason, with all connections that were opened closed.
  pub dial_proxy_stream-IsDialled :
      (site : Site) (m : Manager) (params : DialParams)
      → let (m', closed, end) = dial_proxy_stream o dial conn_id site m params in
        IsDialled site m params m' closed end
  unfolding dial_proxy_stream
  dial_proxy_stream-IsDialled site m params = on_ready-IsDialled site m params _ refl
