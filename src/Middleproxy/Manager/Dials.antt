-- ===== src/Middleproxy/Manager/Dials.antt =====
-- mtglib/internal/middleproxy/manager.go: which middle proxy a stream is connected to, and what
-- becomes of the connections that were tried.
use mtg_multi.Prelude.{
  ◌≡◌, refl, sym, ap, ◌∙◌, ◌⊎◌, inl, inr, Option, none, some, List, [], ◌∷◌, ◌++◌, Fallible, err,
  ok, All,
}
use mtg_multi.Prelude.Bytes.{Bytes}
use mtg_multi.Middleproxy.Frame.{FrameConn}
use mtg_multi.Middleproxy.Exchange.{Outside, ExchangeError}
use mtg_multi.Middleproxy.Manager.{
  MiddleAddress, DialParams, Peer, to_tcp_addr, DialError, none_connects, Connected,
  new_middle_conn, shake, on_shaken, on_peer, dial_addresses,
}

module _ (o : Outside) (dial : MiddleAddress → Option Peer) (conn_id : Bytes) where
  -- An address that cannot be dialled, or whose peer fails the handshake.
  abbrev pub Fails : Bytes → DialParams → MiddleAddress → Type 0
  Fails secret params a =
      (dial a ≡ none)
      ⊎ ((peer : Peer) × (e : ExchangeError) × (dial a ≡ some peer)
          × (shake o secret params peer ≡ err e))

  -- The addresses that a connection was opened to.
  opened_to : Option Peer → MiddleAddress → List MiddleAddress → List MiddleAddress
  opened_to none a rest = rest
  opened_to (some _) a rest = a ∷ rest

  pub opened : List MiddleAddress → List MiddleAddress
  unfolding opened_to
  opened [] = []
  opened (a ∷ rest) = opened_to (dial a) a (opened rest)

  -- The connection is to the first address that takes part, and all opened before it are closed; or
  -- none takes part and all that were opened are closed.
  abbrev pub IsVerdict :
      Bytes
      → DialParams
      → List MiddleAddress
      → List MiddleAddress
      → Fallible DialError Connected
      → Type 0
  IsVerdict secret params addrs closed (err e) =
      (e ≡ none_connects) × All (Fails secret params) addrs × (closed ≡ opened addrs)
  IsVerdict secret params addrs closed (ok c) =
      (before : List MiddleAddress) × (a : MiddleAddress) × (after : List MiddleAddress)
      × (peer : Peer) × (frame : FrameConn) × (addrs ≡ before ++ a ∷ after)
      × All (Fails secret params) before
      × (closed ≡ opened before)
      × (dial a ≡ some peer)
      × (shake o secret params peer ≡ ok frame)
      × (c ≡ record {
        conn = new_middle_conn conn_id params (to_tcp_addr peer.local) frame;
        remote = to_tcp_addr peer.remote;
      })

  -- One more address in front that fails.
  behind :
      (secret : Bytes) (params : DialParams) (a : MiddleAddress)
      (addrs closed closed' : List MiddleAddress) (r : Fallible DialError Connected)
      → Fails secret params a
      → ((xs : List MiddleAddress) → closed ≡ opened xs → closed' ≡ opened (a ∷ xs))
      → IsVerdict secret params addrs closed r
      → IsVerdict secret params (a ∷ addrs) closed' r
  behind secret params a addrs closed closed' (err e) failed more (h, all, was) =
      (h, (failed, all), more addrs was)
  behind secret params a addrs closed closed' (ok c) failed more
        (before, b, after, peer, frame, split, all, was, dialled, shook, same) =
      (
        a ∷ before,
        b,
        after,
        peer,
        frame,
        ap (λ xs. a ∷ xs) split,
        (failed, all),
        more before was,
        dialled,
        shook,
        same,
      )

  opened-some :
      (a : MiddleAddress) (peer : Peer) (xs : List MiddleAddress)
      → dial a ≡ some peer
      → a ∷ opened xs ≡ opened (a ∷ xs)
  unfolding opened
  opened-some a peer xs dialled = ap (λ r. opened_to r a (opened xs)) (sym dialled)

  opened-none :
      (a : MiddleAddress) (xs : List MiddleAddress) → dial a ≡ none → opened xs ≡ opened (a ∷ xs)
  unfolding opened
  opened-none a xs out = ap (λ r. opened_to r a (opened xs)) (sym out)

  -- What a round makes of the verdict of the rounds after it.
  abbrev Next : Bytes → DialParams → List MiddleAddress → Type 0
  Next secret params addrs =
      (closed : List MiddleAddress) × (r : Fallible DialError Connected) × IsVerdict secret params
        addrs closed r

  on_shaken-IsVerdict :
      (secret : Bytes) (params : DialParams) (a : MiddleAddress) (rest : List MiddleAddress)
      (peer : Peer) (next : Next secret params rest) (f : Fallible ExchangeError FrameConn)
      → dial a ≡ some peer
      → shake o secret params peer ≡ f
      → let (closed, r) = on_shaken o dial conn_id params a peer (next.0, next.1) f in
        IsVerdict secret params (a ∷ rest) closed r
  unfolding on_shaken
  on_shaken-IsVerdict secret params a rest peer (closed, r, v) (err e) dialled shook =
      behind secret params a rest closed (a ∷ closed) r (inr (peer, e, dialled, shook))
        (λ xs was. ap (λ ys. a ∷ ys) was ∙ opened-some a peer xs dialled) v
  on_shaken-IsVerdict secret params a rest peer next (ok frame) dialled shook =
      ([], a, rest, peer, frame, refl, tt, unfold opened in refl, dialled, shook, refl)

  on_peer-IsVerdict :
      (secret : Bytes) (params : DialParams) (a : MiddleAddress) (rest : List MiddleAddress)
      (next : Next secret params rest) (p : Option Peer)
      → dial a ≡ p
      → let (closed, r) = on_peer o dial conn_id secret params a (next.0, next.1) p in
        IsVerdict secret params (a ∷ rest) closed r
  unfolding on_peer
  on_peer-IsVerdict secret params a rest (closed, r, v) none out =
      behind secret params a rest closed closed r (inl out) (λ xs was. was ∙ opened-none a xs out) v
  on_peer-IsVerdict secret params a rest next (some peer) dialled =
      on_shaken-IsVerdict secret params a rest peer next _ dialled refl

  pub dial_addresses-IsVerdict :
      (secret : Bytes) (params : DialParams) (addrs : List MiddleAddress)
      → let (closed, r) = dial_addresses o dial conn_id secret params addrs in
        IsVerdict secret params addrs closed r
  unfolding dial_addresses
  dial_addresses-IsVerdict secret params [] = (refl, tt, unfold opened in refl)
  dial_addresses-IsVerdict secret params (a ∷ rest) =
      on_peer-IsVerdict secret params a rest
        (
          (dial_addresses o dial conn_id secret params rest).0,
          (dial_addresses o dial conn_id secret params rest).1,
          dial_addresses-IsVerdict secret params rest,
        )
        (dial a) refl
