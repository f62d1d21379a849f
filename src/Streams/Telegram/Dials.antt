-- ===== src/Streams/Telegram/Dials.antt =====
-- mtglib/proxy.go: the address that doTelegramCall connects to directly.
use mtg_multi.Prelude.{
  ℕ, ◌≡◌, refl, ap, Bool, true, false, not, ◌&&◌, ◌⊎◌, inl, inr, Option, none, some, List, [], ◌∷◌,
  ◌++◌, if_cases, arith, All,
}
use mtg_multi.Prelude.Bytes.{Bytes}
use mtg_multi.Prelude.Ints.{ℤ, pos, negsuc, neg, nat_abs}
use mtg_multi.Streams.{Addr, Settings, Answers, World}
use mtg_multi.Streams.Telegram.{
  Call, not_called, direct, through_middle, fallback_dc, is_no_address, dial_first, choose_dc,
  connected, on_dialled, call_direct, call_middle, do_telegram_call,
}

-- The address can be dialled and none before it can.
abbrev pub IsFirstDialled : (Addr → Bool) → List Addr → Addr → Type 0
IsFirstDialled dials addrs x =
    (before after : List Addr) × (addrs ≡ before ++ (x ∷ after))
    × (dials x ≡ true)
    × All (λ y. dials y ≡ false) before

abbrev IsDial : (Addr → Bool) → List Addr → Option Addr → Type 0
IsDial dials addrs none = All (λ y. dials y ≡ false) addrs
IsDial dials addrs (some x) = IsFirstDialled dials addrs x

after_refusal :
    (dials : Addr → Bool) (x : Addr) (xs : List Addr) (o : Option Addr)
    → dials x ≡ false
    → IsDial dials xs o
    → IsDial dials (x ∷ xs) o
after_refusal dials x xs none f d = (f, d)
after_refusal dials x xs (some y) f (before, after, e, g, d) =
    (x ∷ before, after, ap (λ (l : List Addr). x ∷ l) e, g, (f, d))

dial_first-IsDial :
    (dials : Addr → Bool) (addrs : List Addr) → IsDial dials addrs (dial_first dials addrs)
unfolding dial_first
dial_first-IsDial dials [] = tt
dial_first-IsDial dials (x ∷ xs) =
    if_cases (IsDial dials (x ∷ xs)) (dials x) _ _ (λ e. ([], xs, refl, e, tt))
      (λ e. after_refusal dials x xs (dial_first dials xs) e (dial_first-IsDial dials xs))

-- The default DC, 2, with the sign of the one that was asked for.
abbrev pub IsDefault : ℤ → ℤ → Type 0
IsDefault (pos n) dc' = dc' ≡ pos 2
IsDefault (negsuc n) dc' = dc' ≡ neg (pos 2)

fallback_dc-IsDefault : (dc : ℤ) → IsDefault dc (fallback_dc dc)
fallback_dc-IsDefault (pos n) = refl
fallback_dc-IsDefault (negsuc n) = refl

module _ (addresses : ℕ → List Addr) (s : Settings) (a : Answers) where
  -- The DC that is called is the one that was asked for, or, where that has no addresses and the
  -- fallback is allowed, the default one with the same sign.
  abbrev pub IsChosen : ℤ → ℤ → List Addr → Type 0
  IsChosen dc dc' addrs =
      ((dc' ≡ dc) × (addrs ≡ addresses (nat_abs dc)))
      ⊎ (IsDefault dc dc'
          × (addresses (nat_abs dc) ≡ [])
          × (s.allow_fallback_on_unknown_dc ≡ true)
          × (addrs ≡ addresses 2))

  -- No call is made only if no address can be dialled, or the one that can is not to be had. A
  -- direct call is to the first address of the DC that can be dialled; one through the middle proxy
  -- is made only for a tag and keeps the DC.
  abbrev pub IsCall : ℤ → Option Bytes → Call → Type 0
  IsCall dc tag not_called =
      (dc' : ℤ) × (addrs : List Addr) × IsChosen dc dc' addrs
      × (All (λ y. a.dials y ≡ false) addrs
          ⊎ ((addr : Addr) × IsFirstDialled a.dials addrs addr
              × ((a.handshake_sent ≡ false) ⊎ (a.split_host_port addr.address ≡ none))))
  IsCall dc tag (direct addr dc') =
      (addrs : List Addr) × IsChosen dc dc' addrs
      × IsFirstDialled a.dials addrs addr
      × (a.handshake_sent ≡ true)
  IsCall dc none (through_middle ip dc') = true ≡ false
  IsCall dc (some tag) (through_middle ip dc') =
      (s.middle_proxy ≡ true) × (a.middle ≡ some ip) × (dc' ≡ dc)

  no_addresses : (addrs : List Addr) → is_no_address addrs ≡ true → addrs ≡ []
  no_addresses [] e = refl
  no_addresses (x ∷ xs) e = let q : false ≡ true = e in cc

  choose_dc-IsChosen :
      (dc : ℤ) → IsChosen dc (choose_dc addresses s a dc).0 (choose_dc addresses s a dc).1
  unfolding choose_dc
  choose_dc-IsChosen dc =
      if_cases (λ (p : ℤ × List Addr). IsChosen dc p.0 p.1)
        (is_no_address (addresses (nat_abs dc)) && s.allow_fallback_on_unknown_dc) _ _
        (λ e. inr (
          fallback_dc-IsDefault dc,
          no_addresses (addresses (nat_abs dc)) (ground (arith, e)),
          ground (arith, e),
          refl,
        ))
        (λ _. inl (refl, refl))

  connected-IsCall :
      (w : World) (dc dc' : ℤ) (tag : Option Bytes) (addrs : List Addr) (x : Addr)
      (o : Option Bytes)
      → a.split_host_port x.address ≡ o
      → IsChosen dc dc' addrs
      → IsFirstDialled a.dials addrs x
      → a.handshake_sent ≡ true
      → IsCall dc tag (connected addresses s a w dc' x o).1
  unfolding connected
  connected-IsCall w dc dc' tag addrs x none e c d h = (dc', addrs, c, inr (x, d, inr e))
  connected-IsCall w dc dc' tag addrs x (some host) e c d h = (addrs, c, d, h)

  on_dialled-IsCall :
      (w : World) (dc dc' : ℤ) (tag : Option Bytes) (addrs : List Addr) (o : Option Addr)
      → IsChosen dc dc' addrs
      → IsDial a.dials addrs o
      → IsCall dc tag (on_dialled addresses s a w dc' o).1
  unfolding on_dialled
  on_dialled-IsCall w dc dc' tag addrs none c d = (dc', addrs, c, inl d)
  on_dialled-IsCall w dc dc' tag addrs (some x) c d =
      if_cases (λ (p : World × Call). IsCall dc tag p.1) (not a.handshake_sent) _ _
        (λ h. (dc', addrs, c, inr (x, d, inl (ground (arith, h)))))
        (λ h. connected-IsCall w dc dc' tag addrs x _ refl c d (ground (arith, h)))

  call_direct-IsCall :
      (w : World) (dc : ℤ) (tag : Option Bytes) → IsCall dc tag (call_direct addresses s a w dc).1
  unfolding call_direct
  call_direct-IsCall w dc tag =
      let p = choose_dc addresses s a dc in
      on_dialled-IsCall w dc p.0 tag p.1 (dial_first a.dials p.1) (choose_dc-IsChosen dc)
        (dial_first-IsDial a.dials p.1)

  call_middle-IsCall :
      (w : World) (dc : ℤ) (tag : Bytes) (o : Option Bytes)
      → s.middle_proxy ≡ true
      → a.middle ≡ o
      → IsCall dc (some tag) (call_middle addresses s a w dc o).1
  unfolding call_middle
  call_middle-IsCall w dc tag none m e = call_direct-IsCall w dc (some tag)
  call_middle-IsCall w dc tag (some ip) m e = (m, e, refl)

  -- A direct call of doTelegramCall connects to the first address that can be dialled of the DC
  -- that was asked for, or, where that has no addresses and the fallback is allowed, of DC 2,
  -- negative where the one that was asked for is; it fails only if no address can be dialled, the
  -- handshake cannot be sent or the address cannot be split; a call through the middle proxy is
  -- made only for a tag and keeps the DC.
  pub do_telegram_call-IsCall :
      (w : World) (dc : ℤ) (tag : Option Bytes)
      → IsCall dc tag (do_telegram_call addresses s a w dc tag).1
  unfolding do_telegram_call
  do_telegram_call-IsCall w dc none = call_direct-IsCall w dc none
  do_telegram_call-IsCall w dc (some tag) =
      if_cases (λ (p : World × Call). IsCall dc (some tag) p.1) s.middle_proxy _ _
        (λ m. call_middle-IsCall w dc tag a.middle m refl) (λ _. call_direct-IsCall w dc (some tag))
