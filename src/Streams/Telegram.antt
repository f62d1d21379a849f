-- ===== src/Streams/Telegram.antt =====
-- mtglib/proxy.go: the call to Telegram of a stream, doTelegramCall and doMiddleProxyCall. The
-- addresses of a DC are those that Telegram.GetAddresses gives in this call.
pub mod Events
pub mod Dials
use mtg_multi.Prelude.{
  ℕ, zero, suc, Bool, true, false, not, ◌&&◌, Option, none, some, List, [], ◌∷◌, if◌then◌else◌,
}
use mtg_multi.Prelude.Bytes.{Bytes}
use mtg_multi.Prelude.Ints.{ℤ, pos, negsuc, nat_abs}
use mtg_multi.Streams.{Addr, Settings, Answers, World, StreamEvent, event_connected_to_dc, send}

-- dc.DefaultDC, with the sign of the one that was asked for.
abbrev pub fallback_dc : ℤ → ℤ
fallback_dc (pos n) = pos 2
fallback_dc (negsuc n) = negsuc 1

abbrev pub is_no_address : List Addr → Bool
is_no_address [] = true
is_no_address (_ ∷ _) = false

-- The first address that can be dialled; an error of the last one is an error.
pub dial_first : (Addr → Bool) → List Addr → Option Addr
dial_first dials [] = none
dial_first dials (x ∷ xs) = if dials x then some x else dial_first dials xs

-- What a call leaves: the connection that was made, or none.
pub data Call : Type 0 where
  not_called : Call
  direct : Addr → ℤ → Call
  through_middle : Bytes → ℤ → Call

module _ (addresses : ℕ → List Addr) (s : Settings) (a : Answers) where
  -- The DC that is called and its addresses.
  pub choose_dc : ℤ → ℤ × List Addr
  choose_dc dc =
      if is_no_address (addresses (nat_abs dc)) && s.allow_fallback_on_unknown_dc
      then (fallback_dc dc, addresses 2)
      else (dc, addresses (nat_abs dc))

  connected : World → ℤ → Addr → Option Bytes → World × Call
  connected w dc addr none = (w, not_called)
  connected w dc addr (some host) = (send (event_connected_to_dc host dc) w, direct addr dc)

  on_dialled : World → ℤ → Option Addr → World × Call
  on_dialled w dc none = (w, not_called)
  on_dialled w dc (some addr) =
      if not a.handshake_sent
      then (w, not_called)
      else connected w dc addr (a.split_host_port addr.address)

  pub call_direct : World → ℤ → World × Call
  call_direct w dc = let (dc', addrs) = choose_dc dc in on_dialled w dc' (dial_first a.dials addrs)

  -- doMiddleProxyCall, and the direct call when it fails.
  call_middle : World → ℤ → Option Bytes → World × Call
  call_middle w dc none = call_direct w dc
  call_middle w dc (some ip) = (send (event_connected_to_dc ip dc) w, through_middle ip dc)

  pub do_telegram_call : World → ℤ → Option Bytes → World × Call
  do_telegram_call w dc none = call_direct w dc
  do_telegram_call w dc (some tag) =
      if s.middle_proxy then call_middle w dc a.middle else call_direct w dc
