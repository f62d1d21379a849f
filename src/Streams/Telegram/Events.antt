-- ===== src/Streams/Telegram/Events.antt =====
-- mtglib/proxy.go: the call to Telegram changes nothing that is counted.
use mtg_multi.Prelude.{ℕ, not, Option, none, some, List, if_both}
use mtg_multi.Prelude.Bytes.{Bytes}
use mtg_multi.Prelude.Ints.{ℤ}
use mtg_multi.Streams.{Addr, Settings, Answers, World}
use mtg_multi.Streams.Kept.{Kept, Kept-refl}
use mtg_multi.Streams.Telegram.{
  Call, connected, on_dialled, call_direct, call_middle, do_telegram_call,
}

module _ (addresses : ℕ → List Addr) (s : Settings) (a : Answers) where
  connected-Kept :
      (w : World) (dc : ℤ) (addr : Addr) (o : Option Bytes)
      → Kept w (connected addresses s a w dc addr o).0
  unfolding connected
  connected-Kept w dc addr none = Kept-refl w
  connected-Kept w dc addr (some host) = Kept-refl w

  on_dialled-Kept :
      (w : World) (dc : ℤ) (o : Option Addr) → Kept w (on_dialled addresses s a w dc o).0
  unfolding on_dialled
  on_dialled-Kept w dc none = Kept-refl w
  on_dialled-Kept w dc (some addr) =
      if_both (λ (p : World × Call). Kept w p.0) (not a.handshake_sent) _ _ (Kept-refl w)
        (connected-Kept w dc addr (a.split_host_port addr.address))

  call_direct-Kept : (w : World) (dc : ℤ) → Kept w (call_direct addresses s a w dc).0
  unfolding call_direct
  call_direct-Kept w dc = on_dialled-Kept w _ _

  call_middle-Kept :
      (w : World) (dc : ℤ) (o : Option Bytes) → Kept w (call_middle addresses s a w dc o).0
  unfolding call_middle
  call_middle-Kept w dc none = call_direct-Kept w dc
  call_middle-Kept w dc (some ip) = Kept-refl w

  pub do_telegram_call-Kept :
      (w : World) (dc : ℤ) (tag : Option Bytes) → Kept w (do_telegram_call addresses s a w dc tag).0
  unfolding do_telegram_call
  do_telegram_call-Kept w dc none = call_direct-Kept w dc
  do_telegram_call-Kept w dc (some tag) =
      if_both (λ (p : World × Call). Kept w p.0) s.middle_proxy _ _ (call_middle-Kept w dc a.middle)
        (call_direct-Kept w dc)
