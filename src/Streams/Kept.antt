-- ===== src/Streams/Kept.antt =====
-- mtglib/proxy.go: what the shared state counts of the streams, and when two states count the same.
use mathlib.Core.Path.{subst}
use mtg_multi.Prelude.{
  ℕ, ◌<◌, ◌≡◌, refl, sym, ap, ◌∙◌, Bool, true, false, Bool-cases, inl, inr, Option, none, some,
}
use mtg_multi.Prelude.Bytes.{Bytes}
use mtg_multi.Admission.PendingHandshakes.{Pending, Slot, count, release}
use mtg_multi.Admission.PendingHandshakes.Accounting.{count-release}
use mtg_multi.Stats.{i64_mod}
use mtg_multi.Stats.Counters.Connections.{conns}
use mtg_multi.Secrets.Swap.Live.{live, holds}
use mtg_multi.Streams.{World, finish_slot, finish_pending_handshake}

-- The slots of an address, the connections of a user and the registered streams of a name.
abbrev pub Kept : World → World → Type 0
Kept w w' =
    ((addr : Bytes) → count w.pending addr ≡ count w'.pending addr)
    × ((j : Bytes) → conns w.proxy.stats j ≡ conns w'.proxy.stats j)
    × ((j : Bytes) → live w.proxy j ≡ live w'.proxy j)

pub Kept-refl : (w : World) → Kept w w
Kept-refl w = ((λ _. refl), (λ _. refl), (λ _. refl))

pub Kept-trans : (w w' w'' : World) → Kept w w' → Kept w' w'' → Kept w w''
Kept-trans w w' w'' (a, b, c) (a', b', c') =
    ((λ x. a x ∙ a' x), (λ x. b x ∙ b' x), (λ x. c x ∙ c' x))

pub Kept-sym : (w w' : World) → Kept w w' → Kept w' w
Kept-sym w w' (a, b, c) = ((λ x. sym (a x)), (λ x. sym (b x)), (λ x. sym (c x)))

-- The stream is not registered, and the connections of a user fit their counter.
abbrev pub IsReady : ℕ → World → Type 0
IsReady c w =
    ((j : Bytes) → conns w.proxy.stats j < i64_mod)
    × ((j : Bytes) → holds c (live w.proxy j) ≡ false)

pub Kept-IsReady : (c : ℕ) (w w' : World) → Kept w w' → IsReady c w → IsReady c w'
Kept-IsReady c w w' (p, q, r) (bound, absent) =
    ((λ j. rw (← q j) (bound j)), (λ j. rw (← r j) (absent j)))

release_same :
    (p p' : Pending) (addr j : Bytes)
    → ((x : Bytes) → count p x ≡ count p' x)
    → count (release p addr) j ≡ count (release p' addr) j
release_same p p' addr j e =
    count-release p addr j ∙ rw (e addr, e j) (sym (count-release p' addr j))

-- The state once the slot is released.
abbrev pub finished : World → Option Slot → World
finished w slot = (finish_pending_handshake w slot).0

pub finished-Kept :
    (w w' : World) (slot : Option Slot) → Kept w w' → Kept (finished w slot) (finished w' slot)
unfolding finish_pending_handshake finish_slot
finished-Kept w w' none k = k
finished-Kept w w' (some s) (p, q, r) = elim (Bool-cases s.done) [
  | inl e ↦ rw e (p, q, r)
  | inr e ↦ rw e ((λ j. release_same w.pending w'.pending s.addr j p), q, r)
]

-- The slot after its release does not depend on the counters, and releasing it again does nothing.
pub finished_slot :
    (w w' : World) (slot : Option Slot)
    → (finish_pending_handshake w slot).1 ≡ (finish_pending_handshake w' slot).1
unfolding finish_pending_handshake finish_slot
finished_slot w w' none = refl
finished_slot w w' (some s) = elim (Bool-cases s.done) [ inl e ↦ rw e refl | inr e ↦ rw e refl ]

slot_twice :
    (p : Pending) (addr : Bytes) (done : Bool)
    → finish_slot
        (finish_slot p (some record { addr = addr; done = done })).0
        (finish_slot p (some record { addr = addr; done = done })).1
      ≡ finish_slot p (some record { addr = addr; done = done })
unfolding finish_slot
slot_twice p addr true = refl
slot_twice p addr false = refl

pub finished_twice :
    (w : World) (slot : Option Slot)
    → finish_pending_handshake (finished w slot) (finish_pending_handshake w slot).1
      ≡ finish_pending_handshake w slot
unfolding finish_pending_handshake finish_slot
finished_twice w none = refl
finished_twice w (some s) =
    ap (λ (q : Pending × Option Slot). (record w { pending = q.0 }, q.1))
      (slot_twice w.pending s.addr s.done)

pub finished_again :
    (w : World) (slot : Option Slot)
    → Kept (finished w slot) (finished (finished w slot) (finish_pending_handshake w slot).1)
finished_again w slot =
    subst (λ (p : World × Option Slot). Kept (finished w slot) p.0) (sym (finished_twice w slot))
      (Kept-refl (finished w slot))
