-- ===== src/Admission/PendingHandshakes.antt =====
-- mtglib/pending_handshakes.go: the limit on concurrent unauthenticated handshakes of an address.
-- A call holds the mutex throughout. The function that acquire returns is a slot with its
-- sync.Once: the slot remembers whether it was released.
pub mod Accounting
pub mod Verdict
pub mod Returns
mod Runs
use mtg_multi.Prelude.{
  ℕ, zero, suc, ◌+◌, ◌-◌, ◌%◌, ◌^◌, Bool, true, false, not, ◌&&◌, ◌||◌, Option, none, some, List,
  [], ◌∷◌, ◌++◌, length, take, drop, leb, ◌==◌, if◌then◌else◌, bytes_eq, bytes_key,
}
use mtg_multi.Prelude.Bytes.{Bytes}
use mtg_multi.Prelude.Map.{Map, lookup, insert, erase}

pub data Action : Type 0 where
  no_action pending_handshake_rejected pending_handshake_observed : Action

-- netip.AddrFromSlice and Unmap: 4 or 16 bytes, and an IPv4-mapped address as its 4 bytes.
abbrev pub mapped_prefix : Bytes
mapped_prefix = 0 ∷ 0 ∷ 0 ∷ 0 ∷ 0 ∷ 0 ∷ 0 ∷ 0 ∷ 0 ∷ 0 ∷ 0xff ∷ 0xff ∷ []

pub addr_of : Bytes → Option Bytes
addr_of ip =
    if length ip == 4
    then some ip
    else if length ip == 16
    then (if bytes_eq (take 12 ip) mapped_prefix then some (drop 12 ip) else some ip)
    else none

abbrev pub Pending : Type 0
Pending = Map Bytes ℕ

abbrev or_zero : Option ℕ → ℕ
or_zero none = 0
or_zero (some n) = n

-- `p.pending[addr]`
unfoldable pub count : Pending → Bytes → ℕ
count p addr = or_zero (lookup addr p)

pub record Acquired : Type 0 where
  pub pending : Pending
  pub slot : Option Bytes
  pub action : Action
  pub admitted : Bool

abbrev pub u32_mod : ℕ
u32_mod = 4294967296

pub take_slot : Pending → Bytes → ℕ → Bool → Acquired
unfolding count
take_slot p addr limit dry_run =
    let over_limit = leb limit (count p addr) in
    if over_limit && not dry_run
    then record { pending = p; slot = none; action = pending_handshake_rejected; admitted = false }
    else record {
      pending = insert addr ((count p addr + 1) % u32_mod) p;
      slot = some addr;
      action = if over_limit then pending_handshake_observed else no_action;
      admitted = true;
    }

abbrev pub unchecked : Pending → Acquired
unchecked p = record { pending = p; slot = none; action = no_action; admitted = true }

pub acquire_at : Pending → Option Bytes → ℕ → Bool → Acquired
acquire_at p none limit dry_run = unchecked p
acquire_at p (some addr) limit dry_run = take_slot p addr limit dry_run

pub acquire : Pending → Bytes → ℕ → Bool → Acquired
acquire p ip limit dry_run =
    if limit == 0 then unchecked p else acquire_at p (addr_of ip) limit dry_run

-- The body of the release function, inside the sync.Once.
pub release : Pending → Bytes → Pending
unfolding count
release p addr = if leb (count p addr) 1 then erase addr p else insert addr (count p addr - 1) p

pub pending_for : Pending → Bytes → ℕ
pending_for p ip = elim (addr_of ip) [ none ↦ 0 | some addr ↦ count p addr ]

pub tracked_ips : Pending → ℕ
tracked_ips p = length p

-- A slot that a stream holds, and whether its release function has run.
pub record Slot : Type 0 where
  pub addr : Bytes
  pub done : Bool

pub record Handshakes : Type 0 where
  pub pending : Pending
  pub slots : List Slot

-- A stream arrives, or one that was admitted calls its release function (once more).
pub data Event : Type 0 where
  arrives : Bytes → Event
  releases : ℕ → Event

abbrev pub hold : Option Bytes → List Slot → List Slot
hold none slots = slots
hold (some addr) slots = record { addr = addr; done = false } ∷ slots

pub run_release : Pending → List Slot → ℕ → Pending × List Slot
run_release p [] i = (p, [])
run_release p (s ∷ ss) zero =
    if s.done then (p, s ∷ ss) else (release p s.addr, record s { done = true } ∷ ss)
run_release p (s ∷ ss) (suc i) = let (p', ss') = run_release p ss i in (p', s ∷ ss')

pub step : ℕ → Bool → Handshakes → Event → Handshakes
step limit dry_run h (arrives ip) =
    let a = acquire h.pending ip limit dry_run in
    record { pending = a.pending; slots = hold a.slot h.slots }
step limit dry_run h (releases i) =
    let (p, ss) = run_release h.pending h.slots i in record { pending = p; slots = ss }

pub run : ℕ → Bool → Handshakes → List Event → Handshakes
run limit dry_run h [] = h
run limit dry_run h (e ∷ es) = run limit dry_run (step limit dry_run h e) es
