-- ===== src/Admission/PendingHandshakes/Verdict.antt =====
-- When pendingHandshakes.acquire lets a connection through, and what it reports.
use mtg_multi.Prelude.{
  ℕ, ◌≡◌, Bool, false, not, ◌&&◌, ◌||◌, Option, none, some, leb, ◌==◌, if◌then◌else◌, arith,
}
use mtg_multi.Prelude.Bytes.{Bytes}
use mtg_multi.Admission.PendingHandshakes.{
  Pending, no_action, pending_handshake_rejected, pending_handshake_observed, count, take_slot,
  acquire_at, acquire, addr_of,
}

abbrev over : Pending → Option Bytes → ℕ → Bool
over p none limit = false
over p (some addr) limit = leb limit (count p addr)

acquire_at_verdict :
    (p : Pending) (o : Option Bytes) (limit : ℕ) (dry_run : Bool)
    → ((acquire_at p o limit dry_run).admitted ≡ (dry_run || not (over p o limit)))
      × ((acquire_at p o limit dry_run).action ≡ (
          if over p o limit
          then (if dry_run then pending_handshake_observed else pending_handshake_rejected)
          else no_action))
unfolding acquire_at take_slot
acquire_at_verdict p none limit dry_run = ground arith
acquire_at_verdict p (some addr) limit dry_run = ground arith

-- A connection is turned away exactly when the limit is on and enforced and its address has used
-- it up; an address over the limit is reported, as rejected or, in a dry run, as observed.
pub acquire_verdict :
    (p : Pending) (ip : Bytes) (limit : ℕ) (dry_run : Bool)
    → let over_limit = not (limit == 0) && over p (addr_of ip) limit in
      ((acquire p ip limit dry_run).admitted ≡ (dry_run || not over_limit))
      × ((acquire p ip limit dry_run).action ≡ (
          if over_limit
          then (if dry_run then pending_handshake_observed else pending_handshake_rejected)
          else no_action))
unfolding acquire
acquire_verdict p ip limit dry_run = ground (arith, acquire_at_verdict p (addr_of ip) limit dry_run)
