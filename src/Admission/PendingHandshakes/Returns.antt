-- ===== src/Admission/PendingHandshakes/Returns.antt =====
-- mtglib/pending_handshakes.go: acquiring a slot and giving it back.
use mtg_multi.Prelude.{
  ℕ, ◌+◌, ◌%◌, ◌<◌, ◌≡◌, refl, ap, Bool, true, false, not, ◌&&◌, Option, none, some, leb, ◌==◌,
  Bool-cases, if_both, bytes_eq, bytes_eq_iff, bytes_key, inl, inr, arith,
}
use mtg_multi.Prelude.Bytes.{Bytes}
use mtg_multi.Prelude.Map.{insert}
use mtg_multi.Admission.PendingHandshakes.{
  Pending, count, Acquired, take_slot, acquire_at, acquire, release, addr_of, u32_mod,
}
use mtg_multi.Admission.PendingHandshakes.Accounting.{count-insert, count-release}

-- What giving back the slot that was taken, if any, leaves.
abbrev pub returned : Acquired → Option Bytes → Pending
returned q none = q.pending
returned q (some addr) = release q.pending addr

-- The counters are as before once the slot is given back, and where none was given.
abbrev pub IsReturned : Pending → Acquired → Type 0
IsReturned p q =
    ((j : Bytes) → count (returned q q.slot) j ≡ count p j) × (q.admitted ≡ false → q.pending ≡ p)

taken_back :
    (p : Pending) (addr j : Bytes)
    → count p addr + 1 < u32_mod
    → count (release (insert addr ((count p addr + 1) % u32_mod) p) addr) j ≡ count p j
taken_back p addr j bound =
    let n = (count p addr + 1) % u32_mod in
    rw (count-release (insert addr n p) addr j, count-insert p addr addr n, count-insert p addr j n)
      (elim (Bool-cases (bytes_eq addr j)) [
        | inl f ↦
            (let self : bytes_eq addr addr ≡ true = (bytes_eq_iff addr addr).1 refl in
              let m : (count p addr + 1) % u32_mod ≡ count p addr + 1 = omega (arith, bound) in
              let q : count p addr ≡ count p j = ap (count p) ((bytes_eq_iff addr j).0 f) in
              rw (f, self, m) (omega (arith, q)))
        | inr f ↦ rw f refl
      ])

take_slot-IsReturned :
    (p : Pending) (addr : Bytes) (limit : ℕ) (dry_run : Bool)
    → count p addr + 1 < u32_mod
    → IsReturned p (take_slot p addr limit dry_run)
unfolding take_slot
take_slot-IsReturned p addr limit dry_run bound =
    elim (Bool-cases (leb limit (count p addr) && not dry_run)) [
      | inl e ↦ rw e ((λ j. refl), λ _. refl)
      | inr e ↦ rw e ((λ j. taken_back p addr j bound), λ f. let q : true ≡ false = f in cc)
    ]

acquire_at-IsReturned :
    (p : Pending) (addr : Option Bytes) (limit : ℕ) (dry_run : Bool)
    → ((a : Bytes) → count p a + 1 < u32_mod)
    → IsReturned p (acquire_at p addr limit dry_run)
unfolding acquire_at
acquire_at-IsReturned p none limit dry_run bound =
    ((λ j. refl), λ f. let q : true ≡ false = f in cc)
acquire_at-IsReturned p (some addr) limit dry_run bound =
    take_slot-IsReturned p addr limit dry_run (bound addr)

pub acquire-IsReturned :
    (p : Pending) (ip : Bytes) (limit : ℕ) (dry_run : Bool)
    → ((addr : Bytes) → count p addr + 1 < u32_mod)
    → IsReturned p (acquire p ip limit dry_run)
unfolding acquire
acquire-IsReturned p ip limit dry_run bound =
    if_both (IsReturned p) (limit == 0) _ _ ((λ j. refl), λ f. let q : true ≡ false = f in cc)
      (acquire_at-IsReturned p (addr_of ip) limit dry_run bound)
