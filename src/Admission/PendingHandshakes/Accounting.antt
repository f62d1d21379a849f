-- ===== src/Admission/PendingHandshakes/Accounting.antt =====
-- The counters are the numbers of slots not yet released, and stay within the limit.
use mtg_multi.Prelude.{
  ℕ, zero, suc, ◌+◌, ◌-◌, ◌%◌, ◌≤◌, ◌<◌, ◌≡◌, refl, sym, ap, ◌∙◌, inl, inr, Bool, false, not, ◌&&◌,
  Option, none, some, List, [], ◌∷◌, length, leb, ◌==◌, if◌then◌else◌, bytes_eq, bytes_eq_iff,
  bytes_key, Bool-cases, arith,
}
use mtg_multi.Prelude.Bytes.{Bytes}
use mtg_multi.Prelude.Map.{lookup, insert, erase, lookup-insert, lookup-erase}
use mtg_multi.Admission.PendingHandshakes.{
  Pending, count, take_slot, acquire_at, acquire, addr_of, release, Slot, Handshakes, Event,
  arrives, releases, hold, run_release, step, run,
}

-- The slots of an address that are not released.
pub held : Bytes → List Slot → ℕ
held addr [] = 0
held addr (s ∷ ss) = if bytes_eq s.addr addr && not s.done then suc (held addr ss) else held addr ss

pub count-insert :
    (p : Pending) (addr j : Bytes) (n : ℕ)
    → count (insert addr n p) j ≡ (if bytes_eq addr j then n else count p j)
unfolding count
count-insert p addr j n = ground (arith, lookup-insert addr j n p)

count-erase :
    (p : Pending) (addr j : Bytes)
    → count (erase addr p) j ≡ (if bytes_eq addr j then 0 else count p j)
unfolding count
count-erase p addr j = ground (arith, lookup-erase addr j p)

-- Release takes one from its address and nothing from another.
pub count-release :
    (p : Pending) (addr j : Bytes)
    → count (release p addr) j ≡ (if bytes_eq addr j then count p addr - 1 else count p j)
unfolding release
count-release p addr j = elim (Bool-cases (leb (count p addr) 1)) [
  | inl e ↦ rw e (count-erase p addr j ∙ ground arith)
  | inr e ↦ rw e (count-insert p addr j (count p addr - 1))
]

-- Every counter is the number of slots that its address holds.
abbrev pub IsBalanced : Pending → List Slot → Type 0
IsBalanced p ss = (j : Bytes) → count p j ≡ held j ss

-- No address holds more slots than the limit.
abbrev pub IsLimited : ℕ → List Slot → Type 0
IsLimited limit ss = (j : Bytes) → held j ss ≤ limit

held-le-length : (j : Bytes) (ss : List Slot) → held j ss ≤ length ss
unfolding held
held-le-length j [] = omega arith
held-le-length j (s ∷ ss) = ground (arith, held-le-length j ss)

held-cons :
    (addr j : Bytes) (ss : List Slot)
    → held j (record { addr = addr; done = false } ∷ ss)
      ≡ (if bytes_eq addr j then suc (held j ss) else held j ss)
unfolding held
held-cons addr j ss = ground arith

take_slot-IsBalanced :
    (p : Pending) (addr : Bytes) (limit : ℕ) (dry_run : Bool) (ss : List Slot)
    → IsBalanced p ss
    → length ss + 1 < 4294967296
    → let a = take_slot p addr limit dry_run in IsBalanced a.pending (hold a.slot ss)
unfolding take_slot
take_slot-IsBalanced p addr limit dry_run ss b small j =
    elim (Bool-cases (leb limit (count p addr) && not dry_run)) [
      | inl e ↦ rw e (b j)
      | inr e ↦ rw e (
          count-insert p addr j ((count p addr + 1) % 4294967296)
          ∙ sym (
              held-cons addr j ss
              ∙ ground (arith, b j, b addr, held-le-length addr ss, bytes_eq_iff addr j)))
    ]

acquire-IsBalanced :
    (p : Pending) (ip : Bytes) (limit : ℕ) (dry_run : Bool) (ss : List Slot)
    → IsBalanced p ss
    → length ss + 1 < 4294967296
    → let a = acquire p ip limit dry_run in IsBalanced a.pending (hold a.slot ss)
unfolding acquire
acquire-IsBalanced p ip limit dry_run ss b small = elim (Bool-cases (limit == 0)) [
  | inl e ↦ rw e b
  | inr e ↦ rw e (at (addr_of ip))
]
  where
    at :
        (o : Option Bytes)
        → let a = acquire_at p o limit dry_run in IsBalanced a.pending (hold a.slot ss)
    at none = unfold acquire_at in b
    at (some addr) = unfold acquire_at in take_slot-IsBalanced p addr limit dry_run ss b small

take_slot-IsLimited :
    (p : Pending) (addr : Bytes) (limit : ℕ) (ss : List Slot)
    → IsBalanced p ss
    → IsLimited limit ss
    → IsLimited limit (hold (take_slot p addr limit false).slot ss)
unfolding take_slot
take_slot-IsLimited p addr limit ss b l j = elim (Bool-cases (leb limit (count p addr))) [
  | inl e ↦ rw e (l j)
  | inr e ↦ rw (e, held-cons addr j ss) (ground (arith, b addr, l j, bytes_eq_iff addr j))
]

-- Releasing a slot, or releasing it again, moves the counters as it moves the slots.
run_release_keeps :
    (p : Pending) (ss : List Slot) (i : ℕ)
    → ((j : Bytes) → held j ss ≤ count p j)
    → (j : Bytes)
    → count (run_release p ss i).0 j + held j ss ≡ held j (run_release p ss i).1 + count p j
unfolding run_release held
run_release_keeps p [] i b j = omega arith
run_release_keeps p (s ∷ ss) zero b j = elim (Bool-cases s.done) [
  | inl d ↦ rw (d, run_release) (omega arith)
  | inr d ↦
      rw (d, run_release)
        (ground (arith, count-release p s.addr j, b j, b s.addr, bytes_eq_iff s.addr j, d))
]
run_release_keeps p (s ∷ ss) (suc i) b j =
    ground (arith, run_release_keeps p ss i (λ k. ground (arith, b k)) j)

run_release-IsBalanced :
    (p : Pending) (ss : List Slot) (i : ℕ)
    → IsBalanced p ss
    → IsBalanced (run_release p ss i).0 (run_release p ss i).1
run_release-IsBalanced p ss i b j =
    omega (arith, run_release_keeps p ss i (λ k. omega (arith, b k)) j, b j)

run_release-held :
    (p : Pending) (ss : List Slot) (i : ℕ) (j : Bytes) → held j (run_release p ss i).1 ≤ held j ss
unfolding run_release held
run_release-held p [] i j = omega arith
run_release-held p (s ∷ ss) zero j = ground arith
run_release-held p (s ∷ ss) (suc i) j = ground (arith, run_release-held p ss i j)

length-run_release :
    (p : Pending) (ss : List Slot) (i : ℕ) → length (run_release p ss i).1 ≡ length ss
unfolding run_release
length-run_release p [] i = refl
length-run_release p (s ∷ ss) zero = ground arith
length-run_release p (s ∷ ss) (suc i) = ap suc (length-run_release p ss i)

length-hold : (o : Option Bytes) (ss : List Slot) → length (hold o ss) ≤ length ss + 1
length-hold none ss = omega arith
length-hold (some addr) ss = omega arith

abbrev empty : Handshakes
empty = record { pending = []; slots = [] }

run_from-IsBalanced :
    (es : List Event) (limit : ℕ) (dry_run : Bool) (h : Handshakes)
    → IsBalanced h.pending h.slots
    → length h.slots + length es < 4294967296
    → let h' = run limit dry_run h es in IsBalanced h'.pending h'.slots
unfolding run step
run_from-IsBalanced [] limit dry_run h b small = b
run_from-IsBalanced (arrives ip ∷ es) limit dry_run h b small =
    let a = acquire h.pending ip limit dry_run in
    run_from-IsBalanced es limit dry_run _
      (acquire-IsBalanced h.pending ip limit dry_run h.slots b (omega arith))
      (omega (arith, length-hold a.slot h.slots))
run_from-IsBalanced (releases i ∷ es) limit dry_run h b small =
    run_from-IsBalanced es limit dry_run _ (run_release-IsBalanced h.pending h.slots i b)
      (omega (arith, length-run_release h.pending h.slots i))

-- After fewer than 2^32 arrivals and releases in any order, each slot released at most once
-- however often its function is called, the counter of every address is the number of its slots
-- that are still held.
pub run-IsBalanced :
    (es : List Event) (limit : ℕ) (dry_run : Bool)
    → length es < 4294967296
    → let h = run limit dry_run (record { pending = []; slots = [] }) es in
      IsBalanced h.pending h.slots
run-IsBalanced es limit dry_run small =
    run_from-IsBalanced es limit dry_run empty (λ j. unfold held count lookup in refl) (omega arith)

acquire-IsLimited :
    (p : Pending) (ip : Bytes) (limit : ℕ) (ss : List Slot)
    → 0 < limit
    → IsBalanced p ss
    → IsLimited limit ss
    → IsLimited limit (hold (acquire p ip limit false).slot ss)
unfolding acquire
acquire-IsLimited p ip limit ss pos b l = rw (limited limit pos) (at (addr_of ip))
  where
    limited : (n : ℕ) → 0 < n → (n == 0) ≡ false
    limited n h = ground arith

    at : (o : Option Bytes) → IsLimited limit (hold (acquire_at p o limit false).slot ss)
    at none = unfold acquire_at in l
    at (some addr) = unfold acquire_at in take_slot-IsLimited p addr limit ss b l

run_from-IsLimited :
    (es : List Event) (limit : ℕ) (h : Handshakes)
    → 0 < limit
    → IsBalanced h.pending h.slots
    → IsLimited limit h.slots
    → length h.slots + length es < 4294967296
    → IsLimited limit (run limit false h es).slots
unfolding run step
run_from-IsLimited [] limit h pos b l small = l
run_from-IsLimited (arrives ip ∷ es) limit h pos b l small =
    let a = acquire h.pending ip limit false in
    run_from-IsLimited es limit _ pos
      (acquire-IsBalanced h.pending ip limit false h.slots b (omega arith))
      (acquire-IsLimited h.pending ip limit h.slots pos b l)
      (omega (arith, length-hold a.slot h.slots))
run_from-IsLimited (releases i ∷ es) limit h pos b l small =
    run_from-IsLimited es limit _ pos (run_release-IsBalanced h.pending h.slots i b)
      (λ j. omega (arith, run_release-held h.pending h.slots i j, l j))
      (omega (arith, length-run_release h.pending h.slots i))

-- With a positive limit enforced, no address ever holds more slots than it, after fewer than 2^32
-- events.
pub run-IsLimited :
    (es : List Event) (limit : ℕ)
    → 0 < limit
    → length es < 4294967296
    → IsLimited limit (run limit false (record { pending = []; slots = [] }) es).slots
run-IsLimited es limit pos small =
    run_from-IsLimited es limit empty pos (λ j. unfold held count lookup in refl)
      (λ j. unfold held in omega arith) (omega arith)
