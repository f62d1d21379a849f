-- ===== src/CircuitBreaker/Trip.antt =====
-- network/circuit_breaker.go: when failures open the breaker.
use native.Mathlib.Nat.{mod-eq_of_lt}
use mtg_multi.CircuitBreaker.{
  closed, opened, switch_state, is_closed, new_breaker, dialed, dial_failed, fail_closed,
  end_closed, World, Event, dial_starts, closed_dial_ends, start, end_closed_dial, step, run_on,
  run, new_world,
}
use mtg_multi.Prelude.{
  ℕ, zero, suc, ◌+◌, ◌%◌, ◌^◌, ◌≤◌, ◌<◌, ◌≡◌, refl, true, false, List, [], ◌∷◌, ◌++◌, ap, ◌∙◌, sym,
  Option, none, some, leb, arith, Bool-cases, leb→lt, leb→le, inl, inr,
}

-- `n` dials one after another, each failing.
abbrev pub failed_dials : ℕ → List Event
failed_dials zero = []
failed_dials (suc n) = dial_starts ∷ closed_dial_ends dial_failed ∷ failed_dials n

-- Closed, with `n` failures counted and no dial under way.
abbrev pub closed_world : ℕ → World
closed_world n = record {
  breaker = record {
    state = closed;
    half_open_attempts = 0;
    failures_count = n;
    half_open_timer = false;
    failures_cleanup_timer = true;
  };
  closed_dials = 0;
  half_open_entering = 0;
  half_open_dials = 0;
}

abbrev pub open_world : World
open_world = record {
  breaker = record {
    state = opened;
    half_open_attempts = 0;
    failures_count = 0;
    half_open_timer = true;
    failures_cleanup_timer = false;
  };
  closed_dials = 0;
  half_open_entering = 0;
  half_open_dials = 0;
}

pub run_on-none : (t : ℕ) (es : List Event) → run_on t es none ≡ none
unfolding run_on
run_on-none t [] = refl
run_on-none t (e ∷ es) = refl

pub run_on-append :
    (t : ℕ) (es fs : List Event) (o : Option World)
    → run_on t (es ++ fs) o ≡ run_on t fs (run_on t es o)
unfolding run_on
run_on-append t [] fs o = refl
run_on-append t (e ∷ es) fs none = sym (run_on-none t fs)
run_on-append t (e ∷ es) fs (some w) = run_on-append t es fs (step t e w)

fail_closed_below :
    (t n : ℕ)
    → suc n < t
    → t < 2 ^ 32
    → fail_closed t (closed_world n).breaker ≡ (closed_world (suc n)).breaker
unfolding fail_closed is_closed
fail_closed_below t n p q =
    let m : (n + 1) % 2 ^ 32 ≡ suc n =
      omega (arith, mod-eq_of_lt {n = n + 1} {m = 2 ^ 32} (omega arith)) in
    elim (Bool-cases (leb t (suc n))) [
      | inl e ↦ let x : ⊥ = omega (arith, leb→le t (suc n) e) in elim x [ ]
      | inr e ↦ rw (m, e) refl
    ]

fail_closed_at :
    (n : ℕ) → suc n < 2 ^ 32 → fail_closed (suc n) (closed_world n).breaker ≡ open_world.breaker
unfolding fail_closed is_closed switch_state
fail_closed_at n q =
    let m : (n + 1) % 2 ^ 32 ≡ suc n =
      omega (arith, mod-eq_of_lt {n = n + 1} {m = 2 ^ 32} (omega arith)) in
    elim (Bool-cases (leb (suc n) (suc n))) [
      | inl e ↦ rw (m, e) refl
      | inr e ↦ let x : ⊥ = omega (arith, leb→lt (suc n) (suc n) e) in elim x [ ]
    ]

one_failure :
    (t n : ℕ) (es : List Event)
    → suc n < t
    → t < 2 ^ 32
    → run_on t (dial_starts ∷ closed_dial_ends dial_failed ∷ es) (some (closed_world n))
      ≡ run_on t es (some (closed_world (suc n)))
unfolding run_on step start end_closed_dial end_closed
one_failure t n es p q = rw (fail_closed_below t n p q) refl

failures_below :
    (n k t : ℕ)
    → k + n < t
    → t < 2 ^ 32
    → run_on t (failed_dials n) (some (closed_world k)) ≡ some (closed_world (k + n))
unfolding run_on
failures_below zero k t p q = ap (λ (x : ℕ). some (closed_world x)) (omega arith)
failures_below (suc n) k t p q =
    one_failure t k (failed_dials n) (omega arith) q
    ∙ failures_below n (suc k) t (omega arith) q
    ∙ ap (λ (x : ℕ). some (closed_world x)) (omega arith)

counted_failures :
    (n t : ℕ)
    → n < t
    → t < 2 ^ 32
    → run_on t (failed_dials n) (some new_world) ≡ some (closed_world n)
unfolding new_world new_breaker switch_state
counted_failures n t p q =
    failures_below n 0 t (omega arith) q ∙ ap (λ (x : ℕ). some (closed_world x)) (omega arith)

connects :
    (t n : ℕ)
    → run_on t (dial_starts ∷ closed_dial_ends dialed ∷ []) (some (closed_world n)) ≡ some new_world
unfolding run_on step start end_closed_dial end_closed switch_state new_world new_breaker
connects t n = refl

last_failure :
    (n : ℕ)
    → suc n < 2 ^ 32
    → run_on (suc n) (failed_dials 1) (some (closed_world n)) ≡ some open_world
unfolding run_on step start end_closed_dial end_closed
last_failure n q = rw (fail_closed_at n q) refl

-- With a threshold below 2^32, failing dials one after another leave the breaker closed up to the
-- one before the threshold, a connection after fewer starts the count again, and the one that
-- reaches the threshold opens the breaker.
pub trips :
    (n k : ℕ)
    → suc n < 2 ^ 32
    → k ≤ n
    → (run (suc n) (failed_dials k) new_world ≡ some (closed_world k))
      × (run (suc n) (failed_dials k ++ dial_starts ∷ closed_dial_ends dialed ∷ []) new_world
          ≡ some new_world)
      × (run (suc n) (failed_dials n ++ failed_dials 1) new_world ≡ some open_world)
unfolding run new_world new_breaker switch_state
trips n k q l =
    let below = counted_failures k (suc n) (omega arith) q in
    let before = counted_failures n (suc n) (omega arith) q in
    (
      below,
      run_on-append (suc n) (failed_dials k) _ (some new_world) ∙ rw below (connects (suc n) k),
      run_on-append (suc n) (failed_dials n) _ (some new_world) ∙ rw before (last_failure n q),
    )
