-- ===== src/CircuitBreaker/Invariant.antt =====
-- network/circuit_breaker.go: which timers are armed in which state.
use mtg_multi.CircuitBreaker.{
  CircuitState, closed, half_opened, opened, Breaker, switch_state, is_closed, new_breaker, Ended,
  ctx_done, dialed, dial_failed, fail_closed, end_closed, settle_half_opened, end_half_opened,
  reset_failures, half_open, try_half_open, World, Event, dial_starts, closed_dial_ends,
  half_open_swap, half_open_dial_ends, half_open_timer_fires, cleanup_timer_fires, start,
  end_closed_dial, swap, end_half_open_dial, step, run_on, run, new_world,
}
use mathlib.Core.Path.{subst}
use mtg_multi.Prelude.{
  ℕ, zero, suc, ◌+◌, ◌%◌, ◌^◌, ◌≤◌, ◌<◌, ◌≡◌, Bool, true, false, List, [], ◌∷◌, Option, none, some,
  ◌==◌, leb, arith, Bool-cases, leb→lt, inl, inr,
}

-- What each state promises: while closed fewer failures than the threshold are counted and the cleanup
-- timer is set, while open the half-open timer is set, and no other timer is.
abbrev pub IsArmed : ℕ → CircuitState → Breaker → Type 0
IsArmed open_threshold closed c =
    (c.failures_count < open_threshold)
    × (c.half_open_timer ≡ false)
    × (c.failures_cleanup_timer ≡ true)
IsArmed open_threshold half_opened c =
    (c.half_open_timer ≡ false) × (c.failures_cleanup_timer ≡ false)
IsArmed open_threshold opened c = (c.half_open_timer ≡ true) × (c.failures_cleanup_timer ≡ false)

abbrev pub IsSound : ℕ → Breaker → Type 0
IsSound open_threshold c = IsArmed open_threshold c.state c × (c.half_open_attempts ≤ 1)

abbrev OptionIsSound : ℕ → Option World → Type 0
OptionIsSound open_threshold none = Unit
OptionIsSound open_threshold (some w) = IsSound open_threshold w.breaker

switch_state-IsSound :
    (t : ℕ) (s : CircuitState) (c : Breaker) → 0 < t → IsSound t (switch_state s c)
unfolding switch_state
switch_state-IsSound t closed c p = ground arith
switch_state-IsSound t half_opened c p = ground arith
switch_state-IsSound t opened c p = ground arith

-- A breaker by its fields, so that a lemma is by cases on its state.
abbrev of_fields : CircuitState → ℕ → ℕ → Bool → Bool → Breaker
of_fields s attempts count half_open_timer' cleanup_timer = record {
  state = s;
  half_open_attempts = attempts;
  failures_count = count;
  half_open_timer = half_open_timer';
  failures_cleanup_timer = cleanup_timer;
}

fail_closed-IsSound :
    (t : ℕ) (s : CircuitState) (a n : ℕ) (h f : Bool)
    → 0 < t
    → IsSound t (of_fields s a n h f)
    → IsSound t (fail_closed t (of_fields s a n h f))
unfolding fail_closed switch_state is_closed
fail_closed-IsSound t closed a n h f p i = elim (Bool-cases (leb t ((n + 1) % 2 ^ 32))) [
  | inl e ↦ rw e (ground arith)
  | inr e ↦ rw e (let l = leb→lt t ((n + 1) % 2 ^ 32) e in ground arith)
]
fail_closed-IsSound t half_opened a n h f p i = i
fail_closed-IsSound t opened a n h f p i = i

end_closed-IsSound :
    (t : ℕ) (e : Ended) (c : Breaker) → 0 < t → IsSound t c → IsSound t (end_closed t e c)
unfolding end_closed
end_closed-IsSound t ctx_done c p i = i
end_closed-IsSound t dialed c p i = switch_state-IsSound t closed c p
end_closed-IsSound t dial_failed c p i =
    fail_closed-IsSound t c.state c.half_open_attempts c.failures_count c.half_open_timer
      c.failures_cleanup_timer p i

settle-IsSound :
    (t : ℕ) (s : CircuitState) (e : Ended) (c : Breaker)
    → 0 < t
    → IsSound t c
    → IsSound t (settle_half_opened s e c)
unfolding settle_half_opened
settle-IsSound t half_opened dialed c p i = switch_state-IsSound t closed c p
settle-IsSound t half_opened dial_failed c p i = switch_state-IsSound t opened c p
settle-IsSound t half_opened ctx_done c p i = i
settle-IsSound t closed _ c p i = i
settle-IsSound t opened _ c p i = i

reset_failures-IsSound :
    (t : ℕ) (s : CircuitState) (a n : ℕ) (h f : Bool)
    → 0 < t
    → IsSound t (of_fields s a n h f)
    → IsSound t (reset_failures (of_fields s a n h f))
unfolding reset_failures switch_state is_closed
reset_failures-IsSound t closed a n h f p i = ground arith
reset_failures-IsSound t half_opened a n h f p i = ground arith
reset_failures-IsSound t opened a n h f p i = ground arith

half_open-IsSound :
    (t : ℕ) (s : CircuitState) (c : Breaker) → 0 < t → IsSound t c → IsSound t (half_open s c)
unfolding half_open
half_open-IsSound t opened c p i = switch_state-IsSound t half_opened c p
half_open-IsSound t closed c p i = i
half_open-IsSound t half_opened c p i = i

attempt-IsArmed :
    (t : ℕ) (s : CircuitState) (c : Breaker)
    → IsArmed t s c
    → IsArmed t s (record c { half_open_attempts = 1 })
attempt-IsArmed t closed c i = i
attempt-IsArmed t half_opened c i = i
attempt-IsArmed t opened c i = i

swap-IsSound : (t n : ℕ) (w : World) → IsSound t w.breaker → OptionIsSound t (swap n w)
unfolding swap
swap-IsSound t zero w i = tt
swap-IsSound t (suc n) w i = elim (Bool-cases (w.breaker.half_open_attempts == 0)) [
  | inl e ↦ rw e (attempt-IsArmed t w.breaker.state w.breaker i.0, omega arith)
  | inr e ↦ rw e i
]

start-IsSound :
    (t : ℕ) (s : CircuitState) (w : World) → IsSound t w.breaker → IsSound t (start s w).breaker
unfolding start
start-IsSound t closed w i = i
start-IsSound t half_opened w i = i
start-IsSound t opened w i = i

end_closed_dial-IsSound :
    (t : ℕ) (e : Ended) (n : ℕ) (w : World)
    → 0 < t
    → IsSound t w.breaker
    → OptionIsSound t (end_closed_dial t e n w)
unfolding end_closed_dial
end_closed_dial-IsSound t e zero w p i = tt
end_closed_dial-IsSound t e (suc n) w p i = end_closed-IsSound t e w.breaker p i

end_half_open_dial-IsSound :
    (t : ℕ) (e : Ended) (n : ℕ) (w : World)
    → 0 < t
    → IsSound t w.breaker
    → OptionIsSound t (end_half_open_dial e n w)
unfolding end_half_open_dial end_half_opened
end_half_open_dial-IsSound t e zero w p i = tt
end_half_open_dial-IsSound t e (suc n) w p i = settle-IsSound t w.breaker.state e w.breaker p i

step-IsSound :
    (t : ℕ) (e : Event) (w : World) → 0 < t → IsSound t w.breaker → OptionIsSound t (step t e w)
unfolding step end_half_opened try_half_open
step-IsSound t dial_starts w p i = start-IsSound t w.breaker.state w i
step-IsSound t (closed_dial_ends e) w p i = end_closed_dial-IsSound t e w.closed_dials w p i
step-IsSound t half_open_swap w p i = swap-IsSound t w.half_open_entering w i
step-IsSound t (half_open_dial_ends e) w p i =
    end_half_open_dial-IsSound t e w.half_open_dials w p i
step-IsSound t half_open_timer_fires w p i = half_open-IsSound t w.breaker.state w.breaker p i
step-IsSound t cleanup_timer_fires w p i =
    let b = w.breaker in
    reset_failures-IsSound t b.state b.half_open_attempts b.failures_count b.half_open_timer
      b.failures_cleanup_timer p i

run_on-IsSound :
    (t : ℕ) (es : List Event) (o : Option World)
    → 0 < t
    → OptionIsSound t o
    → OptionIsSound t (run_on t es o)
unfolding run_on
run_on-IsSound t [] o p i = i
run_on-IsSound t (e ∷ es) none p i = tt
run_on-IsSound t (e ∷ es) (some w) p i = run_on-IsSound t es (step t e w) p (step-IsSound t e w p i)

-- However dials, their ends and the timer callbacks interleave from a new breaker with a positive
-- threshold, an open breaker has its half-open timer set, a closed one has its cleanup timer set
-- and has counted fewer failures than the threshold, no other timer is set, and at most one
-- half-open attempt is taken.
pub run-IsSound :
    (t : ℕ) (es : List Event) (w : World)
    → 0 < t
    → run t es new_world ≡ some w
    → IsSound t w.breaker
unfolding run new_world new_breaker switch_state
run-IsSound t es w p e =
    let s = run_on-IsSound t es (some new_world) p (switch_state-IsSound t closed new_breaker p) in
    subst (OptionIsSound t) e s
