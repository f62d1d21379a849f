-- ===== src/CircuitBreaker/Runs.antt =====
-- network/circuit_breaker.go: concrete runs with a threshold of two failures.
use mtg_multi.Prelude.{◌≡◌, refl, some, List, [], ◌∷◌, ◌++◌, arith}
use mtg_multi.CircuitBreaker.{
  dialed, Event, dial_starts, closed_dial_ends, half_open_swap, half_open_timer_fires,
  cleanup_timer_fires, switch_state, is_closed, new_breaker, fail_closed, end_closed, start,
  end_closed_dial, step, run_on, run, new_world,
}
use mtg_multi.CircuitBreaker.Invariant.{IsSound, run-IsSound}
use mtg_multi.CircuitBreaker.Trip.{failed_dials, closed_world, open_world, trips}

opens : run 2 (failed_dials 1 ++ failed_dials 1) new_world ≡ some open_world
unfolding run run_on step start end_closed_dial end_closed fail_closed is_closed switch_state
    new_world new_breaker
opens = refl

run-IsSound_example : IsSound 2 open_world.breaker
run-IsSound_example =
    run-IsSound 2 (failed_dials 1 ++ failed_dials 1) open_world (omega arith) opens

trips_example :
    (run 2 (failed_dials 1) new_world ≡ some (closed_world 1))
    × (run 2 (failed_dials 1 ++ dial_starts ∷ closed_dial_ends dialed ∷ []) new_world
        ≡ some new_world)
    × (run 2 (failed_dials 1 ++ failed_dials 1) new_world ≡ some open_world)
trips_example = trips 1 1 (omega arith) (omega arith)

abbrev later : List Event
later = cleanup_timer_fires ∷ half_open_timer_fires ∷ dial_starts ∷ half_open_swap ∷ []
