-- ===== src/CircuitBreaker/Probe.antt =====
-- network/circuit_breaker.go: the half-open state.
use mtg_multi.CircuitBreaker.{
  half_opened, switch_state, new_breaker, Ended, dialed, dial_failed, settle_half_opened,
  end_half_opened, half_open, try_half_open, World, Event, dial_starts, half_open_swap,
  half_open_dial_ends, half_open_timer_fires, start, swap, end_half_open_dial, step, run_on, run,
  new_world, admits, admits_in,
}
use mtg_multi.CircuitBreaker.Trip.{open_world}
use mtg_multi.Prelude.{ℕ, ◌≡◌, refl, false, List, [], ◌∷◌, Option, none, some}

-- Half open, the one attempt taken, and no dial under way but `entering` ones before their
-- compare-and-swap.
abbrev pub stuck_world : ℕ → World
stuck_world entering = record {
  breaker = record {
    state = half_opened;
    half_open_attempts = 1;
    failures_count = 0;
    half_open_timer = false;
    failures_cleanup_timer = false;
  };
  closed_dials = 0;
  half_open_entering = entering;
  half_open_dials = 0;
}

abbrev IsStuck : Option World → Type 0
IsStuck none = Unit
IsStuck (some w) = (entering : ℕ) × (w ≡ stuck_world entering)

-- The half-open timer fires and one dial goes through; it ends as `e` says.
abbrev pub probe : Ended → List Event
probe e = half_open_timer_fires ∷ dial_starts ∷ half_open_swap ∷ half_open_dial_ends e ∷ []

-- After the half-open timer an open breaker lets one dial through and no second one; that dial's
-- connection closes the breaker and its failure opens it again.
pub probe_verdict :
    (t : ℕ)
    → ((under_way : World) × (run t
            (half_open_timer_fires ∷ dial_starts ∷ half_open_swap ∷ [])
            open_world
          ≡ some under_way)
        × (admits under_way ≡ false))
      × (run t (probe dialed) open_world ≡ some new_world)
      × (run t (probe dial_failed) open_world ≡ some open_world)
unfolding run run_on step start swap end_half_open_dial end_half_opened settle_half_opened
    try_half_open half_open switch_state new_world new_breaker admits admits_in
probe_verdict t = ((_, refl, refl), refl, refl)
