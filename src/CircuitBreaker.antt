-- ===== src/CircuitBreaker.antt =====
-- network/circuit_breaker.go: the dialer that stops dialling after repeated failures. A dial is split
-- at its shared-memory accesses, so that dials and timer callbacks interleave as in the program.
use mtg_multi.Prelude.{
  ℕ, zero, suc, ◌+◌, ◌%◌, ◌^◌, Bool, true, false, ◌&&◌, List, [], ◌∷◌, Option, none, some, ◌==◌,
  leb, if◌then◌else◌,
}
pub mod Invariant
pub mod Trip
pub mod Probe
mod Runs

pub data CircuitState : Type 0 where
  closed half_opened opened : CircuitState

-- circuitBreakerDialer; a timer is set when its reference is not nil.
pub record Breaker : Type 0 where
  pub state : CircuitState
  pub half_open_attempts : ℕ
  pub failures_count : ℕ
  pub half_open_timer : Bool
  pub failures_cleanup_timer : Bool

pub switch_state : CircuitState → Breaker → Breaker
switch_state closed c = record {
  state = closed;
  half_open_attempts = 0;
  failures_count = 0;
  half_open_timer = false;
  failures_cleanup_timer = true;
}
switch_state half_opened c = record {
  state = half_opened;
  half_open_attempts = 0;
  failures_count = 0;
  half_open_timer = false;
  failures_cleanup_timer = false;
}
switch_state opened c = record {
  state = opened;
  half_open_attempts = 0;
  failures_count = 0;
  half_open_timer = true;
  failures_cleanup_timer = false;
}

pub is_closed : CircuitState → Bool
is_closed closed = true
is_closed _ = false

-- newCircuitBreakerDialer, whose fields are zero before the switch.
pub new_breaker : Breaker
new_breaker = switch_state closed record {
  state = closed;
  half_open_attempts = 0;
  failures_count = 0;
  half_open_timer = false;
  failures_cleanup_timer = false;
}

-- How a dial stands when it takes the mutex, or gives up on it.
pub data Ended : Type 0 where
  ctx_done dialed dial_failed : Ended

pub data DialResult : Type 0 where
  breaker_opened ctx_error conn dial_error : DialResult

pub result_of : Ended → DialResult
result_of ctx_done = ctx_error
result_of dialed = conn
result_of dial_failed = dial_error

-- doClosed after a failed dial.
pub fail_closed : ℕ → Breaker → Breaker
fail_closed open_threshold c =
    let count = (c.failures_count + 1) % 2 ^ 32 in
    if is_closed c.state && leb open_threshold count
    then switch_state opened c
    else record c { failures_count = count }

-- doClosed after its dial.
pub end_closed : ℕ → Ended → Breaker → Breaker
end_closed open_threshold ctx_done c = c
end_closed open_threshold dialed c = switch_state closed c
end_closed open_threshold dial_failed c = fail_closed open_threshold c

pub settle_half_opened : CircuitState → Ended → Breaker → Breaker
settle_half_opened half_opened dialed c = switch_state closed c
settle_half_opened half_opened dial_failed c = switch_state opened c
settle_half_opened _ _ c = c

-- doHalfOpened after its dial.
pub end_half_opened : Ended → Breaker → Breaker
end_half_opened e c = settle_half_opened c.state e c

pub reset_failures : Breaker → Breaker
reset_failures c =
    let stopped = record c { failures_cleanup_timer = false } in
    if is_closed c.state then switch_state closed stopped else stopped

pub half_open : CircuitState → Breaker → Breaker
half_open opened c = switch_state half_opened c
half_open _ c = c

pub try_half_open : Breaker → Breaker
try_half_open c = half_open c.state c

-- The breaker and the calls under way: in doClosed, before and after the compare-and-swap of
-- doHalfOpened.
pub record World : Type 0 where
  pub breaker : Breaker
  pub closed_dials : ℕ
  pub half_open_entering : ℕ
  pub half_open_dials : ℕ

-- What DialContext and the callbacks do next.
pub data Event : Type 0 where
  dial_starts : Event
  closed_dial_ends : Ended → Event
  half_open_swap : Event
  half_open_dial_ends : Ended → Event
  half_open_timer_fires : Event
  cleanup_timer_fires : Event

pub start : CircuitState → World → World
start closed w = record w { closed_dials = suc w.closed_dials }
start half_opened w = record w { half_open_entering = suc w.half_open_entering }
start opened w = w

pub end_closed_dial : ℕ → Ended → ℕ → World → Option World
end_closed_dial open_threshold e zero w = none
end_closed_dial open_threshold e (suc n) w =
    some record w { breaker = end_closed open_threshold e w.breaker; closed_dials = n }

-- The compare-and-swap lets one call through.
pub swap : ℕ → World → Option World
swap zero w = none
swap (suc n) w = some (
    if w.breaker.half_open_attempts == 0
    then record w {
      breaker = record w.breaker { half_open_attempts = 1 };
      half_open_entering = n;
      half_open_dials = suc w.half_open_dials;
    }
    else record w { half_open_entering = n })

pub end_half_open_dial : Ended → ℕ → World → Option World
end_half_open_dial e zero w = none
end_half_open_dial e (suc n) w =
    some record w { breaker = end_half_opened e w.breaker; half_open_dials = n }

-- An event that cannot happen has no next world.
pub step : ℕ → Event → World → Option World
step open_threshold dial_starts w = some (start w.breaker.state w)
step open_threshold (closed_dial_ends e) w = end_closed_dial open_threshold e w.closed_dials w
step open_threshold half_open_swap w = swap w.half_open_entering w
step open_threshold (half_open_dial_ends e) w = end_half_open_dial e w.half_open_dials w
step open_threshold half_open_timer_fires w = some record w { breaker = try_half_open w.breaker }
step open_threshold cleanup_timer_fires w = some record w { breaker = reset_failures w.breaker }

pub run_on : ℕ → List Event → Option World → Option World
run_on open_threshold [] o = o
run_on open_threshold (e ∷ es) none = none
run_on open_threshold (e ∷ es) (some w) = run_on open_threshold es (step open_threshold e w)

pub run : ℕ → List Event → World → Option World
run open_threshold es w = run_on open_threshold es (some w)

pub admits_in : CircuitState → ℕ → Bool
admits_in closed attempts = true
admits_in half_opened attempts = attempts == 0
admits_in opened attempts = false

-- Whether a dial that starts now goes through to the network.
pub admits : World → Bool
admits w = admits_in w.breaker.state w.breaker.half_open_attempts

pub new_world : World
new_world = record {
  breaker = new_breaker;
  closed_dials = 0;
  half_open_entering = 0;
  half_open_dials = 0;
}
