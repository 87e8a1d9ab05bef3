-- ===== src/Performance/Breaker.antt =====
-- CircuitBreaker, canProceed, recordFailure, recordSuccess and CircuitState of
-- internal/engine/performance.go, for the breaker of one inspector. A breaker that the map does not
-- hold is `none`. `name` and `resets`, which nothing but Stats reads, and the log are left out.
use fortress_waf.Base.{
  ℕ, ◌+◌, ◌-◌, Bool, true, false, Option, none, some, ltb, leb, if◌then◌else◌, ◌&&◌,
}

-- `last_trip` is `none` for the zero time of Go, which is longer ago than any recovery time.
pub record CircuitBreaker : Type 0 where
  pub failures : ℕ
  pub threshold : ℕ
  pub trips : ℕ
  pub last_trip : Option ℕ
  pub half_open : Bool
  pub half_open_at : ℕ
  pub recovery_time : ℕ

pub data CircuitState : Type 0 where
  circuit_closed circuit_half_open circuit_open : CircuitState

-- `time.Since(t) > d`
abbrev pub since_exceeds : ℕ → Option ℕ → ℕ → Bool
since_exceeds now none d = true
since_exceeds now (some t) d = ltb (t + d) now

-- `time.Since(t) < d`
abbrev pub since_below : ℕ → Option ℕ → ℕ → Bool
since_below now none d = false
since_below now (some t) d = ltb now (t + d)

abbrev pub new_breaker : CircuitBreaker
new_breaker = record {
  failures = 0;
  threshold = 5;
  trips = 0;
  last_trip = none;
  half_open = false;
  half_open_at = 0;
  recovery_time = 30_000_000_000;
}

-- canProceed
unfoldable pub can_proceed : ℕ → Option CircuitBreaker → Bool × Option CircuitBreaker
can_proceed now none = (true, none)
can_proceed now (some cb) =
    if cb.half_open && since_exceeds now (some cb.half_open_at) cb.recovery_time
    then (true, some (record cb { half_open = false; failures = 0 }))
    else if since_exceeds now cb.last_trip cb.recovery_time
    then (true, some (record cb { half_open = true; half_open_at = now }))
    else (false, some cb)

abbrev pub count_failure : ℕ → CircuitBreaker → CircuitBreaker
count_failure now cb =
    let failed = record cb { failures = cb.failures + 1 } in
    if leb cb.threshold failed.failures
    then record failed { last_trip = some now; trips = cb.trips + 1 }
    else failed

-- recordFailure
unfoldable pub record_failure : ℕ → Option CircuitBreaker → Option CircuitBreaker
record_failure now none = some (count_failure now new_breaker)
record_failure now (some cb) = some (count_failure now cb)

-- recordSuccess
unfoldable pub record_success : Option CircuitBreaker → Option CircuitBreaker
record_success none = none
record_success (some cb) =
    if ltb 0 cb.failures then some (record cb { failures = cb.failures - 1 }) else some cb

-- CircuitState
unfoldable pub circuit_state : ℕ → Option CircuitBreaker → CircuitState
circuit_state now none = circuit_closed
circuit_state now (some cb) =
    if cb.half_open
    then circuit_half_open
    else if since_below now cb.last_trip cb.recovery_time && leb cb.threshold cb.failures
    then circuit_open
    else circuit_closed
