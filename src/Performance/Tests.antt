-- ===== src/Performance/Tests.antt =====
-- The circuit breakers of internal/engine/performance.go at concrete inputs.
use fortress_waf.Base.{
  ℕ, ◌+◌, ◌≤◌, ◌<◌, ◌≡◌, refl, List, [], ◌∷◌, none, arith, true, agrees_false→ne, text_keys,
}
use fortress_waf.Base.Int.{pos}
use fortress_waf.Performance.Breaker.{can_proceed, record_failure}
use fortress_waf.Performance.Manager.{
  PerformanceManager, Call, panicked, new_performance_manager, guarded_inspect,
}
use fortress_waf.Performance.Trips.{
  Event, asks, fails, after_events, failure_count, FailedAt, failed_now, failed_before,
  can_proceed-FailedAt, can_proceed-recovers,
}
use fortress_waf.Performance.Restores.{guarded_inspect-restores}

-- Five failures, the last one first.
abbrev five_failures : List Event
five_failures = fails 50 ∷ fails 40 ∷ fails 30 ∷ fails 20 ∷ fails 10 ∷ []

can_proceed-FailedAt_example :
    (5 ≤ failure_count five_failures)
    × ((t : ℕ) × FailedAt t five_failures × (60 ≤ t + 30_000_000_000))
unfolding can_proceed record_failure
can_proceed-FailedAt_example = can_proceed-FailedAt 60 five_failures refl

abbrev one_failure : List Event
one_failure = fails 10 ∷ []

no_failure : (t : ℕ) → FailedAt t [] → ⊥
no_failure t h = elim h [ ]

failed_once : (t : ℕ) → FailedAt t one_failure → t + 30_000_000_000 < 50_000_000_000
failed_once t failed_now = omega arith
failed_once t (failed_before never) = absurd (no_failure t never)

can_proceed-recovers_test : (can_proceed 50_000_000_000 (after_events one_failure)).0 ≡ true
can_proceed-recovers_test = can_proceed-recovers 50_000_000_000 one_failure failed_once

-- The fifth failure comes more than 30 seconds after the first call, which the breaker took for the
-- end of an open state; the call right after that failure is let through.
tripped_test :
    (can_proceed 31_000_000_001 (
      after_events (
        fails 31_000_000_000
        ∷ fails 31_000_000_000
        ∷ fails 31_000_000_000
        ∷ fails 31_000_000_000
        ∷ asks 20
        ∷ fails 10
        ∷ []))).0
    ≡ true
unfolding can_proceed record_failure
tripped_test = refl

abbrev call : Call
call = record {
  started = 10;
  ended = 20;
  alloc = 1000;
  ending = (λ timeout. panicked);
  evidence = (λ rule_id n. "");
}

abbrev manager : PerformanceManager
manager = new_performance_manager 2 (pos 0) (pos 0)

guarded_inspect-restores_test :
    ((guarded_inspect "sqli" call manager).0.active_workers ≡ 0)
    × ((guarded_inspect "sqli" call manager).0.circuit_breakers "xss" ≡ none)
guarded_inspect-restores_test =
    guarded_inspect-restores "sqli" "xss" call manager (agrees_false→ne "sqli" "xss" refl)
