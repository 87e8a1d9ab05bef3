-- ===== src/Performance/Manager.antt =====
-- NewPerformanceManager, Inspect and getTimeout of internal/engine/performance.go. What the runtime
-- and the inspector do in a call of Inspect is the argument `call`.
-- The call is one step: what other calls do meanwhile, and what an inspector does after its timeout,
-- is left out.
use fortress_waf.Base.{
  ℕ, suc, zero, not, ◌+◌, ◌-◌, ◌*◌, false, String, Option, none, ltb, if◌then◌else◌, ◌==◌,
  text_keys,
}
use fortress_waf.Base.Map.{Map}
use fortress_waf.Base.Int.{ℤ, pos, negsuc}
use fortress_waf.Pipeline.Types.{Action, Decision, Outcome}
use fortress_waf.Performance.Breaker.{CircuitBreaker, can_proceed, record_failure, record_success}

pub record PerformanceManager : Type 0 where
  pub regex_timeout : ℕ
  pub wasm_timeout : ℕ
  pub circuit_breakers : Map String CircuitBreaker
  pub active_workers : ℕ
  pub max_workers : ℕ
  pub memory_limit : ℕ

-- A timeout in milliseconds, or the default for one that is not positive.
abbrev pub timeout_or : ℕ → ℤ → ℕ
timeout_or default (pos zero) = default
timeout_or default (pos (suc n)) = suc n
timeout_or default (negsuc n) = default

-- NewPerformanceManager, on a machine of `procs` processors.
abbrev pub new_performance_manager : ℕ → ℤ → ℤ → PerformanceManager
new_performance_manager procs regex_timeout_ms wasm_timeout_ms = record {
  regex_timeout = timeout_or 1000 regex_timeout_ms;
  wasm_timeout = timeout_or 5000 wasm_timeout_ms;
  circuit_breakers = (λ name. none);
  active_workers = 0;
  max_workers = procs * 4;
  memory_limit = 512 * 1024 * 1024;
}

-- getTimeout
abbrev pub get_timeout : PerformanceManager → String → ℕ
get_timeout pm name = if name == "wasm" then pm.wasm_timeout else pm.regex_timeout

-- What the goroutine of the inspector comes to before the timeout.
pub data Ending : Type 0 where
  returned : Outcome → Ending
  panicked : Ending
  timed_out : Ending

-- `started` and `ended` are the clock at the two ends of the call, `alloc` the memory in use, `ending`
-- what the inspector comes to within a timeout. The evidence of the decisions is formatted by fmt.
pub record Call : Type 0 where
  pub started : ℕ
  pub ended : ℕ
  pub alloc : ℕ
  pub ending : ℕ → Ending
  pub evidence : String → ℕ → String

abbrev pub skipped : String → String → String → ℕ → ℕ → String → Decision
skipped rule_id rule_name severity score confidence evidence = record {
  action = Action.monitor;
  rule_id = rule_id;
  rule_name = rule_name;
  severity = severity;
  score = score;
  evidence = evidence;
  blocked = false;
  confidence_score = confidence;
  explainability = "";
  inspector_name = "";
}

abbrev pub with_breaker : String → Option CircuitBreaker → PerformanceManager → PerformanceManager
with_breaker name cb pm = record pm {
  circuit_breakers = (λ other. if name == other then cb else pm.circuit_breakers other);
}

-- The `select` of Inspect. A panic is noted twice: by the goroutine and by the branch of its error.
unfoldable pub settle : String → Call → Ending → PerformanceManager → PerformanceManager × Outcome
settle name call (returned Outcome.failed) pm =
    (with_breaker name (record_failure call.ended (pm.circuit_breakers name)) pm, Outcome.failed)
settle name call (returned Outcome.nothing) pm =
    (with_breaker name (record_success (pm.circuit_breakers name)) pm, Outcome.nothing)
settle name call (returned (Outcome.decided d)) pm =
    (with_breaker name (record_success (pm.circuit_breakers name)) pm, Outcome.decided d)
settle name call panicked pm = (
  with_breaker name
      (record_failure call.ended (record_failure call.ended (pm.circuit_breakers name))) pm,
  Outcome.failed,
)
settle name call timed_out pm = (
  with_breaker name (record_failure call.ended (pm.circuit_breakers name)) pm,
  Outcome.decided (
      skipped "PERF_004" "Inspector Timeout" "medium" 20 50
        (call.evidence "PERF_004" (get_timeout pm name))),
)

abbrev pub refused : Call → String → String → ℕ → Outcome
refused call rule_id rule_name n =
    Outcome.decided (skipped rule_id rule_name "low" 0 0 (call.evidence rule_id n))

-- Inspect, for the inspector of this name.
unfoldable pub guarded_inspect : String → Call → PerformanceManager → PerformanceManager × Outcome
unfolding settle
guarded_inspect name call pm =
    let (proceed, breaker) = can_proceed call.started (pm.circuit_breakers name) in
    let asked = with_breaker name breaker pm in
    let counted = record asked { active_workers = pm.active_workers + 1 } in
    let released = record counted { active_workers = counted.active_workers - 1 } in
    if not proceed
    then (asked, refused call "PERF_001" "Inspector Circuit Open" 0)
    else if ltb counted.max_workers counted.active_workers
    then (released, refused call "PERF_002" "Max Concurrent Inspectors Exceeded" pm.max_workers)
    else if ltb counted.memory_limit call.alloc
    then (released, refused call "PERF_003" "Memory Limit Reached" call.alloc)
    else settle name call (call.ending (get_timeout released name)) released
