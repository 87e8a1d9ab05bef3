-- ===== src/Performance/Restores.antt =====
-- What a call of Inspect of internal/engine/performance.go leaves behind.
use fortress_waf.Base.{
  ◌+◌, ◌-◌, ◌≡◌, ◌≢◌, refl, ◌∙◌, String, Option, ltb, arith, Bool-cases, inl, inr, agrees_ne,
  text_keys,
}
use fortress_waf.Pipeline.Types.{Outcome}
use fortress_waf.Performance.Breaker.{CircuitBreaker, can_proceed}
use fortress_waf.Performance.Manager.{
  PerformanceManager, Call, Ending, returned, panicked, timed_out, settle, guarded_inspect,
  with_breaker, get_timeout,
}

settle-active_workers :
    (name : String) (call : Call) (ending : Ending) (pm : PerformanceManager)
    → (settle name call ending pm).0.active_workers ≡ pm.active_workers
unfolding settle
settle-active_workers name call (returned Outcome.failed) pm = refl
settle-active_workers name call (returned Outcome.nothing) pm = refl
settle-active_workers name call (returned (Outcome.decided d)) pm = refl
settle-active_workers name call panicked pm = refl
settle-active_workers name call timed_out pm = refl

settle-other :
    (name other : String) (call : Call) (ending : Ending) (pm : PerformanceManager)
    → name ≢ other
    → (settle name call ending pm).0.circuit_breakers other ≡ pm.circuit_breakers other
unfolding settle
settle-other name other call (returned Outcome.failed) pm h = rw (agrees_ne name other h) refl
settle-other name other call (returned Outcome.nothing) pm h = rw (agrees_ne name other h) refl
settle-other name other call (returned (Outcome.decided d)) pm h = rw (agrees_ne name other h) refl
settle-other name other call panicked pm h = rw (agrees_ne name other h) refl
settle-other name other call timed_out pm h = rw (agrees_ne name other h) refl

with_breaker-other :
    (name other : String) (cb : Option CircuitBreaker) (pm : PerformanceManager)
    → name ≢ other
    → (with_breaker name cb pm).circuit_breakers other ≡ pm.circuit_breakers other
with_breaker-other name other cb pm h = rw (agrees_ne name other h) refl

-- However a guarded call ends, refused, over a limit, with an answer, an error, a panic or a timeout,
-- the number of active workers is what it was before, and the breakers of the other inspectors are as
-- they were.
pub guarded_inspect-restores :
    (name other : String) (call : Call) (pm : PerformanceManager)
    → name ≢ other
    → ((guarded_inspect name call pm).0.active_workers ≡ pm.active_workers)
      × ((guarded_inspect name call pm).0.circuit_breakers other ≡ pm.circuit_breakers other)
unfolding guarded_inspect
guarded_inspect-restores name other call pm h =
    let breaker = (can_proceed call.started (pm.circuit_breakers name)).1 in
    let released = record (with_breaker name breaker pm) {
      active_workers = pm.active_workers + 1 - 1;
    } in
    let ending = call.ending (get_timeout released name) in
    let proceed = (can_proceed call.started (pm.circuit_breakers name)).0 in
    let same : pm.active_workers + 1 - 1 ≡ pm.active_workers = omega arith in
    elim (Bool-cases proceed) [
      | inr refuses ↦ rw (refuses, agrees_ne name other h) (refl, refl)
      | inl proceeds ↦ elim (Bool-cases (ltb pm.max_workers (pm.active_workers + 1))) [
        | inl crowded ↦ rw (proceeds, crowded, agrees_ne name other h) (same, refl)
        | inr free ↦ elim (Bool-cases (ltb pm.memory_limit call.alloc)) [
          | inl full ↦ rw (proceeds, free, full, agrees_ne name other h) (same, refl)
          | inr room ↦
              rw (proceeds, free, room)
                (
                  settle-active_workers name call ending released ∙ same,
                  settle-other name other call ending released h
                      ∙ with_breaker-other name other breaker pm h,
                )
        ]
      ]
    ]
