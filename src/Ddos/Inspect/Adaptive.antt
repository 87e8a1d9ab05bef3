-- ===== src/Ddos/Inspect/Adaptive.antt =====
-- The bounds of GetAdaptiveRate of internal/engine/ddos.go.
use fortress_waf.Base.{
  ℕ, ◌+◌, ◌/◌, ◌≡◌, ◌≤◌, ◌⊎◌, inl, inr, refl, max, String, arith, length, Option-cases,
}
use fortress_waf.Ddos.Counter.{DdosProtection}
use fortress_waf.Ddos.Flood.Steps.{stored}
use fortress_waf.Ddos.Inspect.{get_adaptive_rate}

-- GetAdaptiveRate answers the current rate while the counter holds no more times than that, and else a
-- rate of at least 10 and at least half the current one, rounded down: at most the current rate where that
-- is 10 or more, and otherwise 10, which is above the current rate.
pub get_adaptive_rate_bounds :
    (ip : String) (current_rate : ℕ) (d : DdosProtection)
    → let rate = get_adaptive_rate ip current_rate d in
      ((length (stored ip d) ≤ current_rate) × (rate ≡ current_rate))
      ⊎ ((current_rate + 1 ≤ length (stored ip d))
          × (current_rate / 2 ≤ rate)
          × (10 ≤ rate)
          × (rate ≤ max current_rate 10)
          × (current_rate + 1 ≤ 10 → rate ≡ 10))
unfolding get_adaptive_rate
get_adaptive_rate_bounds ip current_rate d = elim (Option-cases (d.ip_counters ip)) [
  | inl e ↦ rw (get_adaptive_rate, e) (inl (omega arith, refl))
  | inr (c, e) ↦ rw (get_adaptive_rate, e) (ground arith)
]
