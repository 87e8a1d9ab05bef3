-- ===== src/Ddos/Inspect.antt =====
-- Inspect, GetAdaptiveRate and cleanup of internal/engine/ddos.go.
pub mod Steps
pub mod Adaptive
use fortress_waf.Base.{
  ℕ, ◌+◌, ◌*◌, ◌/◌, max, Bool, true, false, String, List, [], ◌∷◌, Option, none, some, ltb, length,
  if◌then◌else◌, text_keys,
}
use fortress_waf.Base.Int.{ℤ}
use fortress_waf.Base.Map.{Map}
use fortress_waf.Pipeline.Detection.{Detection}
use fortress_waf.Ddos.Counter.{DdosProtection, SlidingWindowCounter, second}
use fortress_waf.Ddos.Flood.{Request, detect_http_flood}
use fortress_waf.Ddos.Slow.{detect_slowloris, detect_slow_post}
use fortress_waf.Ddos.CacheBusting.{detect_cache_busting}

-- The detector that is called where those before it answer nil.
unfoldable pub or_else :
    DdosProtection × Option Detection
    → (DdosProtection → DdosProtection × Option Detection)
    → DdosProtection × Option Detection
or_else (d, some dec) next = (d, some dec)
or_else (d, none) next = next d

-- The functions of the packages strings and fmt.
module _ (to_lower : String → String) (contains : String → String → Bool) (scan : String → ℤ) where
  unfoldable pub inspect : Request → ℕ → DdosProtection → DdosProtection × Option Detection
  inspect ctx now d = or_else (detect_http_flood ctx now d) (λ d1.
      or_else (detect_slowloris ctx now d1) (λ d2.
        or_else (detect_slow_post scan ctx now d2)
          (λ d3. (d3, detect_cache_busting to_lower contains ctx))))

-- The halves and fifths of float64 are exact below the whole number.
unfoldable pub get_adaptive_rate : String → ℕ → DdosProtection → ℕ
get_adaptive_rate ip current_rate d = elim (d.ip_counters ip) [
  | none ↦ current_rate
  | some counter ↦
      let count = length counter.timestamps in
      if ltb (current_rate * 2) count
      then max (current_rate / 2) 10
      else if ltb current_rate count
      then max (current_rate * 4 / 5) 10
      else current_rate
]

abbrev last_time : List ℕ → Option ℕ
last_time [] = none
last_time (t ∷ []) = some t
last_time (t ∷ u ∷ ts) = last_time (u ∷ ts)

abbrev keep_counter : ℕ → Option SlidingWindowCounter → Option SlidingWindowCounter
keep_counter now none = none
keep_counter now (some c) = elim (last_time c.timestamps) [
  | none ↦ none
  | some t ↦ if ltb (t + 600 * second) now then none else some c
]

abbrev keep_timer : ℕ → Option ℕ → Option ℕ
keep_timer now none = none
keep_timer now (some t) = if ltb (t + 300 * second) now then none else some t

-- A tick of the cleanup.
unfoldable pub cleanup : ℕ → DdosProtection → DdosProtection
cleanup now d = record d {
  ip_counters = λ ip. keep_counter now (d.ip_counters ip);
  slow_loris_timers = λ ip. keep_timer now (d.slow_loris_timers ip);
  slow_post_timers = λ ip. keep_timer now (d.slow_post_timers ip);
}
