-- ===== src/Ddos/Tests.antt =====
-- Runs of the model of internal/engine/ddos.go on a few requests.
use fortress_waf.Base.{
  ℕ, ◌+◌, ◌*◌, ◌≡◌, ◌≤◌, ◌⊎◌, refl, Bool, false, String, List, [], ◌∷◌, none, some, length, arith,
  ◌==◌, text_keys,
}
use fortress_waf.Base.Int.{ℤ, pos}
use fortress_waf.Base.Map.{empty, put}
use fortress_waf.Pipeline.Types.{Action}
use fortress_waf.Pipeline.Detection.{detection}
use fortress_waf.RateLimit.SlidingWindow.Bound.{within}
use fortress_waf.Ddos.Counter.{DdosProtection, new_ddos_protection, second}
use fortress_waf.Ddos.Flood.{Request}
use fortress_waf.Ddos.Flood.Steps.{stored}
use fortress_waf.Ddos.Slow.{detect_slowloris}
use fortress_waf.Ddos.Slow.SecondPost.{visits, detect_slowloris-visits}
use fortress_waf.Ddos.Inspect.{get_adaptive_rate}
use fortress_waf.Ddos.Inspect.Adaptive.{get_adaptive_rate_bounds}
use fortress_waf.Ddos.Quota.{passed, passed_quota}

-- A chunked upload.
abbrev upload : Request
upload = record {
  real_ip = "10.0.0.1";
  path = "/upload";
  session_id = "";
  method = "POST";
  expect = "";
  content_length = "";
  body_length = some 100;
  query_params = [];
}

abbrev other : Request
other = record upload { real_ip = "10.0.0.2" }

abbrev protection : DdosProtection
protection = new_ddos_protection false

-- The protection with a rate of one request by address.
abbrev strict : DdosProtection
strict = record protection { per_ip_rate = 1 }

abbrev same : String → String → Bool
same s t = s == t

abbrev as_is : String → String
as_is s = s

abbrev scan : String → ℤ
scan s = pos 0

abbrev three_requests : List (ℕ × Request)
three_requests = (1000, upload) ∷ (1001, other) ∷ (1002, upload) ∷ []

passed_quota_example :
    length (within 1000000000 1002 (passed as_is same scan "10.0.0.1" three_requests [] strict)) ≤ 1
unfolding new_ddos_protection
passed_quota_example =
    passed_quota as_is same scan 0 "10.0.0.1" three_requests strict
      (omega arith, (omega arith, (omega arith, tt))) refl 1002

-- Two uploads 31 seconds from each other.
detect_slowloris-visits_example :
    ((detect_slowloris upload 1000 protection).1 ≡ none)
    × ((detect_slowloris upload
          (1000 + 31 * second)
          (visits ((2000, other) ∷ []) ((detect_slowloris upload 1000 protection).0))).1
        ≡ some (detection Action.block "DDoS004" "Slowloris Attack" "high" 85))
unfolding new_ddos_protection
detect_slowloris-visits_example =
    detect_slowloris-visits 1000 (1000 + 31 * second) upload upload ((2000, other) ∷ []) protection
      (refl, refl, refl) (refl, refl, refl) refl refl (λ e. refl, tt)

-- Nine recent requests of an address.
abbrev busy : DdosProtection
busy = record protection {
  ip_counters =
      put "10.0.0.1"
        (record {
          timestamps = 1 ∷ 2 ∷ 3 ∷ 4 ∷ 5 ∷ 6 ∷ 7 ∷ 8 ∷ 9 ∷ [];
          window = second;
          max_count = 120;
        })
        empty;
}

-- The rate of a busy address rises from 4 to 10.
get_adaptive_rate_rises_test : get_adaptive_rate "10.0.0.1" 4 busy ≡ 10
unfolding get_adaptive_rate
get_adaptive_rate_rises_test = refl

get_adaptive_rate_bounds_example :
    ((length (stored "10.0.0.1" busy) ≤ 4) × (get_adaptive_rate "10.0.0.1" 4 busy ≡ 4))
    ⊎ ((5 ≤ length (stored "10.0.0.1" busy))
        × (2 ≤ get_adaptive_rate "10.0.0.1" 4 busy)
        × (10 ≤ get_adaptive_rate "10.0.0.1" 4 busy)
        × (get_adaptive_rate "10.0.0.1" 4 busy ≤ 10)
        × (5 ≤ 10 → get_adaptive_rate "10.0.0.1" 4 busy ≡ 10))
get_adaptive_rate_bounds_example = get_adaptive_rate_bounds "10.0.0.1" 4 busy
