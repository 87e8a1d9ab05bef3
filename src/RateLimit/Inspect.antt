-- ===== src/RateLimit/Inspect.antt =====
-- Inspect and Allowed of internal/ratelimit/ratelimit.go.
use fortress_waf.Base.{ℕ, String}
use fortress_waf.Base.Fault.{Fault, ok}
use fortress_waf.RateLimit.State.{
  RateLimiter, Algorithm, Granularity, Decision, sliding_window, token_bucket, leaky_bucket,
}
use fortress_waf.RateLimit.Config.{get_rate, get_burst}
use fortress_waf.RateLimit.FixedWindow.{check_fixed_window}
use fortress_waf.RateLimit.SlidingWindow.{check_sliding_window}
use fortress_waf.RateLimit.TokenBucket.{check_token_bucket}
use fortress_waf.RateLimit.LeakyBucket.{check_leaky_bucket}

-- The `switch` of `Inspect`; its `default` is the fixed window.
unfoldable pub dispatch :
    Algorithm → String → ℕ → ℕ → ℕ → ℕ → RateLimiter → Fault (RateLimiter × Decision)
dispatch sliding_window key rate burst created now s = check_sliding_window key rate burst now s
dispatch token_bucket key rate burst created now s =
    ok (check_token_bucket key rate burst created now s)
dispatch leaky_bucket key rate burst created now s = check_leaky_bucket key rate burst created now s
dispatch _ key rate burst created now s = ok (check_fixed_window key rate burst now s)

unfoldable pub inspect : String → Granularity → ℕ → ℕ → RateLimiter → Fault (RateLimiter × Decision)
unfolding dispatch
inspect key granularity created now s =
    dispatch s.algorithm key (get_rate key granularity s) (get_burst key s) created now s
