-- ===== src/RateLimit/Isolation.antt =====
-- What a request of one key leaves of the state that another key reads.
use fortress_waf.Base.{
  ℕ, ◌≡◌, ◌≢◌, subst, String, arith, text_keys, number_keys, pair_keys, agrees_ne,
}
use fortress_waf.Base.Fault.{ok}
use fortress_waf.RateLimit.State.{
  RateLimiter, Algorithm, Granularity, Decision, sliding_window, token_bucket, leaky_bucket,
}
use fortress_waf.RateLimit.FixedWindow.{check_fixed_window}
use fortress_waf.RateLimit.SlidingWindow.{check_sliding_window}
use fortress_waf.RateLimit.TokenBucket.{check_token_bucket}
use fortress_waf.RateLimit.LeakyBucket.{check_leaky_bucket}
use fortress_waf.RateLimit.Config.{get_rate, get_burst}
use fortress_waf.RateLimit.Inspect.{inspect, dispatch}

-- The two limiters agree on all that a request of the key in the Unix second `u` reads.
pub record Agrees (key : String) (u : ℕ) (s s' : RateLimiter) : Type 0 where
  pub algorithm : s'.algorithm ≡ s.algorithm
  pub default_rate : s'.default_rate ≡ s.default_rate
  pub default_burst : s'.default_burst ≡ s.default_burst
  pub window_size : s'.window_size ≡ s.window_size
  pub fixed_windows : s'.fixed_windows (key, u) ≡ s.fixed_windows (key, u)
  pub sliding_windows : s'.sliding_windows key ≡ s.sliding_windows key
  pub token_buckets : s'.token_buckets key ≡ s.token_buckets key
  pub leaky_buckets : s'.leaky_buckets key ≡ s.leaky_buckets key
  pub per_ip_limits : s'.per_ip_limits ≡ s.per_ip_limits
  pub per_user_limits : s'.per_user_limits ≡ s.per_user_limits
  pub per_endpoint_limits : s'.per_endpoint_limits ≡ s.per_endpoint_limits
  pub per_geo_limits : s'.per_geo_limits ≡ s.per_geo_limits
  pub per_api_key_limits : s'.per_api_key_limits ≡ s.per_api_key_limits
  pub priority_queues : s'.priority_queues ≡ s.priority_queues

module _ (key other : String) (ne : key ≢ other) (u rate burst : ℕ) where
  fixed-Agrees :
      (now : ℕ) (s : RateLimiter) → Agrees other u s (check_fixed_window key rate burst now s).0
  unfolding check_fixed_window
  fixed-Agrees now s = ground (arith, agrees_ne key other ne)

  sliding-Agrees :
      (now : ℕ) (s s' : RateLimiter) (d : Decision)
      → check_sliding_window key rate burst now s ≡ ok (s', d)
      → Agrees other u s s'
  unfolding check_sliding_window
  sliding-Agrees now s s' d h = ground (arith, agrees_ne key other ne)

  token-Agrees :
      (created now : ℕ) (s : RateLimiter)
      → Agrees other u s (check_token_bucket key rate burst created now s).0
  unfolding check_token_bucket
  token-Agrees created now s = ground (arith, agrees_ne key other ne)

  leaky-Agrees :
      (created now : ℕ) (s s' : RateLimiter) (d : Decision)
      → check_leaky_bucket key rate burst created now s ≡ ok (s', d)
      → Agrees other u s s'
  unfolding check_leaky_bucket
  leaky-Agrees created now s s' d h = ground (arith, agrees_ne key other ne)

  dispatch-Agrees :
      (a : Algorithm) (created now : ℕ) (s s' : RateLimiter) (d : Decision)
      → dispatch a key rate burst created now s ≡ ok (s', d)
      → Agrees other u s s'
  unfolding dispatch
  dispatch-Agrees sliding_window created now s s' d h = sliding-Agrees now s s' d h
  dispatch-Agrees leaky_bucket created now s s' d h = leaky-Agrees created now s s' d h
  dispatch-Agrees token_bucket created now s s' d h =
      subst (Agrees other u s) (ground arith) (token-Agrees created now s)
  dispatch-Agrees _ created now s s' d h =
      subst (Agrees other u s) (ground arith) (fixed-Agrees now s)

-- Whatever the algorithm, a request of one key that does not fault leaves everything that a request
-- of another key reads as it was: the limits, the priorities, and the other key's window, times and
-- buckets.
pub inspect-Agrees :
    (key other : String) (granularity : Granularity) (created now u : ℕ) (s s' : RateLimiter)
    (d : Decision)
    → key ≢ other
    → inspect key granularity created now s ≡ ok (s', d)
    → Agrees other u s s'
unfolding inspect
inspect-Agrees key other granularity created now u s s' d ne h =
    dispatch-Agrees key other ne u (get_rate key granularity s) (get_burst key s) s.algorithm
      created now s s' d h
