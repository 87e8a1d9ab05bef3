-- ===== src/RateLimit/State.antt =====
-- The types of internal/ratelimit/ratelimit.go.
use fortress_waf.Base.{ℕ, ◌*◌, Bool, String, List}
use fortress_waf.Base.Int.{ℤ}
use fortress_waf.Base.Map.{Map, empty}

-- `other` is any other text; `Inspect` treats it as `fixed_window`.
pub data Algorithm : Type 0 where
  fixed_window sliding_window token_bucket leaky_bucket other : Algorithm

pub data Granularity : Type 0 where
  per_ip per_user per_session per_api_key per_endpoint per_geo other : Granularity

pub record WindowEntry : Type 0 where
  pub timestamp : ℕ
  pub count : ℕ

-- `tokens` and `capacity` are float64 in the source, and here whole numbers of 10^-9 tokens: at a
-- whole rate the tokens gained in a whole number of nanoseconds are such a number. The rounding of
-- float64 is left out.
pub record TokenBucket : Type 0 where
  pub tokens : ℕ
  pub capacity : ℕ
  pub refill_rate : ℕ
  pub last_refill : ℕ

pub record LeakyBucket : Type 0 where
  pub queue : List ℕ
  pub capacity : ℕ
  pub leak_rate : ℕ
  pub last_leak : ℕ

-- The key of a fixed window is the text "%s:%d" of a key and a Unix second. The digits hold no
-- colon, so the text determines the pair that stands for it here.
pub record RateLimiter : Type 0 where
  pub algorithm : Algorithm
  pub default_rate : ℕ
  pub default_burst : ℕ
  pub window_size : ℕ
  pub cleanup_tick : ℕ
  pub fixed_windows : Map (String × ℕ) WindowEntry
  pub sliding_windows : Map String (List ℕ)
  pub token_buckets : Map String TokenBucket
  pub leaky_buckets : Map String LeakyBucket
  pub per_ip_limits : Map String ℕ
  pub per_user_limits : Map String ℕ
  pub per_endpoint_limits : Map String ℕ
  pub per_geo_limits : Map String ℕ
  pub per_api_key_limits : Map String ℕ
  pub priority_queues : Map String Bool

pub record Decision : Type 0 where
  pub allowed : Bool
  pub retry_after : ℕ
  pub remaining : ℤ
  pub limit : ℕ
  pub reset_at : ℕ

abbrev pub second : ℕ
second = 1_000_000_000

abbrev pub millisecond : ℕ
millisecond = 1_000_000

abbrev pub minute : ℕ
minute = 60_000_000_000

abbrev pub new_rate_limiter : Algorithm → ℕ → ℕ → RateLimiter
new_rate_limiter algorithm default_rate default_burst = record {
  algorithm = algorithm;
  default_rate = default_rate;
  default_burst = default_burst;
  window_size = second;
  cleanup_tick = 5 * minute;
  fixed_windows = empty;
  sliding_windows = empty;
  token_buckets = empty;
  leaky_buckets = empty;
  per_ip_limits = empty;
  per_user_limits = empty;
  per_endpoint_limits = empty;
  per_geo_limits = empty;
  per_api_key_limits = empty;
  priority_queues = empty;
}
