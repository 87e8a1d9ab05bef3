-- ===== src/RateLimit/Config.antt =====
-- getRate, getBurst, SetRateLimit and SetPriority of internal/ratelimit/ratelimit.go.
use fortress_waf.Base.{ℕ, ◌*◌, ◌≡◌, Bool, true, false, String, arith, if◌then◌else◌, text_keys}
use fortress_waf.Base.Map.{put, get_zero}
use fortress_waf.RateLimit.State.{
  RateLimiter, Granularity, per_ip, per_user, per_session, per_api_key, per_endpoint, per_geo,
}

unfoldable pub get_rate : String → Granularity → RateLimiter → ℕ
get_rate key per_ip s = get_zero s.default_rate s.per_ip_limits key
get_rate key per_user s = get_zero s.default_rate s.per_user_limits key
get_rate key per_endpoint s = get_zero s.default_rate s.per_endpoint_limits key
get_rate key per_geo s = get_zero s.default_rate s.per_geo_limits key
get_rate key per_api_key s = get_zero s.default_rate s.per_api_key_limits key
get_rate key _ s = s.default_rate

unfoldable pub get_burst : String → RateLimiter → ℕ
get_burst key s =
    if get_zero false s.priority_queues key then s.default_burst * 2 else s.default_burst

unfoldable pub set_rate_limit : Granularity → String → ℕ → RateLimiter → RateLimiter
set_rate_limit per_ip key rate s = record s { per_ip_limits = put key rate s.per_ip_limits }
set_rate_limit per_user key rate s = record s { per_user_limits = put key rate s.per_user_limits }
set_rate_limit per_endpoint key rate s = record s {
  per_endpoint_limits = put key rate s.per_endpoint_limits;
}
set_rate_limit per_geo key rate s = record s { per_geo_limits = put key rate s.per_geo_limits }
set_rate_limit per_api_key key rate s = record s {
  per_api_key_limits = put key rate s.per_api_key_limits;
}
set_rate_limit _ key rate s = s

unfoldable pub set_priority : String → Bool → RateLimiter → RateLimiter
set_priority key premium s = record s { priority_queues = put key premium s.priority_queues }

abbrev pub is_configurable : Granularity → Bool
is_configurable per_session = false
is_configurable Granularity.other = false
is_configurable _ = true

abbrev pub same_granularity : Granularity → Granularity → Bool
same_granularity per_ip per_ip = true
same_granularity per_user per_user = true
same_granularity per_endpoint per_endpoint = true
same_granularity per_geo per_geo = true
same_granularity per_api_key per_api_key = true
same_granularity _ _ = false

-- A limit set for a key and a granularity is the rate read for them, where the granularity can be
-- configured; the rate of every other key or granularity is the one before.
pub get_rate-set_rate_limit :
    (g g' : Granularity) (key key' : String) (rate : ℕ) (s : RateLimiter)
    → get_rate key' g' (set_rate_limit g key rate s) ≡ (
        if same_granularity g g'
        then (if text_keys.agrees key key' then rate else get_rate key' g' s)
        else get_rate key' g' s)
unfolding get_rate set_rate_limit
get_rate-set_rate_limit per_ip g' key key' rate s = ground arith
get_rate-set_rate_limit _ g' key key' rate s = ground arith
