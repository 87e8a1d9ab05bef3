-- ===== src/RateLimit/TokenBucket.antt =====
-- checkTokenBucket of internal/ratelimit/ratelimit.go.
pub mod Budget
use fortress_waf.Base.{
  ℕ, ◌+◌, ◌-◌, ◌*◌, ◌/◌, min, Bool, true, false, String, none, some, ltb, nat_beq, if◌then◌else◌,
  text_keys,
}
use fortress_waf.Base.Int.{pos}
use fortress_waf.Base.Map.{put}
use fortress_waf.RateLimit.State.{RateLimiter, TokenBucket, Decision, second, millisecond}

-- One token, in the units of a bucket.
abbrev pub token : ℕ
token = 1_000_000_000

-- `if rate <= 0 { rate = 1 }`
abbrev pub at_least_one : ℕ → ℕ
at_least_one rate = if nat_beq rate 0 then 1 else rate

unfoldable pub find_token_bucket : String → ℕ → ℕ → ℕ → RateLimiter → TokenBucket
find_token_bucket key rate burst created s = elim (s.token_buckets key) [
  | none ↦ record {
    tokens = burst * token;
    capacity = burst * token;
    refill_rate = rate;
    last_refill = created;
  }
  | some bucket ↦ bucket
]

unfoldable pub refill : ℕ → TokenBucket → TokenBucket
refill now b = record b {
  tokens = min b.capacity (b.tokens + (now - b.last_refill) * b.refill_rate);
  last_refill = now;
}

-- `time.Duration(1.0/refillRate*1000)`, in milliseconds.
abbrev pub refill_time : TokenBucket → ℕ
refill_time b = 1000 / b.refill_rate

unfoldable pub take_token : ℕ → ℕ → TokenBucket → TokenBucket × Decision
take_token limit now b =
    if ltb b.tokens token
    then (
      b,
      record {
        allowed = false;
        retry_after = refill_time b;
        remaining = pos 0;
        limit = limit;
        reset_at = now + refill_time b * millisecond;
      },
    )
    else (
      record b { tokens = b.tokens - token },
      record {
        allowed = true;
        retry_after = 0;
        remaining = pos ((b.tokens - token) / token);
        limit = limit;
        reset_at = now + second;
      },
    )

-- `created` is the `time.Now()` of a new bucket, and `now` the one after the locks are taken.
unfoldable pub check_token_bucket : String → ℕ → ℕ → ℕ → ℕ → RateLimiter → RateLimiter × Decision
unfolding find_token_bucket refill take_token
check_token_bucket key rate burst created now s =
    let rate' = at_least_one rate in
    let (bucket, decision) =
      take_token (rate' + burst) now (refill now (find_token_bucket key rate' burst created s)) in
    (record s { token_buckets = put key bucket s.token_buckets }, decision)
