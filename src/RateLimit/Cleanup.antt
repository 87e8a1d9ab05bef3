-- ===== src/RateLimit/Cleanup.antt =====
-- One tick of cleanupLoop of internal/ratelimit/ratelimit.go. Each loop over a map treats its
-- entries one by one, so the maps are given entry by entry.
pub mod Invisible
use fortress_waf.Base.{
  ℕ, ◌+◌, ◌*◌, List, [], ◌∷◌, Option, none, some, ◌&&◌, ltb, nat_beq, if◌then◌else◌, length,
}
use fortress_waf.RateLimit.State.{RateLimiter, WindowEntry, TokenBucket, LeakyBucket}
use fortress_waf.RateLimit.SlidingWindow.{recent}

abbrev pub keep_window : ℕ → RateLimiter → Option WindowEntry → Option WindowEntry
keep_window now s none = none
keep_window now s (some entry) =
    if ltb (entry.timestamp + s.window_size * 2) now then none else some entry

abbrev pub keep_times : ℕ → RateLimiter → Option (List ℕ) → Option (List ℕ)
keep_times now s none = none
keep_times now s (some entries) = elim (recent (s.window_size * 2) now entries) [
  | [] ↦ none
  | t ∷ ts ↦ some (t ∷ ts)
]

abbrev pub keep_token_bucket : ℕ → RateLimiter → Option TokenBucket → Option TokenBucket
keep_token_bucket now s none = none
keep_token_bucket now s (some bucket) =
    if ltb (bucket.last_refill + s.cleanup_tick * 2) now then none else some bucket

abbrev pub keep_leaky_bucket : ℕ → RateLimiter → Option LeakyBucket → Option LeakyBucket
keep_leaky_bucket now s none = none
keep_leaky_bucket now s (some bucket) =
    if ltb (bucket.last_leak + s.cleanup_tick * 2) now && nat_beq (length bucket.queue) 0
    then none
    else some bucket

unfoldable pub cleanup : ℕ → RateLimiter → RateLimiter
cleanup now s = record s {
  fixed_windows = λ k. keep_window now s (s.fixed_windows k);
  sliding_windows = λ k. keep_times now s (s.sliding_windows k);
  token_buckets = λ k. keep_token_bucket now s (s.token_buckets k);
  leaky_buckets = λ k. keep_leaky_bucket now s (s.leaky_buckets k);
}
