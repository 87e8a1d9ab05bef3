-- ===== src/RateLimit/Tests.antt =====
-- The rate limiter of internal/ratelimit/ratelimit.go at concrete inputs.
use fortress_waf.Base.{
  ltb, ℕ, agrees_false→ne, text_keys, ◌+◌, ◌-◌, ◌*◌, ◌≡◌, ◌≤◌, ◌↔◌, refl, List, [], ◌∷◌, some,
  arith, length, inl, if◌then◌else◌, true,
}
use fortress_waf.Base.Map.{put, empty}
use fortress_waf.Base.Int.{pos}
use fortress_waf.Base.Fault.{ok, panic}
use fortress_waf.RateLimit.State.{
  RateLimiter, LeakyBucket, Decision, new_rate_limiter, second, per_ip, sliding_window,
}
use fortress_waf.RateLimit.FixedWindow.{check_fixed_window}
use fortress_waf.RateLimit.FixedWindow.Quota.{admitted, admitted_quota}
use fortress_waf.RateLimit.SlidingWindow.{recent, check_sliding_window}
use fortress_waf.RateLimit.SlidingWindow.Greedy.{run, greedy, admit, run-greedy}
use fortress_waf.RateLimit.SlidingWindow.Bound.{within, run_window_bound}
use fortress_waf.RateLimit.SlidingWindow.Panics.{check_sliding_window-panic}
use fortress_waf.RateLimit.TokenBucket.Budget.{spend, spend_budget}
use fortress_waf.RateLimit.TokenBucket.{token}
use fortress_waf.RateLimit.LeakyBucket.{check_leaky_bucket, find_leaky_bucket}
use fortress_waf.RateLimit.LeakyBucket.Queue.{
  IsSound, leak_count, check_leaky_bucket-IsSound, check_leaky_bucket_panics,
}
use fortress_waf.RateLimit.Isolation.{Agrees, inspect-Agrees}
use fortress_waf.RateLimit.Inspect.{inspect, dispatch}
use fortress_waf.RateLimit.Cleanup.{cleanup}
use fortress_waf.RateLimit.Cleanup.Invisible.{
  check_sliding_window-cleanup, check_fixed_window-cleanup, decision_of,
}
use fortress_waf.RateLimit.Config.{get_burst, get_rate, set_rate_limit, get_rate-set_rate_limit}

abbrev limiter : RateLimiter
limiter = new_rate_limiter sliding_window 2 1

-- A fixed window admits three of four requests.
admitted_test : admitted "a" 2 1 (100 ∷ 200 ∷ 300 ∷ 400 ∷ []) limiter ≡ 3
unfolding admitted check_fixed_window
admitted_test = refl

admitted_quota_example : admitted "a" 2 1 (100 ∷ 200 ∷ 300 ∷ 400 ∷ []) limiter ≡ 3
admitted_quota_example =
    admitted_quota "a" 2 1 (100 ∷ 200 ∷ 300 ∷ 400 ∷ []) 0 limiter (refl, (refl, (refl, (refl, tt))))
      refl

run-greedy_example :
    (s : RateLimiter) × (run "a" 1 0 (5 ∷ 9 ∷ 2_000_000_000 ∷ []) [] limiter
      ≡ ok (5 ∷ 2_000_000_000 ∷ [], s))
unfolding greedy admit
run-greedy_example =
    run-greedy "a" 1 0 second 0 (5 ∷ 9 ∷ 2_000_000_000 ∷ []) [] limiter (omega arith)
      (omega arith, (omega arith, (omega arith, tt))) (refl, refl)

run_window_bound_example :
    (history : List ℕ) × (s : RateLimiter) × (run "a" 1 0 (5 ∷ 9 ∷ []) [] limiter ≡ ok (history, s))
    × ((u : ℕ) → length (within second u history) ≤ 1)
run_window_bound_example =
    run_window_bound "a" 1 0 0 (5 ∷ 9 ∷ []) limiter (omega arith) (omega arith, (omega arith, tt))
      refl

check_sliding_window-panic_test :
    (check_sliding_window "a" 0 0 7 limiter ≡ panic) ↔ ((0 + 0 ≡ 0) × (recent second 7 [] ≡ []))
check_sliding_window-panic_test = check_sliding_window-panic "a" 0 0 7 limiter

spend_budget_example :
    (spend "a" 2 1 (0 ∷ 10 ∷ 1_000_000_000 ∷ []) limiter).0 * token ≤ 1 * token + 1_000_000_000 * 2
spend_budget_example =
    spend_budget "a" 2 1 0 (10 ∷ 1_000_000_000 ∷ []) limiter (omega arith, (omega arith, tt)) refl

abbrev bucket : LeakyBucket
bucket = record { queue = []; capacity = 1; leak_rate = 500_000_000; last_leak = 3 }

bucket-IsSound : IsSound bucket
bucket-IsSound = record { leaks = omega arith; holds = omega arith; fits = omega arith }

check_leaky_bucket-IsSound_example :
    (s : RateLimiter) × (d : Decision) × (b : LeakyBucket) × (check_leaky_bucket "a" 2 1 3 4 limiter
      ≡ ok (s, d))
    × (s.leaky_buckets "a" ≡ some b)
    × IsSound b
    × (d.allowed ≡ true)
    × (length b.queue ≡ 0 - leak_count 4 bucket + (if d.allowed then 1 else 0))
    × (b.capacity ≡ bucket.capacity)
    × (b.leak_rate ≡ bucket.leak_rate)
    × (b.last_leak ≡ (if ltb 0 (leak_count 4 bucket) then 4 else bucket.last_leak))
unfolding find_leaky_bucket
check_leaky_bucket-IsSound_example =
    check_leaky_bucket-IsSound "a" 2 1 3 4 limiter bucket refl bucket-IsSound

check_leaky_bucket_panics_test : check_leaky_bucket "a" 2 0 3 4 limiter ≡ panic
check_leaky_bucket_panics_test = check_leaky_bucket_panics "a" 2 0 3 4 limiter refl (inl refl)

abbrev after_a : RateLimiter
after_a = record limiter { sliding_windows = put "a" (4 ∷ []) empty }

inspect-Agrees_example : Agrees "b" 0 limiter after_a
unfolding inspect dispatch check_sliding_window get_rate get_burst
inspect-Agrees_example =
    inspect-Agrees "a" "b" per_ip 3 4 0 limiter after_a
      (record {
        allowed = true;
        retry_after = 0;
        remaining = pos 2;
        limit = 3;
        reset_at = 1_000_000_004;
      })
      (agrees_false→ne "a" "b" refl) refl

check_fixed_window-cleanup_test :
    ((check_fixed_window "a" 1 0 9 (cleanup 5 limiter)).1
      ≡ (check_fixed_window "a" 1 0 9 limiter).1)
    × ((check_fixed_window "a" 1 0 9 (cleanup 5 limiter)).0.fixed_windows ("a", 0)
        ≡ (check_fixed_window "a" 1 0 9 limiter).0.fixed_windows ("a", 0))
check_fixed_window-cleanup_test = check_fixed_window-cleanup "a" 1 0 5 9 limiter refl (omega arith)

check_sliding_window-cleanup_test :
    decision_of "a" 1 0 5 9 limiter (check_sliding_window "a" 1 0 9 (cleanup 5 limiter))
    ≡ decision_of "a" 1 0 5 9 limiter (check_sliding_window "a" 1 0 9 limiter)
check_sliding_window-cleanup_test = check_sliding_window-cleanup "a" 1 0 5 9 limiter (omega arith)

get_rate-set_rate_limit_test : get_rate "a" per_ip (set_rate_limit per_ip "a" 7 limiter) ≡ 7
get_rate-set_rate_limit_test = get_rate-set_rate_limit per_ip per_ip "a" "a" 7 limiter
