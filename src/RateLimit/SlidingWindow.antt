-- ===== src/RateLimit/SlidingWindow.antt =====
-- checkSlidingWindow of internal/ratelimit/ratelimit.go.
pub mod Greedy
pub mod Bound
pub mod Panics
use fortress_waf.Base.{
  ℕ, ◌+◌, ◌-◌, Bool, true, false, String, List, [], ◌∷◌, ◌++◌, ltb, leb, if◌then◌else◌, length,
  filter, text_keys,
}
use fortress_waf.Base.Int.{pos, sub_ℕ}
use fortress_waf.Base.Map.{put, get_zero}
use fortress_waf.Base.Fault.{Fault, ok, panic}
use fortress_waf.RateLimit.State.{RateLimiter, Decision}

-- The loop that keeps the times after `now - window`.
abbrev pub recent : ℕ → ℕ → List ℕ → List ℕ
recent window now = filter (λ t. ltb now (t + window))

-- `valid[0]` faults where the limit is 0 and no entry is left. `-` stops at 0, as the test of
-- `retryAfter` does.
unfoldable pub check_sliding_window :
    String → ℕ → ℕ → ℕ → RateLimiter → Fault (RateLimiter × Decision)
check_sliding_window key rate burst now s =
    let valid = recent s.window_size now (get_zero [] s.sliding_windows key) in
    let limit = rate + burst in
    let kept = record s { sliding_windows = put key valid s.sliding_windows } in
    if leb limit (length valid)
    then elim valid [
      | [] ↦ panic
      | oldest ∷ _ ↦ ok (
        kept,
        record {
          allowed = false;
          retry_after = oldest + s.window_size - now;
          remaining = pos 0;
          limit = limit;
          reset_at = oldest + s.window_size;
        },
      )
    ]
    else ok (
      record s { sliding_windows = put key (valid ++ now ∷ []) s.sliding_windows },
      record {
        allowed = true;
        retry_after = 0;
        remaining = sub_ℕ limit (length valid + 1);
        limit = limit;
        reset_at = now + s.window_size;
      },
    )
