-- ===== src/RateLimit/SlidingWindow/Panics.antt =====
-- Where the sliding window faults.
use fortress_waf.Base.{ℕ, ◌+◌, ◌≡◌, ◌↔◌, String, [], arith, text_keys}
use fortress_waf.Base.Map.{get_zero}
use fortress_waf.Base.Fault.{panic}
use fortress_waf.RateLimit.State.{RateLimiter}
use fortress_waf.RateLimit.SlidingWindow.{check_sliding_window, recent}

-- The call panics exactly if the limit is 0 and no request of the key was admitted in the window
-- that ends now.
pub check_sliding_window-panic :
    (key : String) (rate burst now : ℕ) (s : RateLimiter)
    → (check_sliding_window key rate burst now s ≡ panic)
      ↔ ((rate + burst ≡ 0) × (recent s.window_size now (get_zero [] s.sliding_windows key) ≡ []))
unfolding check_sliding_window
check_sliding_window-panic key rate burst now s = ground arith
