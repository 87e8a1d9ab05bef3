-- ===== src/Behavioral/Window.antt =====
-- slidingWindow of internal/engine/behavioral.go. The slice `times` is made with the capacity `max`, and no
-- operation makes it anew.
use fortress_waf.Base.{ℕ, suc, List, [], ◌∷◌, ◌++◌, ltb, length, if◌then◌else◌}
use fortress_waf.Base.Fault.{Fault, ok, panic}
use fortress_waf.RateLimit.SlidingWindow.{recent}

pub record SlidingWindow : Type 0 where
  pub times : List ℕ
  pub window : ℕ
  pub max : ℕ

unfoldable pub new_sliding_window : ℕ → ℕ → SlidingWindow
new_sliding_window window max_count = record { times = []; window = window; max = max_count }

-- add. `times[:j+1]` faults where it is above the capacity.
unfoldable pub add : ℕ → SlidingWindow → Fault (SlidingWindow × ℕ)
add now sw =
    let kept = recent sw.window now sw.times in
    if ltb (length kept) sw.max
    then ok (record sw { times = kept ++ now ∷ [] }, suc (length kept))
    else panic
