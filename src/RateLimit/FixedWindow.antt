-- ===== src/RateLimit/FixedWindow.antt =====
-- checkFixedWindow of internal/ratelimit/ratelimit.go.
pub mod Quota
use fortress_waf.Base.{
  ℕ, ◌+◌, ◌-◌, ◌/◌, Bool, true, false, String, none, some, ltb, if◌then◌else◌, pair_keys, text_keys,
  number_keys,
}
use fortress_waf.Base.Int.{ℤ, pos, sub_ℕ}
use fortress_waf.Base.Map.{put}
use fortress_waf.RateLimit.State.{RateLimiter, WindowEntry, Decision, second}

-- The decision of a request that opens a window.
abbrev pub opened : ℕ → ℕ → Decision
opened limit now = record {
  allowed = true;
  retry_after = 0;
  remaining = sub_ℕ limit 1;
  limit = limit;
  reset_at = now + second;
}

abbrev pub counted : ℕ → ℕ → ℕ → Decision
counted limit count now =
    if ltb limit count
    then record {
      allowed = false;
      retry_after = 1;
      remaining = pos 0;
      limit = limit;
      reset_at = now + second;
    }
    else record {
      allowed = true;
      retry_after = 0;
      remaining = sub_ℕ limit count;
      limit = limit;
      reset_at = now + second;
    }

unfoldable pub check_fixed_window : String → ℕ → ℕ → ℕ → RateLimiter → RateLimiter × Decision
check_fixed_window key rate burst now s =
    let window_key : String × ℕ = (key, now / second) in
    let limit = rate + burst in
    let fresh : WindowEntry = record { timestamp = now; count = 1 } in
    elim (s.fixed_windows window_key) [
      | none ↦ (record s { fixed_windows = put window_key fresh s.fixed_windows }, opened limit now)
      | some entry ↦
          if ltb (entry.timestamp + second) now
          then (record s { fixed_windows = put window_key fresh s.fixed_windows }, opened limit now)
          else (
            record s {
              fixed_windows =
                  put window_key (record entry { count = entry.count + 1 }) s.fixed_windows;
            },
            counted limit (entry.count + 1) now,
          )
    ]
