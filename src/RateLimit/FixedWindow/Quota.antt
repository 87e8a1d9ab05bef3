-- ===== src/RateLimit/FixedWindow/Quota.antt =====
-- How many requests a fixed window admits.
use fortress_waf.Base.{
  ℕ, suc, ◌+◌, ◌-◌, ◌/◌, ◌≡◌, refl, true, String, List, [], ◌∷◌, none, some, arith, min, max, leb,
  if◌then◌else◌, All, length, pair_keys, text_keys, number_keys, agrees_self, le→ltb_false,
}
use fortress_waf.RateLimit.State.{RateLimiter, second}
use fortress_waf.RateLimit.FixedWindow.{check_fixed_window}

module _ (key : String) (rate burst : ℕ) where
  -- The number of the requests at the given times that are admitted.
  unfoldable pub admitted : List ℕ → RateLimiter → ℕ
  admitted [] s = 0
  admitted (now ∷ times) s =
      let (s', decision) = check_fixed_window key rate burst now s in
      let rest = admitted times s' in if decision.allowed then suc rest else rest

  -- One request in a second that has an entry.
  count_up :
      (now ts c : ℕ) (s : RateLimiter)
      → ts / second ≡ now / second
      → s.fixed_windows (key, now / second) ≡ some (record { timestamp = ts; count = c })
      → ((check_fixed_window key rate burst now s).0.fixed_windows (key, now / second)
          ≡ some (record { timestamp = ts; count = c + 1 }))
        × ((check_fixed_window key rate burst now s).1.allowed ≡ leb (c + 1) (rate + burst))
  unfolding check_fixed_window
  count_up now ts c s f h =
      rw (h, check_fixed_window, le→ltb_false (ts + second) now (omega arith))
        (ground (arith, agrees_self key), ground arith)

  open_window :
      (now : ℕ) (s : RateLimiter)
      → s.fixed_windows (key, now / second) ≡ none
      → ((check_fixed_window key rate burst now s).0.fixed_windows (key, now / second)
          ≡ some (record { timestamp = now; count = 1 }))
        × ((check_fixed_window key rate burst now s).1.allowed ≡ true)
  unfolding check_fixed_window
  open_window now s h = rw (h, check_fixed_window) (ground (arith, agrees_self key), refl)

  admitted_after :
      (times : List ℕ) (u ts c : ℕ) (s : RateLimiter)
      → ts / second ≡ u
      → All (λ now. now / second ≡ u) times
      → s.fixed_windows (key, u) ≡ some (record { timestamp = ts; count = c })
      → admitted times s ≡ min (length times) (rate + burst - c)
  unfolding admitted
  admitted_after [] u ts c s f a h = omega arith
  admitted_after (now ∷ times) u ts c s f (e, a) h =
      let (entry, verdict) = count_up now ts c s (rw (e, f) refl) (rw e h) in
      let rest =
        admitted_after times u ts (c + 1) (check_fixed_window key rate burst now s).0 f a
          (rw e at entry) in
      ground (arith, verdict, rest)

  -- Of the requests of one key in one second whose window is not open yet, the first is admitted,
  -- and then as many as make up the rate and the burst together; all others are refused.
  pub admitted_quota :
      (times : List ℕ) (u : ℕ) (s : RateLimiter)
      → All (λ now. now / second ≡ u) times
      → s.fixed_windows (key, u) ≡ none
      → admitted times s ≡ min (length times) (max 1 (rate + burst))
  unfolding admitted
  admitted_quota [] u s a h = omega arith
  admitted_quota (now ∷ times) u s (e, a) h =
      let (entry, verdict) = open_window now s (rw e h) in
      let rest =
        admitted_after times u now 1 (check_fixed_window key rate burst now s).0 e a
          (rw e at entry) in
      ground (arith, verdict, rest)
