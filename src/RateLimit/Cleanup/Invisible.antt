-- ===== src/RateLimit/Cleanup/Invisible.antt =====
-- What a tick of the cleanup changes for a later request.
use fortress_waf.Base.{
  ℕ, ◌+◌, ◌*◌, ◌/◌, ◌≡◌, ◌≤◌, refl, ap, ◌∙◌, String, List, [], ◌∷◌, Option, none, some, arith, ltb,
  filter-filter, text_keys, number_keys, pair_keys, agrees_self,
}
use fortress_waf.Base.Map.{get_zero}
use fortress_waf.Base.Fault.{Fault, ok, panic}
use fortress_waf.RateLimit.State.{RateLimiter, Decision, second}
use fortress_waf.RateLimit.FixedWindow.{check_fixed_window}
use fortress_waf.RateLimit.SlidingWindow.{check_sliding_window, recent}
use fortress_waf.RateLimit.Cleanup.{cleanup, keep_times}

keep_times_lem :
    (t : ℕ) (s : RateLimiter) (o : Option (List ℕ))
    → (elim (keep_times t s o) as (λ _. List ℕ) [ none ↦ [] | some xs ↦ xs ])
      ≡ recent (s.window_size * 2) t (elim o as (λ _. List ℕ) [ none ↦ [] | some xs ↦ xs ])
keep_times_lem t s none = refl
keep_times_lem t s (some xs) = unless_empty (recent (s.window_size * 2) t xs)
  where
    unless_empty :
        (l : List ℕ)
        → (elim (elim l as (λ _. Option (List ℕ)) [ [] ↦ none | y ∷ ys ↦ some (y ∷ ys) ])
            as (λ _. List ℕ) [ none ↦ [] | some ys ↦ ys ])
          ≡ l
    unless_empty [] = refl
    unless_empty (y ∷ ys) = refl

module _ (key : String) (rate burst t now : ℕ) (s : RateLimiter) where
  -- A request of a fixed window of one second at a time not before the tick gets the decision, and
  -- leaves the entry, that it would without the tick.
  pub check_fixed_window-cleanup :
      s.window_size ≡ second
      → t ≤ now
      → ((check_fixed_window key rate burst now (cleanup t s)).1
          ≡ (check_fixed_window key rate burst now s).1)
        × ((check_fixed_window key rate burst now (cleanup t s)).0.fixed_windows (key, now / second)
            ≡ (check_fixed_window key rate burst now s).0.fixed_windows (key, now / second))
  unfolding check_fixed_window cleanup
  check_fixed_window-cleanup size le = ground (arith, agrees_self key)

  recent-keep_times :
      t ≤ now
      → recent (cleanup t s).window_size now (get_zero [] (cleanup t s).sliding_windows key)
        ≡ recent s.window_size now (get_zero [] s.sliding_windows key)
  unfolding cleanup
  recent-keep_times le =
      ap (recent s.window_size now) (keep_times_lem t s (s.sliding_windows key))
      ∙ filter-filter (λ x. ltb now (x + s.window_size)) (λ x. ltb t (x + s.window_size * 2))
          (get_zero [] s.sliding_windows key) (λ x p. ground arith)

  size : (cleanup t s).window_size ≡ s.window_size
  unfolding cleanup
  size = refl

  -- The decision, and the times that the store then holds under the key.
  abbrev pub decision_of : Fault (RateLimiter × Decision) → Fault (Decision × List ℕ)
  decision_of panic = panic
  decision_of (ok (s', d)) = ok (d, get_zero [] s'.sliding_windows key)

  -- A request of a sliding window at a time not before the tick gets the decision, or the panic, and
  -- leaves the times under its key, that it would without the tick.
  pub check_sliding_window-cleanup :
      t ≤ now
      → decision_of (check_sliding_window key rate burst now (cleanup t s))
        ≡ decision_of (check_sliding_window key rate burst now s)
  unfolding check_sliding_window
  check_sliding_window-cleanup le = ground (arith, recent-keep_times le, size, agrees_self key)
