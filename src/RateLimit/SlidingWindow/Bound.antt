-- ===== src/RateLimit/SlidingWindow/Bound.antt =====
-- How many admitted times of a sliding window lie in one window.
use fortress_waf.Base.{
  ℕ, ◌+◌, ◌≡◌, ◌≤◌, ◌<◌, refl, ◌&&◌, String, List, [], ◌∷◌, ◌++◌, arith, ltb, leb, All, length,
  filter, filter-append, length-append, text_keys, tests, Bool-cases, inl, inr,
}
use fortress_waf.Base.Map.{get_zero}
use fortress_waf.Base.Fault.{ok}
use fortress_waf.RateLimit.State.{RateLimiter}
use fortress_waf.RateLimit.SlidingWindow.{recent}
use fortress_waf.RateLimit.SlidingWindow.Greedy.{admit, greedy, InOrder, run, run-greedy}

-- The admitted times that lie in the window that ends at `t`.
abbrev pub within : ℕ → ℕ → List ℕ → List ℕ
within window t = filter (λ x. leb x t && ltb t (x + window))

module _ (window limit : ℕ) where
  abbrev pub IsBounded : ℕ → List ℕ → Type 0
  IsBounded now history =
      All (λ x. x ≤ now) history × ((t : ℕ) → length (within window t history) ≤ limit)

  pub All-weaken : (now t : ℕ) (xs : List ℕ) → t ≤ now → All (λ x. x ≤ t) xs → All (λ x. x ≤ now) xs
  All-weaken now t [] le h = tt
  All-weaken now t (x ∷ xs) le h = (omega arith, All-weaken now t xs le h.1)

  All-snoc : (now : ℕ) (xs : List ℕ) → All (λ x. x ≤ now) xs → All (λ x. x ≤ now) (xs ++ now ∷ [])
  All-snoc now [] h = (omega arith, tt)
  All-snoc now (x ∷ xs) h = (h.0, All-snoc now xs h.1)

  pub within-le-recent :
      (now t : ℕ) (xs : List ℕ)
      → now ≤ t
      → length (within window t xs) ≤ length (recent window now xs)
  within-le-recent now t [] le = omega arith
  within-le-recent now t (x ∷ xs) le = ground (arith, within-le-recent now t xs le)

  snoc_bounded :
      (now t : ℕ) (history : List ℕ)
      → length (within window t history) ≤ limit
      → length (recent window now history) < limit
      → length (within window t (history ++ now ∷ [])) ≤ limit
  snoc_bounded now t history old room =
      rw filter-append (rw length-append (ground (arith, within-le-recent now t history)))

  pub admit-IsBounded :
      (t now : ℕ) (history : List ℕ)
      → t ≤ now
      → IsBounded t history
      → IsBounded now (admit window limit now history)
  unfolding admit
  admit-IsBounded t now history le (past, bound) =
      elim (Bool-cases (ltb (length (recent window now history)) limit)) [
        | inl room ↦ rw room (
          All-snoc now history (All-weaken now t history le past),
          λ u. snoc_bounded now u history (bound u) (omega tests),
        )
        | inr full ↦ rw full (All-weaken now t history le past, bound)
      ]

  greedy-bounded :
      (t : ℕ) (times history : List ℕ)
      → InOrder t times
      → IsBounded t history
      → (u : ℕ) → length (within window u (greedy window limit times history)) ≤ limit
  unfolding greedy
  greedy-bounded t [] history order h = h.1
  greedy-bounded t (now ∷ times) history order h =
      greedy-bounded now times (admit window limit now history) order.1
        (admit-IsBounded t now history order.0 h)

-- The requests of one key at a positive limit, at times in the order of the clock and from a store
-- that holds nothing under the key, never fault; and of the times at which a request was admitted at
-- most the limit lie in any one window, wherever it ends.
pub run_window_bound :
    (key : String) (rate burst t : ℕ) (times : List ℕ) (s : RateLimiter)
    → 0 < rate + burst
    → InOrder t times
    → get_zero [] s.sliding_windows key ≡ []
    → (history : List ℕ) × (s' : RateLimiter) × (run key rate burst times [] s ≡ ok (history, s'))
      × ((u : ℕ) → length (within s.window_size u history) ≤ rate + burst)
run_window_bound key rate burst t times s positive order fresh =
    let (s', runs) =
      run-greedy key rate burst s.window_size t times [] s positive order (refl, rw fresh refl) in
    (
      greedy s.window_size (rate + burst) times [],
      s',
      runs,
      greedy-bounded s.window_size (rate + burst) t times [] order (tt, λ u. omega arith),
    )
