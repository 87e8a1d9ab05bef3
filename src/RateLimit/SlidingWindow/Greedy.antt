-- ===== src/RateLimit/SlidingWindow/Greedy.antt =====
-- The sliding window of internal/ratelimit/ratelimit.go against a history that forgets nothing.
use fortress_waf.Base.{
  ℕ, ◌+◌, ◌-◌, ◌≡◌, ◌≤◌, ◌<◌, refl, sym, ◌∙◌, ap, true, false, String, List, [], ◌∷◌, ◌++◌, arith,
  ltb, if◌then◌else◌, length, filter-append, filter-filter, text_keys, agrees_self, tests,
  Bool-cases, inl, inr,
}
use fortress_waf.Base.Map.{get_zero, put}
use fortress_waf.Base.Int.{pos, sub_ℕ}
use fortress_waf.Base.Fault.{Fault, ok, ◌>>=◌}
use fortress_waf.RateLimit.State.{RateLimiter, Decision}
use fortress_waf.RateLimit.SlidingWindow.{check_sliding_window, recent}

-- The history of the admitted times, where a request is admitted if the window that ends at it has
-- room. It forgets nothing.
unfoldable pub admit : ℕ → ℕ → ℕ → List ℕ → List ℕ
admit window limit now history =
    if ltb (length (recent window now history)) limit then history ++ now ∷ [] else history

unfoldable pub greedy : ℕ → ℕ → List ℕ → List ℕ → List ℕ
greedy window limit [] history = history
greedy window limit (now ∷ times) history =
    greedy window limit times (admit window limit now history)

-- Times in the order of the clock, from `start` on.
abbrev pub InOrder : ℕ → List ℕ → Type 0
InOrder start [] = Unit
InOrder start (t ∷ ts) = (start ≤ t) × InOrder t ts

pub recent-recent :
    (window t now : ℕ) (xs : List ℕ)
    → t ≤ now
    → recent window now (recent window t xs) ≡ recent window now xs
recent-recent window t now xs h =
    filter-filter (λ x. ltb now (x + window)) (λ x. ltb t (x + window)) xs (λ x p. ground arith)

module _ (key : String) (rate burst : ℕ) where
  -- The admitted times of the requests at the given times.
  unfoldable pub run : List ℕ → List ℕ → RateLimiter → Fault (List ℕ × RateLimiter)
  run [] history s = ok (history, s)
  run (now ∷ times) history s = do
    (s', decision) ← check_sliding_window key rate burst now s
    run times (if decision.allowed then history ++ now ∷ [] else history) s'

  -- What the store holds under the key is the part of the history that a later request can see.
  abbrev pub Tracks : ℕ → ℕ → List ℕ → RateLimiter → Type 0
  Tracks window t history s =
      (s.window_size ≡ window)
      × (recent window t (get_zero [] s.sliding_windows key) ≡ recent window t history)

  -- What the code calls `valid`.
  abbrev valid : ℕ → RateLimiter → List ℕ
  valid now s = recent s.window_size now (get_zero [] s.sliding_windows key)

  valid_lem :
      (window t now : ℕ) (history : List ℕ) (s : RateLimiter)
      → t ≤ now
      → Tracks window t history s
      → valid now s ≡ recent window now history
  valid_lem window t now history s le (w, h) =
      rw (w, ← recent-recent window t now (get_zero [] s.sliding_windows key) le, h)
        (recent-recent window t now history le)

  refused :
      (now oldest : ℕ) (rest : List ℕ) (s : RateLimiter)
      → valid now s ≡ oldest ∷ rest
      → rate + burst ≤ length (oldest ∷ rest)
      → (s' : RateLimiter) × (d : Decision) × (check_sliding_window key rate burst now s
          ≡ ok (s', d))
        × (d.allowed ≡ false)
        × (s'.window_size ≡ s.window_size)
        × (get_zero [] s'.sliding_windows key ≡ oldest ∷ rest)
  unfolding check_sliding_window
  refused now oldest rest s e full = (
    record s { sliding_windows = put key (oldest ∷ rest) s.sliding_windows },
    record {
      allowed = false;
      retry_after = oldest + s.window_size - now;
      remaining = pos 0;
      limit = rate + burst;
      reset_at = oldest + s.window_size;
    },
    rw (e, check_sliding_window) (ground arith),
    refl,
    refl,
    ground (arith, agrees_self key),
  )

  accepted :
      (now : ℕ) (s : RateLimiter)
      → length (valid now s) < rate + burst
      → (s' : RateLimiter) × (d : Decision) × (check_sliding_window key rate burst now s
          ≡ ok (s', d))
        × (d.allowed ≡ true)
        × (s'.window_size ≡ s.window_size)
        × (get_zero [] s'.sliding_windows key ≡ valid now s ++ now ∷ [])
  unfolding check_sliding_window
  accepted now s room = (
    record s { sliding_windows = put key (valid now s ++ now ∷ []) s.sliding_windows },
    record {
      allowed = true;
      retry_after = 0;
      remaining = sub_ℕ (rate + burst) (length (valid now s) + 1);
      limit = rate + burst;
      reset_at = now + s.window_size;
    },
    ground arith,
    refl,
    refl,
    ground (arith, agrees_self key),
  )

  Advances : ℕ → ℕ → List ℕ → RateLimiter → Type 0
  Advances window now history s =
      (s' : RateLimiter) × (d : Decision) × (check_sliding_window key rate burst now s ≡ ok (s', d))
      × ((if d.allowed then history ++ now ∷ [] else history)
          ≡ admit window (rate + burst) now history)
      × Tracks window now (admit window (rate + burst) now history) s'

  step_full :
      (window now : ℕ) (history : List ℕ) (s : RateLimiter)
      → 0 < rate + burst
      → s.window_size ≡ window
      → valid now s ≡ recent window now history
      → (xs : List ℕ) → valid now s ≡ xs
      → ltb (length xs) (rate + burst) ≡ false
      → Advances window now history s
  unfolding admit Advances
  step_full window now history s positive w v [] e full = absurd (omega tests)
  step_full window now history s positive w v (oldest ∷ rest) e full =
      let (s', d, runs, verdict, size, stored) = refused now oldest rest s e (omega tests) in
      let same : recent window now history ≡ oldest ∷ rest = sym v ∙ e in
      (
        s',
        d,
        runs,
        rw (verdict, same, full) refl,
        rw (same, full)
            (
              size ∙ w,
              ap (recent window now) (stored ∙ sym same)
                  ∙ recent-recent window now now history (omega arith),
            ),
      )

  step_room :
      (window now : ℕ) (history : List ℕ) (s : RateLimiter)
      → s.window_size ≡ window
      → valid now s ≡ recent window now history
      → ltb (length (recent window now history)) (rate + burst) ≡ true
      → Advances window now history s
  unfolding admit Advances
  step_room window now history s w v room =
      let (s', d, runs, verdict, size, stored) = accepted now s (rw v (omega tests)) in
      (
        s',
        d,
        runs,
        rw (verdict, room) refl,
        rw room (
          size ∙ w,
          rw
              (
                stored,
                v,
                filter-append (λ x. ltb now (x + window)) (recent window now history),
                filter-append (λ x. ltb now (x + window)) history,
                recent-recent window now now history (omega arith),
              )
              refl,
        ),
      )

  step :
      (window t now : ℕ) (history : List ℕ) (s : RateLimiter)
      → 0 < rate + burst
      → t ≤ now
      → Tracks window t history s
      → Advances window now history s
  step window t now history s positive le tracks =
      let v = valid_lem window t now history s le tracks in
      elim (Bool-cases (ltb (length (recent window now history)) (rate + burst))) [
        | inl room ↦ step_room window now history s tracks.0 v room
        | inr full ↦
            step_full window now history s positive tracks.0 v (recent window now history) v full
      ]

  -- The requests of one key at a positive limit, at times in the order of the clock and from a store
  -- that holds under the key what the window still sees of a history, never fault, and they extend
  -- the history exactly by the times that the greedy history admits.
  pub run-greedy :
      (window t : ℕ) (times history : List ℕ) (s : RateLimiter)
      → 0 < rate + burst
      → InOrder t times
      → Tracks window t history s
      → (s' : RateLimiter) × (run times history s
          ≡ ok (greedy window (rate + burst) times history, s'))
  unfolding run greedy Advances
  run-greedy window t [] history s positive order tracks = (s, refl)
  run-greedy window t (now ∷ times) history s positive order tracks =
      let (s1, d, runs, verdict, tracks') = step window t now history s positive order.0 tracks in
      let (s2, rest) =
        run-greedy window now times (admit window (rate + burst) now history) s1 positive order.1
          tracks' in
      (s2, rw (runs, verdict) rest)
