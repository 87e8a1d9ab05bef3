-- ===== src/Ddos/Quota.antt =====
-- How many requests of one address pass Inspect of internal/engine/ddos.go.
use fortress_waf.Base.{
  ℕ, ◌+◌, ◌≡◌, ◌≤◌, ◌<◌, inl, inr, refl, sym, ◌∙◌, ap, Bool, true, false, String, List, [], ◌∷◌,
  ◌++◌, arith, ltb, leb, length, filter-append, length-append, if◌then◌else◌, Bool-cases, ◌&&◌,
  ◌==◌, text_keys,
}
use fortress_waf.Base.Int.{ℤ}
use fortress_waf.RateLimit.SlidingWindow.{recent}
use fortress_waf.RateLimit.SlidingWindow.Greedy.{InOrder, admit, recent-recent}
use fortress_waf.RateLimit.SlidingWindow.Bound.{within, IsBounded, All-weaken, admit-IsBounded}
use fortress_waf.Ddos.Counter.{DdosProtection}
use fortress_waf.Ddos.Flood.{Request}
use fortress_waf.Ddos.Flood.Steps.{stored, is_none, after, Steps}
use fortress_waf.Ddos.Inspect.{inspect}
use fortress_waf.Ddos.Inspect.Steps.{inspect-Steps}

later :
    (window t now : ℕ) (xs ys : List ℕ)
    → t ≤ now
    → recent window t xs ≡ recent window t ys
    → recent window now xs ≡ recent window now ys
later window t now xs ys le e =
    sym (recent-recent window t now xs le)
    ∙ ap (recent window now) e
    ∙ recent-recent window t now ys le

-- There is a history within the rate of which the counter holds what the window still sees, and which
-- has no fewer times in any window than the requests that passed.
record Covers (window rate t : ℕ) (ip : String) (history : List ℕ) (d : DdosProtection)
    : Type 0 where
  counted : List ℕ
  bounded : IsBounded window rate t counted
  tracks : recent window t (stored ip d) ≡ recent window t counted
  covers : (u : ℕ) → length (within window u history) ≤ length (within window u counted)
  size : d.window_size ≡ window
  limit : d.per_ip_rate ≡ rate

within-append :
    (window u : ℕ) (xs ys : List ℕ)
    → length (within window u (xs ++ ys))
      ≡ length (within window u xs) + length (within window u ys)
within-append window u xs ys =
    ap length (filter-append (λ x. leb x u && ltb u (x + window)) xs ys)
    ∙ length-append (within window u xs) (within window u ys)

within-snoc :
    (window u now : ℕ) (xs ys : List ℕ) (b : Bool)
    → length (within window u xs) ≤ length (within window u ys)
    → length (within window u (if b then xs ++ now ∷ [] else xs))
      ≤ length (within window u (ys ++ now ∷ []))
within-snoc window u now xs ys true le =
    omega (arith, le, within-append window u xs (now ∷ []), within-append window u ys (now ∷ []))
within-snoc window u now xs ys false le = omega (arith, le, within-append window u ys (now ∷ []))

-- What checkRate makes of times of which the window sees the same as of a history.
after-recent :
    (window rate now : ℕ) (xs counted : List ℕ)
    → recent window now xs ≡ recent window now counted
    → recent window now (after window rate now xs)
      ≡ recent window now (admit window rate now counted)
unfolding admit
after-recent window rate now xs counted v =
    elim (Bool-cases (ltb (length (recent window now counted)) rate)) [
      | inl few ↦
          let low : leb rate (length (recent window now counted)) ≡ false = ground (arith, few) in
          rw
            (
              v,
              few,
              low,
              filter-append (λ x. ltb now (x + window)) (recent window now counted),
              filter-append (λ x. ltb now (x + window)) counted,
              recent-recent window now now counted (omega arith),
            )
            refl
      | inr many ↦
          let low : leb rate (length (recent window now counted)) ≡ true = ground (arith, many) in
          rw (v, many, low, recent-recent window now now counted (omega arith)) refl
    ]

module _ (window rate t now : ℕ) (ip : String) (ctx : Request) (history : List ℕ)
    (d d' : DdosProtection) (passes : Bool) where
  covers_counted :
      (counted : List ℕ)
      → ((u : ℕ) → length (within window u history) ≤ length (within window u counted))
      → (passes ≡ true → length (recent window now counted) < rate)
      → (u : ℕ)
      → length
          (within window u (if passes && (ctx.real_ip == ip) then history ++ now ∷ [] else history))
        ≤ length (within window u (admit window rate now counted))
  unfolding admit
  covers_counted counted covers room u =
      elim (Bool-cases (ltb (length (recent window now counted)) rate)) [
        | inl few ↦
            rw few
              (within-snoc window u now history counted (passes && (ctx.real_ip == ip)) (covers u))
        | inr many ↦
            let refused : passes ≡ false = ground (arith, many, room) in
            rw (refused, many) (covers u)
      ]

  Covers-counted :
      t ≤ now
      → (c : Covers window rate t ip history d) → d'.window_size ≡ d.window_size
      → d'.per_ip_rate ≡ d.per_ip_rate
      → stored ip d' ≡ after d.window_size d.per_ip_rate now (stored ip d)
      → (passes ≡ true → length (recent d.window_size now (stored ip d)) < d.per_ip_rate)
      → Covers window rate now ip
          (if passes && (ctx.real_ip == ip) then history ++ now ∷ [] else history)
          d'
  Covers-counted le c w r stores room =
      let v = later window t now (stored ip d) c.counted le c.tracks in
      let holds : stored ip d' ≡ after window rate now (stored ip d) =
        stores ∙ rw (c.size, c.limit) refl in
      record {
        counted = admit window rate now c.counted;
        bounded = admit-IsBounded window rate t now c.counted le c.bounded;
        tracks =
            ap (recent window now) holds ∙ after-recent window rate now (stored ip d) c.counted v;
        covers =
            covers_counted c.counted c.covers
              (λ p. let h = room p in rw (← v, ← c.size, ← c.limit) h);
        size = w ∙ c.size;
        limit = r ∙ c.limit;
      }

  Covers-Steps :
      t ≤ now
      → Covers window rate t ip history d
      → Steps ip ctx now d d' passes
      → Covers window rate now ip
          (if passes && (ctx.real_ip == ip) then history ++ now ∷ [] else history)
          d'
  Covers-Steps le c steps = elim (steps.times) [
    | inl (same, other) ↦ rw other (record {
      counted = c.counted;
      bounded = (All-weaken window rate now t c.counted le (c.bounded).0, (c.bounded).1);
      tracks = ap (recent window now) same ∙ later window t now (stored ip d) c.counted le c.tracks;
      covers = c.covers;
      size = steps.same_window ∙ c.size;
      limit = steps.same_rate ∙ c.limit;
    })
    | inr (stores, room) ↦ Covers-counted le c steps.same_window steps.same_rate stores room
  ]

module _ (to_lower : String → String) (contains : String → String → Bool) (scan : String → ℤ) where
  -- The times of the requests of an address that Inspect passes.
  unfoldable pub passed : String → List (ℕ × Request) → List ℕ → DdosProtection → List ℕ
  passed ip [] history d = history
  passed ip ((now, ctx) ∷ requests) history d =
      let (d', dec) = inspect to_lower contains scan ctx now d in
      passed ip requests
        (if is_none dec && (ctx.real_ip == ip) then history ++ now ∷ [] else history) d'

  abbrev pub times_in : List (ℕ × Request) → List ℕ
  times_in [] = []
  times_in ((now, ctx) ∷ requests) = now ∷ times_in requests

  passed-Covers :
      (window rate t : ℕ) (ip : String) (requests : List (ℕ × Request)) (history : List ℕ)
      (d : DdosProtection)
      → InOrder t (times_in requests)
      → Covers window rate t ip history d
      → (u : ℕ) → length (within window u (passed ip requests history d)) ≤ rate
  unfolding passed
  passed-Covers window rate t ip [] history d order c u = omega (arith, c.covers u, (c.bounded).1 u)
  passed-Covers window rate t ip ((now, ctx) ∷ requests) history d (le, order) c u =
      let (d', dec) = inspect to_lower contains scan ctx now d in
      passed-Covers window rate now ip requests
        (if is_none dec && (ctx.real_ip == ip) then history ++ now ∷ [] else history) d' order
        (Covers-Steps window rate t now ip ctx history d d' (is_none dec) le c
          (inspect-Steps to_lower contains scan ip ctx now d))
        u

  -- Whatever the requests of all addresses are, in the order of the clock, and whatever the state is, as
  -- long as it holds no times of the address: of the requests of the address that Inspect passes at most
  -- the rate by address lie in any one window, wherever it ends.
  pub passed_quota :
      (t : ℕ) (ip : String) (requests : List (ℕ × Request)) (d : DdosProtection)
      → InOrder t (times_in requests)
      → stored ip d ≡ []
      → (u : ℕ) → length (within d.window_size u (passed ip requests [] d)) ≤ d.per_ip_rate
  passed_quota t ip requests d order fresh =
      passed-Covers d.window_size d.per_ip_rate t ip requests [] d order (record {
        counted = [];
        bounded = (tt, λ u. omega arith);
        tracks = rw fresh refl;
        covers = λ u. omega arith;
        size = refl;
        limit = refl;
      })
