-- ===== src/RateLimit/TokenBucket/Budget.antt =====
-- What a token bucket spends.
use fortress_waf.Base.{
  ℕ, suc, ◌+◌, ◌-◌, ◌*◌, ◌≡◌, ◌≤◌, refl, ◌∙◌, String, List, [], ◌∷◌, none, some, arith,
  if◌then◌else◌, text_keys, agrees_self,
}
use fortress_waf.RateLimit.State.{RateLimiter, TokenBucket}
use fortress_waf.RateLimit.TokenBucket.{
  check_token_bucket, find_token_bucket, refill, take_token, token, at_least_one,
}
use fortress_waf.RateLimit.SlidingWindow.Greedy.{InOrder}

-- One request on a bucket: the tokens left and the token spent are paid for by the tokens before
-- and the refill.
pub take_token-refill :
    (limit now : ℕ) (b : TokenBucket)
    → b.tokens ≤ b.capacity
    → let (b', d) = take_token limit now (refill now b) in
      (b'.tokens + (if d.allowed then token else 0)
        ≤ b.tokens + (now - b.last_refill) * b.refill_rate)
      × (b'.tokens ≤ b'.capacity)
      × (b'.capacity ≡ b.capacity)
      × (b'.refill_rate ≡ b.refill_rate)
      × (b'.last_refill ≡ now)
unfolding take_token refill
take_token-refill limit now b h = ground arith

module _ (key : String) (rate burst : ℕ) where
  -- The number of the requests at the given times that are admitted, and the store after them. No
  -- time passes between the two calls of `time.Now()` that a new bucket makes.
  unfoldable pub spend : List ℕ → RateLimiter → ℕ × RateLimiter
  spend [] s = (0, s)
  spend (now ∷ times) s =
      let (s', decision) = check_token_bucket key rate burst now now s in
      let (n, end) = spend times s' in (if decision.allowed then suc n else n, end)

  check_token_bucket-take :
      (now : ℕ) (b : TokenBucket) (s : RateLimiter)
      → find_token_bucket key (at_least_one rate) burst now s ≡ b
      → ((check_token_bucket key rate burst now now s).0.token_buckets key
          ≡ some (take_token (at_least_one rate + burst) now (refill now b)).0)
        × ((check_token_bucket key rate burst now now s).1
            ≡ (take_token (at_least_one rate + burst) now (refill now b)).1)
  unfolding check_token_bucket
  check_token_bucket-take now b s h = rw (← h) (ground (arith, agrees_self key), refl)

-- The last of some times, or `t`.
abbrev pub last_or : ℕ → List ℕ → ℕ
last_or t [] = t
last_or t (now ∷ times) = last_or now times

last_or-le : (t : ℕ) (times : List ℕ) → InOrder t times → t ≤ last_or t times
last_or-le t [] h = omega arith
last_or-le t (now ∷ times) h = omega (arith, last_or-le now times h.1)

split_span : (a b c r : ℕ) → a ≤ b → b ≤ c → (b - a) * r + (c - b) * r ≡ (c - a) * r
split_span a b c r h k = let e : c - a ≡ (b - a) + (c - b) = omega arith in rw e (omega arith)

module _ (key : String) (rate burst : ℕ) where
  found :
      (created : ℕ) (b : TokenBucket) (s : RateLimiter)
      → s.token_buckets key ≡ some b
      → find_token_bucket key (at_least_one rate) burst created s ≡ b
  unfolding find_token_bucket
  found created b s h = rw (h, find_token_bucket) refl

  spend_bucket :
      (times : List ℕ) (t r : ℕ) (b : TokenBucket) (s : RateLimiter)
      → InOrder t times
      → s.token_buckets key ≡ some b
      → b.tokens ≤ b.capacity
      → b.last_refill ≡ t
      → b.refill_rate ≡ r
      → (spend key rate burst times s).0 * token ≤ b.tokens + (last_or t times - t) * r
  unfolding spend
  spend_bucket [] t r b s order held sound at speed = omega arith
  spend_bucket (now ∷ times) t r b s order held sound at speed =
      let (held', verdict) = check_token_bucket-take key rate burst now b s (found now b s held) in
      let (paid, sound', same, speed', at') =
        take_token-refill (at_least_one rate + burst) now b sound in
      let rest =
        spend_bucket times now r (take_token (at_least_one rate + burst) now (refill now b)).0
          (check_token_bucket key rate burst now now s).0 order.1 held' sound' at'
          (speed' ∙ speed) in
      let span = split_span t now (last_or now times) r order.0 (last_or-le now times order.1) in
      let paid' = rw (at, speed) at paid in rw verdict (ground (arith, rest, span, paid'))

  -- From a store with no bucket for the key, requests at times in the order of the clock are
  -- admitted at most as often as the burst and the rate allow: the admitted requests, in tokens, do
  -- not exceed the burst and what the rate (1 if it is 0) gives from the first to the last request.
  pub spend_budget :
      (t : ℕ) (times : List ℕ) (s : RateLimiter)
      → InOrder t times
      → s.token_buckets key ≡ none
      → (spend key rate burst (t ∷ times) s).0 * token
        ≤ burst * token + (last_or t times - t) * at_least_one rate
  unfolding spend find_token_bucket
  spend_budget t times s order fresh =
      let b : TokenBucket = record {
        tokens = burst * token;
        capacity = burst * token;
        refill_rate = at_least_one rate;
        last_refill = t;
      } in
      let (held', verdict) =
        check_token_bucket-take key rate burst t b s (rw (fresh, find_token_bucket) refl) in
      let (paid, sound', same, speed', at') =
        take_token-refill (at_least_one rate + burst) t b (omega arith) in
      let rest =
        spend_bucket times t (at_least_one rate)
          (take_token (at_least_one rate + burst) t (refill t b)).0
          (check_token_bucket key rate burst t t s).0 order held' sound' at' speed' in
      rw verdict (ground (arith, rest, paid))
