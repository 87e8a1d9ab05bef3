-- ===== src/RateLimit/LeakyBucket.antt =====
-- checkLeakyBucket of internal/ratelimit/ratelimit.go.
pub mod Queue
use fortress_waf.Base.{
  ℕ, ◌+◌, ◌-◌, ◌*◌, ◌/◌, Bool, true, false, String, List, [], ◌∷◌, ◌++◌, none, some, ltb, leb,
  nat_beq, if◌then◌else◌, length, drop, text_keys,
}
use fortress_waf.Base.Int.{pos}
use fortress_waf.Base.Map.{put}
use fortress_waf.Base.Fault.{Fault, ok, panic, ◌>>=◌}
use fortress_waf.RateLimit.State.{RateLimiter, LeakyBucket, Decision, second, millisecond}
use fortress_waf.RateLimit.TokenBucket.{at_least_one}

unfoldable pub find_leaky_bucket : String → ℕ → ℕ → ℕ → RateLimiter → LeakyBucket
find_leaky_bucket key rate burst created s = elim (s.leaky_buckets key) [
  | none ↦ record { queue = []; capacity = burst; leak_rate = second / rate; last_leak = created }
  | some bucket ↦ bucket
]

-- The division by `leakRate` faults where it is 0, at a rate above 10^9.
unfoldable pub leak : ℕ → LeakyBucket → Fault LeakyBucket
leak now b =
    if nat_beq b.leak_rate 0
    then panic
    else (let leak_count = (now - b.last_leak) / b.leak_rate in
        if ltb 0 leak_count
        then ok (record b {
          queue = if leb (length b.queue) leak_count then [] else drop leak_count b.queue;
          last_leak = now;
        })
        else ok b)

abbrev pub overflowing : ℕ → ℕ → LeakyBucket → Decision
overflowing burst oldest b = record {
  allowed = false;
  retry_after = b.leak_rate * (length b.queue - b.capacity + 1) / millisecond;
  remaining = pos 0;
  limit = burst;
  reset_at = oldest + b.leak_rate * burst;
}

abbrev pub poured : ℕ → ℕ → LeakyBucket → Decision
poured burst now b = record {
  allowed = true;
  retry_after = 0;
  remaining = pos (b.capacity - (length b.queue + 1));
  limit = burst;
  reset_at = now + b.leak_rate * (b.capacity - (length b.queue + 1));
}

-- `queue[0]` faults where the capacity is 0.
unfoldable pub pour : ℕ → ℕ → LeakyBucket → Fault (LeakyBucket × Decision)
pour burst now b =
    if leb b.capacity (length b.queue)
    then elim b.queue [ [] ↦ panic | oldest ∷ _ ↦ ok (b, overflowing burst oldest b) ]
    else ok (record b { queue = b.queue ++ now ∷ [] }, poured burst now b)

unfoldable pub check_leaky_bucket :
    String → ℕ → ℕ → ℕ → ℕ → RateLimiter → Fault (RateLimiter × Decision)
unfolding find_leaky_bucket leak pour
check_leaky_bucket key rate burst created now s = do
  leaked ← leak now (find_leaky_bucket key (at_least_one rate) burst created s)
  (bucket, decision) ← pour burst now leaked
  ok (record s { leaky_buckets = put key bucket s.leaky_buckets }, decision)
