-- ===== src/RateLimit/LeakyBucket/Queue.antt =====
-- The queue of a leaky bucket, and where the code faults.
use fortress_waf.Base.{
  ℕ, ◌+◌, ◌-◌, ◌/◌, ◌≡◌, ◌∙◌, ◌≤◌, ◌<◌, refl, sym, true, false, String, List, [], ◌∷◌, ◌++◌, none,
  some, arith, ltb, leb, if◌then◌else◌, length, drop, length-append, length-drop, text_keys, ◌⊎◌,
  inl, inr, Bool-cases, tests,
}
use fortress_waf.Base.Fault.{ok, panic}
use fortress_waf.RateLimit.State.{RateLimiter, LeakyBucket, Decision, second}
use fortress_waf.Base.Map.{put, put_self}
use fortress_waf.RateLimit.LeakyBucket.{
  check_leaky_bucket, overflowing, poured, find_leaky_bucket, leak, pour,
}
use fortress_waf.RateLimit.TokenBucket.{at_least_one}

pub record IsSound (b : LeakyBucket) : Type 0 where
  pub leaks : 0 < b.leak_rate
  pub holds : 0 < b.capacity
  pub fits : length b.queue ≤ b.capacity

-- What is left in the queue once `n` requests have leaked.
abbrev pub leaked : ℕ → List ℕ → List ℕ
leaked n queue = if leb (length queue) n then [] else drop n queue

abbrev pub leak_count : ℕ → LeakyBucket → ℕ
leak_count now b = (now - b.last_leak) / b.leak_rate

length-leaked : (n : ℕ) (q : List ℕ) → length (leaked n q) ≡ length q - n
length-leaked n q = ground (arith, length-drop n q)

-- A sound bucket leaks without a fault: as many requests leave as whole leak intervals have passed.
pub leak-IsSound :
    (now : ℕ) (b : LeakyBucket)
    → IsSound b
    → (b' : LeakyBucket) × (leak now b ≡ ok b')
      × IsSound b'
      × (length b'.queue ≡ length b.queue - leak_count now b)
      × (b'.capacity ≡ b.capacity)
      × (b'.leak_rate ≡ b.leak_rate)
      × (b'.last_leak ≡ (if ltb 0 (leak_count now b) then now else b.last_leak))
unfolding leak
leak-IsSound now b h = elim (Bool-cases (ltb 0 (leak_count now b))) [
  | inl some_leak ↦ (
    record b { queue = leaked (leak_count now b) b.queue; last_leak = now },
    ground (arith, h.leaks),
    record {
      leaks = h.leaks;
      holds = h.holds;
      fits = omega (arith, length-leaked (leak_count now b) b.queue, h.fits);
    },
    length-leaked (leak_count now b) b.queue,
    refl,
    refl,
    rw some_leak refl,
  )
  | inr nothing ↦ (b, ground (arith, h.leaks), h, omega tests, refl, refl, rw nothing refl)
]

abbrev Pours : ℕ → ℕ → LeakyBucket → Type 0
Pours burst now b =
    (b' : LeakyBucket) × (d : Decision) × (pour burst now b ≡ ok (b', d))
    × IsSound b'
    × (d.allowed ≡ ltb (length b.queue) b.capacity)
    × (length b'.queue ≡ length b.queue + (if d.allowed then 1 else 0))
    × (b'.capacity ≡ b.capacity)
    × (b'.leak_rate ≡ b.leak_rate)
    × (b'.last_leak ≡ b.last_leak)

pour_full :
    (burst now : ℕ) (b : LeakyBucket) (queue : List ℕ)
    → IsSound b
    → b.queue ≡ queue
    → ltb (length queue) b.capacity ≡ false
    → Pours burst now b
unfolding pour
pour_full burst now b [] h e full = absurd (omega (tests, h.holds))
pour_full burst now b (oldest ∷ rest) h e full = (
  b,
  overflowing burst oldest b,
  rw (e, pour) (ground (arith, e)),
  h,
  rw e (sym full),
  omega arith,
  refl,
  refl,
  refl,
)

pour_room :
    (burst now : ℕ) (b : LeakyBucket)
    → IsSound b
    → ltb (length b.queue) b.capacity ≡ true
    → Pours burst now b
unfolding pour
pour_room burst now b h room = (
  record b { queue = b.queue ++ now ∷ [] },
  poured burst now b,
  ground arith,
  record { leaks = h.leaks; holds = h.holds; fits = rw length-append (omega tests) },
  sym room,
  length-append b.queue (now ∷ []),
  refl,
  refl,
  refl,
)

-- A request enters a sound bucket exactly if there is room.
pub pour_sound : (burst now : ℕ) (b : LeakyBucket) → IsSound b → Pours burst now b
pour_sound burst now b h = elim (Bool-cases (ltb (length b.queue) b.capacity)) [
  | inl room ↦ pour_room burst now b h room
  | inr full ↦ pour_full burst now b b.queue h refl full
]

module _ (key : String) (rate burst : ℕ) where
  -- Where the bucket that the request finds is sound, the request does not fault and leaves a sound
  -- bucket with the same capacity and leak rate under its key. It is admitted exactly if the queue, less
  -- one entry for each whole leak interval since the last leak, is shorter than the capacity, and then
  -- the queue grows by one; the last leak becomes the time of the request if at least one interval has passed, and else stays.
  pub check_leaky_bucket-IsSound :
      (created now : ℕ) (s : RateLimiter) (b : LeakyBucket)
      → find_leaky_bucket key (at_least_one rate) burst created s ≡ b
      → IsSound b
      → (s' : RateLimiter) × (d : Decision) × (b' : LeakyBucket) × (check_leaky_bucket key rate
            burst created now s
          ≡ ok (s', d))
        × (s'.leaky_buckets key ≡ some b')
        × IsSound b'
        × (d.allowed ≡ ltb (length b.queue - leak_count now b) b.capacity)
        × (length b'.queue ≡ length b.queue - leak_count now b + (if d.allowed then 1 else 0))
        × (b'.capacity ≡ b.capacity)
        × (b'.leak_rate ≡ b.leak_rate)
        × (b'.last_leak ≡ (if ltb 0 (leak_count now b) then now else b.last_leak))
  unfolding check_leaky_bucket
  check_leaky_bucket-IsSound created now s b found sound =
      let (b1, leaks, sound1, len1, cap1, rate1, last1) = leak-IsSound now b sound in
      let (b2, d, pours, sound2, verdict, len2, cap2, rate2, last2) =
        pour_sound burst now b1 sound1 in
      (
        record s { leaky_buckets = put key b2 s.leaky_buckets },
        d,
        b2,
        rw (found, leaks, pours) refl,
        put_self key b2 s.leaky_buckets,
        sound2,
        rw (← len1, ← cap1) verdict,
        rw (← len1) len2,
        cap2 ∙ cap1,
        rate2 ∙ rate1,
        last2 ∙ last1,
      )

  -- A first request of a key panics, whatever the clock says, if the burst is 0 (the code reads the
  -- head of an empty queue) or if the rate is above 10^9 (it divides by a leak rate of 0).
  pub check_leaky_bucket_panics :
      (created now : ℕ) (s : RateLimiter)
      → s.leaky_buckets key ≡ none
      → (burst ≡ 0) ⊎ (second < rate)
      → check_leaky_bucket key rate burst created now s ≡ panic
  unfolding check_leaky_bucket
  check_leaky_bucket_panics created now s fresh (inl none_fits) =
      rw (fresh, find_leaky_bucket) (rw none_fits (ground arith))
  check_leaky_bucket_panics created now s fresh (inr too_fast) =
      let same : at_least_one rate ≡ rate = ground arith in
      let stuck : second / at_least_one rate ≡ 0 = rw same (grind arith) in
      rw (fresh, find_leaky_bucket) (rw stuck refl)
