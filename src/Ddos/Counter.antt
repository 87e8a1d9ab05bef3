-- ===== src/Ddos/Counter.antt =====
-- The state of internal/engine/ddos.go and the counter of its floods.
use fortress_waf.Base.{
  ℕ, ◌+◌, Bool, true, false, String, List, [], ◌∷◌, ◌++◌, none, some, leb, length, if◌then◌else◌,
  text_keys,
}
use fortress_waf.Base.Map.{Map, empty, put}
use fortress_waf.RateLimit.SlidingWindow.{recent}

pub record SlidingWindowCounter : Type 0 where
  pub timestamps : List ℕ
  pub window : ℕ
  pub max_count : ℕ

pub record DdosProtection : Type 0 where
  pub dev_mode : Bool
  pub global_rate : ℕ
  pub per_ip_rate : ℕ
  pub per_endpoint_rate : ℕ
  pub per_session_rate : ℕ
  pub burst_allowance : ℕ
  pub window_size : ℕ
  pub ip_counters : Map String SlidingWindowCounter
  pub session_counters : Map String SlidingWindowCounter
  pub endpoint_counters : Map String SlidingWindowCounter
  pub slow_loris_timers : Map String ℕ
  pub slow_post_timers : Map String ℕ
  pub global_counter : SlidingWindowCounter

abbrev pub second : ℕ
second = 1000000000

unfoldable pub new_ddos_protection : Bool → DdosProtection
new_ddos_protection dev_mode = record {
  dev_mode = dev_mode;
  global_rate = 10000;
  per_ip_rate = 100;
  per_endpoint_rate = 500;
  per_session_rate = 200;
  burst_allowance = 20;
  window_size = second;
  ip_counters = empty;
  session_counters = empty;
  endpoint_counters = empty;
  slow_loris_timers = empty;
  slow_post_timers = empty;
  global_counter = record { timestamps = []; window = second; max_count = 10020 };
}

-- getOrCreateCounter. The new counter is put into the map with what checkRate makes of it.
unfoldable pub get_or_create_counter :
    DdosProtection → Map String SlidingWindowCounter → String → SlidingWindowCounter
get_or_create_counter d counters key = elim (counters key) [
  | some c ↦ c
  | none ↦ record {
    timestamps = [];
    window = d.window_size;
    max_count = d.per_ip_rate + d.burst_allowance;
  }
]

-- checkRate: the counter that it leaves, and what it answers.
unfoldable pub check_rate : ℕ → SlidingWindowCounter → ℕ → ℕ → SlidingWindowCounter × Bool
check_rate window_size counter limit now =
    let valid = recent window_size now counter.timestamps in
    if leb limit (length valid)
    then (record counter { timestamps = valid }, false)
    else (record counter { timestamps = valid ++ now ∷ [] }, true)

-- getOrCreateCounter and checkRate, which the three tests by key call one after the other.
unfoldable pub check_key :
    DdosProtection
    → Map String SlidingWindowCounter
    → String
    → ℕ
    → ℕ
    → Map String SlidingWindowCounter × Bool
check_key d counters key limit now =
    let (c, fits) = check_rate d.window_size (get_or_create_counter d counters key) limit now in
    (put key c counters, fits)
