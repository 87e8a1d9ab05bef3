-- ===== src/Reputation/Tests.antt =====
-- Runs of the model of internal/reputation/reputation.go on a few addresses.
use fortress_waf.Base.{ℕ, ◌+◌, ◌<◌, ◌≡◌, refl, String, List, [], ◌∷◌, some, ◌⊎◌, ◌==◌, text_keys}
use fortress_waf.Reputation.Lists.{
  Net, Engine, half_hour, new_engine, add_blocklist, load_tor_nodes,
}
use fortress_waf.Reputation.Inspect.{
  get_score, inspect, assess, is_allowlisted, is_blocklisted, is_datacenter_ip, set_cache,
}
use fortress_waf.Reputation.Events.{
  Event, inspects, blocks, loads_tor, after_events, InspectedAt, classify,
}
use fortress_waf.Reputation.Staleness.{get_score-classify}

-- Addresses and networks are texts, and a network holds the address of the same text.
abbrev net : Net
net = record {
  Ip = String;
  Network = String;
  parse_ip = λ s. some s;
  parse_cidr = λ s. some s;
  contains = λ n ip. n == ip;
}

-- An exit node that was inspected, and then blocked.
abbrev events : List Event
events = blocks "10.0.0.1" ∷ inspects 1000 "10.0.0.1" ∷ loads_tor ("10.0.0.1" ∷ []) ∷ []

-- The block does not show before the record of the cache is half an hour old.
blocked_late_test :
    (get_score net 2000 "10.0.0.1" (after_events net events) ≡ 60)
    × (get_score net (1000 + half_hour) "10.0.0.1" (after_events net events) ≡ 100)
unfolding get_score inspect assess is_allowlisted is_blocklisted is_datacenter_ip set_cache
    new_engine add_blocklist load_tor_nodes
blocked_late_test = (refl, refl)

get_score-classify_example :
    (s : Engine net) × (get_score net 2000 "10.0.0.1" (after_events net events)
      ≡ classify net "10.0.0.1" s)
    × ((s ≡ after_events net events)
        ⊎ ((t : ℕ) × InspectedAt net "10.0.0.1" t s events × (2000 < t + half_hour)))
get_score-classify_example = get_score-classify net events 2000 "10.0.0.1" refl
