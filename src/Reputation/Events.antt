-- ===== src/Reputation/Events.antt =====
-- What happens to the engine of internal/reputation/reputation.go, and what its lists say of an address.
use fortress_waf.Base.{
  ℕ, ◌+◌, Bool, false, String, List, [], ◌∷◌, Option, none, some, if◌then◌else◌,
}
use fortress_waf.Base.Map.{get_zero}
use fortress_waf.Reputation.Lists.{
  Net, Engine, new_engine, add_allowlist, add_blocklist, allowlist_asn, blocklist_asn,
  allowlist_country, blocklist_country, load_tor_nodes, load_vpn_ranges, load_proxy_ranges,
}
use fortress_waf.Reputation.Inspect.{
  inspect, cleanup, is_allowlisted, is_blocklisted, is_in_ranges, is_datacenter_ip,
}

pub data Event : Type 0 where
  inspects : (now : ℕ) (ip_text : String) → Event
  cleans : (now : ℕ) → Event
  allows blocks allows_country blocks_country : String → Event
  allows_asn blocks_asn : ℕ → Event
  loads_tor loads_vpn loads_proxy : List String → Event

module _ (net : Net) where
  abbrev pub happens : Event → Engine net → Engine net
  happens (inspects now ip_text) e = (inspect net now ip_text e).0
  happens (cleans now) e = cleanup net now e
  happens (allows cidr) e = (add_allowlist net cidr e).0
  happens (blocks cidr) e = (add_blocklist net cidr e).0
  happens (allows_country code) e = allowlist_country net code e
  happens (blocks_country code) e = blocklist_country net code e
  happens (allows_asn asn) e = allowlist_asn net asn e
  happens (blocks_asn asn) e = blocklist_asn net asn e
  happens (loads_tor nodes) e = load_tor_nodes net nodes e
  happens (loads_vpn cidrs) e = (load_vpn_ranges net cidrs e).0
  happens (loads_proxy cidrs) e = (load_proxy_ranges net cidrs e).0

  -- The last event stands first.
  abbrev pub after_events : List Event → Engine net
  after_events [] = new_engine net
  after_events (event ∷ earlier) = happens event (after_events earlier)

  -- The engine was in this state when the address was inspected at this time.
  pub data InspectedAt (ip_text : String) (t : ℕ) : Engine net → List Event → Type 0 where
    inspected_last :
        {earlier : List Event}
        → InspectedAt ip_text t (after_events earlier) (inspects t ip_text ∷ earlier)
    inspected_before :
        {e : Engine net} {event : Event} {earlier : List Event}
        → InspectedAt ip_text t e earlier
        → InspectedAt ip_text t e (event ∷ earlier)

  abbrev weight : Bool → ℕ → ℕ
  weight b n = if b then n else 0

  abbrev pub classify_ip : String → Option net.Ip → Engine net → ℕ
  classify_ip ip_text none e = 0
  classify_ip ip_text (some ip) e =
      if is_allowlisted net ip e
      then 0
      else if is_blocklisted net ip e
      then 100
      else weight (get_zero false e.tor_nodes ip_text) 60
        + weight (is_in_ranges net ip e.vpn_ranges) 40
        + weight (is_in_ranges net ip e.proxy_ranges) 50
        + weight (is_datacenter_ip net ip) 20

  -- What the lists of a state say of an address: 0 where it is allowed, or else 100 where it is blocked, or else
  -- the sum of what its kinds weigh.
  abbrev pub classify : String → Engine net → ℕ
  classify ip_text e = classify_ip ip_text (net.parse_ip ip_text) e
