-- ===== src/Reputation/Lists.antt =====
-- The state of the engine of internal/reputation/reputation.go and the operations on its lists.
use fortress_waf.Base.{
  ℕ, ◌*◌, Bool, true, String, List, [], ◌∷◌, ◌++◌, Option, none, some, text_keys, number_keys,
}
use fortress_waf.Base.Map.{Map, empty, put}

-- What the package net does with the text of an address, the text of a network, and both.
pub record Net : Type 1 where
  pub Ip : Type 0
  pub Network : Type 0
  pub parse_ip : String → Option Ip
  pub parse_cidr : String → Option Network
  pub contains : Network → Ip → Bool

-- Without the number of reports and the source, which are never set.
pub record IpRecord : Type 0 where
  pub ip : String
  pub score : ℕ
  pub last_seen : ℕ
  pub categories : List String
  pub is_tor : Bool
  pub is_vpn : Bool
  pub is_proxy : Bool
  pub is_datacenter : Bool

pub record Engine (net : Net) : Type 0 where
  pub cache : Map String IpRecord
  pub cache_ttl : ℕ
  pub allowlist : List net.Network
  pub blocklist : List net.Network
  pub allowlist_asns : Map ℕ Bool
  pub blocklist_asns : Map ℕ Bool
  pub allowlist_countries : Map String Bool
  pub blocklist_countries : Map String Bool
  pub tor_nodes : Map String Bool
  pub vpn_ranges : List net.Network
  pub proxy_ranges : List net.Network

abbrev pub half_hour : ℕ
half_hour = 1800 * 1000000000

module _ (net : Net) where
  open net use {Network, parse_cidr}

  unfoldable pub new_engine : Engine net
  new_engine = record {
    cache = empty;
    cache_ttl = half_hour;
    allowlist = [];
    blocklist = [];
    allowlist_asns = empty;
    blocklist_asns = empty;
    allowlist_countries = empty;
    blocklist_countries = empty;
    tor_nodes = empty;
    vpn_ranges = [];
    proxy_ranges = [];
  }

  -- The error of an operation is true.
  unfoldable pub add_allowlist : String → Engine net → Engine net × Bool
  add_allowlist cidr e = elim (parse_cidr cidr) [
    | none ↦ (e, true)
    | some network ↦ (record e { allowlist = e.allowlist ++ network ∷ [] }, Bool.false)
  ]

  unfoldable pub add_blocklist : String → Engine net → Engine net × Bool
  add_blocklist cidr e = elim (parse_cidr cidr) [
    | none ↦ (e, true)
    | some network ↦ (record e { blocklist = e.blocklist ++ network ∷ [] }, Bool.false)
  ]

  unfoldable pub allowlist_asn : ℕ → Engine net → Engine net
  allowlist_asn asn e = record e { allowlist_asns = put asn true e.allowlist_asns }

  unfoldable pub blocklist_asn : ℕ → Engine net → Engine net
  blocklist_asn asn e = record e { blocklist_asns = put asn true e.blocklist_asns }

  unfoldable pub allowlist_country : String → Engine net → Engine net
  allowlist_country code e = record e { allowlist_countries = put code true e.allowlist_countries }

  unfoldable pub blocklist_country : String → Engine net → Engine net
  blocklist_country code e = record e { blocklist_countries = put code true e.blocklist_countries }

  abbrev pub put_nodes : List String → Map String Bool → Map String Bool
  put_nodes [] m = m
  put_nodes (node ∷ nodes) m = put_nodes nodes (put node true m)

  unfoldable pub load_tor_nodes : List String → Engine net → Engine net
  load_tor_nodes nodes e = record e { tor_nodes = put_nodes nodes e.tor_nodes }

  -- The ranges before the first text that is no network, and whether there is one.
  abbrev pub append_ranges : List String → List Network → List Network × Bool
  append_ranges [] ranges = (ranges, Bool.false)
  append_ranges (cidr ∷ cidrs) ranges = elim (parse_cidr cidr) [
    | none ↦ (ranges, true)
    | some network ↦ append_ranges cidrs (ranges ++ network ∷ [])
  ]

  unfoldable pub load_vpn_ranges : List String → Engine net → Engine net × Bool
  load_vpn_ranges cidrs e =
      let (ranges, failed) = append_ranges cidrs e.vpn_ranges in
      (record e { vpn_ranges = ranges }, failed)

  unfoldable pub load_proxy_ranges : List String → Engine net → Engine net × Bool
  load_proxy_ranges cidrs e =
      let (ranges, failed) = append_ranges cidrs e.proxy_ranges in
      (record e { proxy_ranges = ranges }, failed)
