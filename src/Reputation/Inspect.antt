-- ===== src/Reputation/Inspect.antt =====
-- Inspect, GetScore and the cleanup of internal/reputation/reputation.go. One reading of the clock serves a call.
use fortress_waf.Base.{
  ℕ, ◌+◌, ◌*◌, Bool, true, false, String, List, [], ◌∷◌, ◌++◌, Option, none, some, any, ltb,
  if◌then◌else◌, ◌==◌, text_keys,
}
use fortress_waf.Base.Map.{put, get_zero}
use fortress_waf.Reputation.Lists.{Net, IpRecord, Engine}

abbrev pub datacenter_ranges : List String
datacenter_ranges =
    "13.32.0.0/15" ∷ "13.104.0.0/14" ∷ "15.0.0.0/8" ∷ "35.0.0.0/8" ∷ "52.0.0.0/8" ∷ "54.0.0.0/8"
    ∷ "63.0.0.0/8" ∷ "64.0.0.0/8" ∷ "65.0.0.0/8" ∷ "66.0.0.0/8" ∷ "67.0.0.0/8" ∷ "68.0.0.0/8"
    ∷ "69.0.0.0/8" ∷ "70.0.0.0/8" ∷ "71.0.0.0/8" ∷ "72.0.0.0/8" ∷ "73.0.0.0/8" ∷ "74.0.0.0/8"
    ∷ "75.0.0.0/8" ∷ "76.0.0.0/8" ∷ "77.0.0.0/8" ∷ "78.0.0.0/8" ∷ "79.0.0.0/8" ∷ "80.0.0.0/5"
    ∷ "96.0.0.0/6" ∷ "100.0.0.0/8" ∷ "104.0.0.0/8" ∷ "108.0.0.0/8" ∷ "128.0.0.0/16" ∷ []

module _ (net : Net) where
  open net use {Ip, Network, parse_ip, parse_cidr, contains}

  abbrev pub is_in_ranges : Ip → List Network → Bool
  is_in_ranges ip ranges = any (λ cidr. contains cidr ip) ranges

  unfoldable pub is_allowlisted : Ip → Engine net → Bool
  is_allowlisted ip e = any (λ cidr. contains cidr ip) e.allowlist

  unfoldable pub is_blocklisted : Ip → Engine net → Bool
  is_blocklisted ip e = any (λ cidr. contains cidr ip) e.blocklist

  abbrev contains_text : Ip → String → Bool
  contains_text ip cidr = elim (parse_cidr cidr) [
    | none ↦ false
    | some network ↦ contains network ip
  ]

  unfoldable pub is_datacenter_ip : Ip → Bool
  is_datacenter_ip ip = any (contains_text ip) datacenter_ranges

  abbrev new_record : ℕ → String → IpRecord
  new_record now ip_text = record {
    ip = ip_text;
    score = 0;
    last_seen = now;
    categories = [];
    is_tor = false;
    is_vpn = false;
    is_proxy = false;
    is_datacenter = false;
  }

  abbrev add_tor : Bool → IpRecord → IpRecord
  add_tor b r =
      if b
      then record r { score = r.score + 60; is_tor = true; categories = r.categories ++ "tor" ∷ [] }
      else r

  abbrev add_vpn : Bool → IpRecord → IpRecord
  add_vpn b r =
      if b
      then record r { score = r.score + 40; is_vpn = true; categories = r.categories ++ "vpn" ∷ [] }
      else r

  abbrev add_proxy : Bool → IpRecord → IpRecord
  add_proxy b r =
      if b
      then record r {
        score = r.score + 50;
        is_proxy = true;
        categories = r.categories ++ "proxy" ∷ [];
      }
      else r

  abbrev add_datacenter : Bool → IpRecord → IpRecord
  add_datacenter b r =
      if b
      then record r {
        score = r.score + 20;
        is_datacenter = true;
        categories = r.categories ++ "datacenter" ∷ [];
      }
      else r

  -- The record of an address that is not in the cache.
  unfoldable pub assess : ℕ → String → Ip → Engine net → IpRecord
  assess now ip_text ip e =
      if is_allowlisted ip e
      then new_record now ip_text
      else if is_blocklisted ip e
      then record (new_record now ip_text) { score = 100 }
      else add_datacenter (is_datacenter_ip ip) (
          add_proxy (is_in_ranges ip e.proxy_ranges) (
            add_vpn (is_in_ranges ip e.vpn_ranges)
              (add_tor (get_zero false e.tor_nodes ip_text) (new_record now ip_text))))

  unfoldable pub set_cache : String → IpRecord → Engine net → Engine net
  set_cache ip_text r e = record e { cache = put ip_text r e.cache }

  -- The record of the cache, while that is fresh.
  abbrev pub cached_record : ℕ → String → Engine net → Option IpRecord
  cached_record now ip_text e = elim (e.cache ip_text) [
    | none ↦ none
    | some r ↦ if ltb now (r.last_seen + e.cache_ttl) then some r else none
  ]

  abbrev pub inspect_ip : ℕ → String → Option Ip → Engine net → Engine net × Option IpRecord
  inspect_ip now ip_text none e = (e, none)
  inspect_ip now ip_text (some ip) e =
      let r = assess now ip_text ip e in (set_cache ip_text r e, some r)

  -- The score that Inspect answers beside the record is that of the record, and 0 without one.
  unfoldable pub inspect : ℕ → String → Engine net → Engine net × Option IpRecord
  inspect now ip_text e = if ip_text == "" then (e, none) else elim (cached_record now ip_text e) [
    | some r ↦ (e, some r)
    | none ↦ inspect_ip now ip_text (parse_ip ip_text) e
  ]

  abbrev pub score_of : Option IpRecord → ℕ
  score_of none = 0
  score_of (some r) = r.score

  unfoldable pub get_score : ℕ → String → Engine net → ℕ
  get_score now ip_text e = score_of (inspect now ip_text e).1

  -- A tick of the cleanup.
  unfoldable pub cleanup : ℕ → Engine net → Engine net
  cleanup now e = record e {
    cache = λ ip_text. elim (e.cache ip_text) [
      | none ↦ none
      | some r ↦ if ltb (r.last_seen + e.cache_ttl * 2) now then none else some r
    ];
  }
