-- ===== src/Reputation/Explained.antt =====
-- The records of the cache of internal/reputation/reputation.go, as the lists explain them.
use fortress_waf.Base.{
  ℕ, ◌+◌, ◌*◌, ◌≡◌, refl, sym, ◌∙◌, ap, subst, String, List, [], ◌∷◌, Option, none, some, inl, inr,
  ltb, if◌then◌else◌, ◌==◌, text_keys, Bool-cases, Option-cases, arith,
}
use text.Mathlib.TextEquality.{eq_iff}
use fortress_waf.Base.Map.{Map}
use fortress_waf.Reputation.Lists.{
  Net, Engine, IpRecord, half_hour, new_engine, add_allowlist, add_blocklist, allowlist_asn,
  blocklist_asn, allowlist_country, blocklist_country, load_tor_nodes, load_vpn_ranges,
  load_proxy_ranges,
}
use fortress_waf.Reputation.Inspect.{
  inspect, cleanup, is_allowlisted, is_blocklisted, assess, set_cache, cached_record,
}
use fortress_waf.Reputation.Events.{
  Event, inspects, cleans, allows, blocks, allows_country, blocks_country, allows_asn, blocks_asn,
  loads_tor, loads_vpn, loads_proxy, after_events, InspectedAt, inspected_last, inspected_before,
  classify, classify_ip,
}

module _ (net : Net) where
  pub assess-score :
      (now : ℕ) (ip_text : String) (ip : net.Ip) (e : Engine net)
      → (assess net now ip_text ip e).score ≡ classify_ip net ip_text (some ip) e
  unfolding assess
  assess-score now ip_text ip e = elim (Bool-cases (is_allowlisted net ip e)) [
    | inl allowed ↦ rw (assess, allowed) refl
    | inr unlisted ↦ elim (Bool-cases (is_blocklisted net ip e)) [
      | inl blocked ↦ rw (assess, unlisted, blocked) refl
      | inr free ↦ rw (assess, unlisted, free) (ground arith)
    ]
  ]

  assess-last_seen :
      (now : ℕ) (ip_text : String) (ip : net.Ip) (e : Engine net)
      → (assess net now ip_text ip e).last_seen ≡ now
  unfolding assess
  assess-last_seen now ip_text ip e = ground arith

  -- Every record of the cache is what the lists said when the address was inspected at its time.
  pub record Explained (events : List Event) (e : Engine net) : Type 0 where
    pub half_an_hour : e.cache_ttl ≡ half_hour
    pub explained :
        (ip_text : String) (r : IpRecord)
        → e.cache ip_text ≡ some r
        → (s : Engine net) × InspectedAt net ip_text r.last_seen s events
          × (r.score ≡ classify net ip_text s)

  Explained-same :
      (event : Event) (events : List Event) (e f : Engine net)
      → f.cache_ttl ≡ e.cache_ttl
      → ((ip_text : String) (r : IpRecord) → f.cache ip_text ≡ some r → e.cache ip_text ≡ some r)
      → Explained events e
      → Explained (event ∷ events) f
  Explained-same event events e f same fewer ex = record {
    half_an_hour = same ∙ ex.half_an_hour;
    explained = λ ip_text r held.
        let (s, was, scored) = ex.explained ip_text r (fewer ip_text r held) in
        (s, inspected_before was, scored);
  }

  Explained-fresh :
      (now : ℕ) (ip_text : String) (ip : net.Ip) (earlier : List Event)
      → net.parse_ip ip_text ≡ some ip
      → Explained earlier (after_events net earlier)
      → Explained (inspects now ip_text ∷ earlier) (
          set_cache net ip_text
            (assess net now ip_text ip (after_events net earlier))
            (after_events net earlier))
  unfolding set_cache
  Explained-fresh now ip_text ip earlier parsed ex =
      let e = after_events net earlier in
      let r = assess net now ip_text ip e in
      record {
        half_an_hour = ex.half_an_hour;
        explained = λ other q held. elim (Bool-cases (ip_text == other)) [
          | inr differ ↦
              let (s, was, scored) = ex.explained other q (rw differ at held) in
              (s, inspected_before was, scored)
          | inl same ↦
              let is_it : some r ≡ some q = rw same at held in
              let is_q : r ≡ q =
                ap (λ (o : Option IpRecord). elim o [ none ↦ r | some k ↦ k ]) is_it in
              let texts : ip_text ≡ other = (eq_iff ip_text other).0 same in
              let scored : r.score ≡ classify net ip_text e =
                rw (classify, parsed) (assess-score now ip_text ip e) in
              let was : InspectedAt net ip_text r.last_seen e (inspects now ip_text ∷ earlier) =
                subst (λ t. InspectedAt net ip_text t e (inspects now ip_text ∷ earlier))
                  (sym (assess-last_seen now ip_text ip e)) inspected_last in
              subst
                (λ (k : IpRecord).
                  (s : Engine net) × InspectedAt net other k.last_seen s
                    (inspects now ip_text ∷ earlier)
                  × (k.score ≡ classify net other s))
                is_q
                (subst
                  (λ text.
                    (s : Engine net) × InspectedAt net text r.last_seen s
                      (inspects now ip_text ∷ earlier)
                    × (r.score ≡ classify net text s))
                  texts (e, was, scored))
        ];
      }

  Explained-inspect :
      (now : ℕ) (ip_text : String) (earlier : List Event)
      → Explained earlier (after_events net earlier)
      → Explained
          (inspects now ip_text ∷ earlier)
          (inspect net now ip_text (after_events net earlier)).0
  unfolding inspect
  Explained-inspect now ip_text earlier ex =
      let e = after_events net earlier in
      let unchanged : Explained (inspects now ip_text ∷ earlier) e =
        Explained-same (inspects now ip_text) earlier e e refl (λ other r held. held) ex in
      elim (Bool-cases (ip_text == "")) [
        | inl nameless ↦ rw (inspect, nameless) unchanged
        | inr named ↦ elim (Option-cases (cached_record net now ip_text e)) [
          | inr (r, found) ↦ rw (inspect, named, found) unchanged
          | inl absent ↦ elim (Option-cases (net.parse_ip ip_text)) [
            | inl unparsed ↦ rw (inspect, named, absent, unparsed) unchanged
            | inr (ip, parsed) ↦
                rw (inspect, named, absent, parsed)
                  (Explained-fresh now ip_text ip earlier parsed ex)
          ]
        ]
      ]

  cleaned-held :
      (now ttl : ℕ) (o : Option IpRecord) (r : IpRecord)
      → elim o as (λ _. Option IpRecord) [
        | none ↦ none
        | some q ↦ if ltb (q.last_seen + ttl * 2) now then none else some q
      ]
        ≡ some r
      → o ≡ some r
  cleaned-held now ttl none r h = h
  cleaned-held now ttl (some q) r h = elim (Bool-cases (ltb (q.last_seen + ttl * 2) now)) [
    | inl old ↦ let e : none ≡ some r = rw old at h in absurd (ground (arith, e))
    | inr young ↦ rw young at h
  ]

  add_allowlist-cache :
      (cidr : String) (e : Engine net)
      → ((add_allowlist net cidr e).0.cache ≡ e.cache)
        × ((add_allowlist net cidr e).0.cache_ttl ≡ e.cache_ttl)
  unfolding add_allowlist
  add_allowlist-cache cidr e = elim (Option-cases (net.parse_cidr cidr)) [
    | inl bad ↦ rw (add_allowlist, bad) (refl, refl)
    | inr (network, good) ↦ rw (add_allowlist, good) (refl, refl)
  ]

  add_blocklist-cache :
      (cidr : String) (e : Engine net)
      → ((add_blocklist net cidr e).0.cache ≡ e.cache)
        × ((add_blocklist net cidr e).0.cache_ttl ≡ e.cache_ttl)
  unfolding add_blocklist
  add_blocklist-cache cidr e = elim (Option-cases (net.parse_cidr cidr)) [
    | inl bad ↦ rw (add_blocklist, bad) (refl, refl)
    | inr (network, good) ↦ rw (add_blocklist, good) (refl, refl)
  ]

  -- An operation on the lists alone.
  Explained-lists :
      (event : Event) (events : List Event) (e f : Engine net)
      → f.cache ≡ e.cache
      → f.cache_ttl ≡ e.cache_ttl
      → Explained events e
      → Explained (event ∷ events) f
  Explained-lists event events e f same_cache same_ttl ex =
      Explained-same event events e f same_ttl
        (λ ip_text r held. subst (λ (m : Map String IpRecord). m ip_text ≡ some r) same_cache held)
        ex

  pub after_events-Explained : (events : List Event) → Explained events (after_events net events)
  unfolding new_engine cleanup allowlist_country blocklist_country allowlist_asn blocklist_asn
      load_tor_nodes load_vpn_ranges load_proxy_ranges
  after_events-Explained [] = record {
    half_an_hour = refl;
    explained = λ ip_text r held. absurd (ground (arith, held));
  }
  after_events-Explained (inspects now ip_text ∷ earlier) =
      Explained-inspect now ip_text earlier (after_events-Explained earlier)
  after_events-Explained (cleans now ∷ earlier) =
      let e = after_events net earlier in
      Explained-same (cleans now) earlier e (cleanup net now e) refl
        (λ ip_text r held. cleaned-held now e.cache_ttl (e.cache ip_text) r held)
        (after_events-Explained earlier)
  after_events-Explained (allows cidr ∷ earlier) =
      let (kept, ttl) = add_allowlist-cache cidr (after_events net earlier) in
      Explained-lists _ _ _ _ kept ttl (after_events-Explained earlier)
  after_events-Explained (blocks cidr ∷ earlier) =
      let (kept, ttl) = add_blocklist-cache cidr (after_events net earlier) in
      Explained-lists _ _ _ _ kept ttl (after_events-Explained earlier)
  after_events-Explained (allows_country code ∷ earlier) =
      Explained-lists _ _ (after_events net earlier) _ refl refl (after_events-Explained earlier)
  after_events-Explained (blocks_country code ∷ earlier) =
      Explained-lists _ _ (after_events net earlier) _ refl refl (after_events-Explained earlier)
  after_events-Explained (allows_asn asn ∷ earlier) =
      Explained-lists _ _ (after_events net earlier) _ refl refl (after_events-Explained earlier)
  after_events-Explained (blocks_asn asn ∷ earlier) =
      Explained-lists _ _ (after_events net earlier) _ refl refl (after_events-Explained earlier)
  after_events-Explained (loads_tor nodes ∷ earlier) =
      Explained-lists _ _ (after_events net earlier) _ refl refl (after_events-Explained earlier)
  after_events-Explained (loads_vpn cidrs ∷ earlier) =
      Explained-lists _ _ (after_events net earlier) _ refl refl (after_events-Explained earlier)
  after_events-Explained (loads_proxy cidrs ∷ earlier) =
      Explained-lists _ _ (after_events net earlier) _ refl refl (after_events-Explained earlier)
