-- ===== src/Reputation/Staleness.antt =====
-- How old a score of Inspect of internal/reputation/reputation.go can be.
use fortress_waf.Base.{
  ℕ, ◌+◌, ◌<◌, ◌≡◌, refl, ◌∙◌, ap, subst, false, String, List, Option, none, some, ◌⊎◌, inl, inr,
  ltb, ltb→lt, ◌==◌, text_keys, Bool-cases, Option-cases, arith,
}
use fortress_waf.Reputation.Lists.{Net, Engine, IpRecord, half_hour}
use fortress_waf.Reputation.Inspect.{inspect, cached_record, get_score}
use fortress_waf.Reputation.Events.{Event, after_events, InspectedAt, classify}
use fortress_waf.Reputation.Explained.{after_events-Explained, assess-score}

module _ (net : Net) where
  fresh-held :
      (n : ℕ) (text : String) (e : Engine net) (r : IpRecord)
      → cached_record net n text e ≡ some r
      → (e.cache text ≡ some r) × (n < r.last_seen + e.cache_ttl)
  fresh-held n text e r found = elim (Option-cases (e.cache text)) [
    | inl missing ↦
        let h : none ≡ some r = rw (cached_record, missing) at found in absurd (ground (arith, h))
    | inr (q, held) ↦ elim (Bool-cases (ltb n (q.last_seen + e.cache_ttl))) [
      | inl young ↦
          let h : some q ≡ some r = rw (cached_record, held, young) at found in
          let is_r : q ≡ r = ap (λ (o : Option IpRecord). elim o [ none ↦ q | some k ↦ k ]) h in
          (
            held ∙ h,
            subst (λ (k : IpRecord). n < k.last_seen + e.cache_ttl) is_r (ltb→lt n _ young),
          )
      | inr old ↦
          let h : none ≡ some r = rw (cached_record, held, old) at found in
          absurd (ground (arith, h))
    ]
  ]

  -- The score that GetScore answers is what the lists say of the address as they are now, or as they were when the
  -- address was inspected less than half an hour before; for an address with a text.
  pub get_score-classify :
      (events : List Event) (now : ℕ) (ip_text : String)
      → (ip_text == "") ≡ false
      → (s : Engine net) × (get_score net now ip_text (after_events net events)
          ≡ classify net ip_text s)
        × ((s ≡ after_events net events)
            ⊎ ((t : ℕ) × InspectedAt net ip_text t s events × (now < t + half_hour)))
  unfolding get_score inspect
  get_score-classify events now ip_text named =
      let e = after_events net events in
      let ex = after_events-Explained net events in
      elim (Option-cases (cached_record net now ip_text e)) [
        | inr (r, found) ↦
            let (held, young) = fresh-held now ip_text e r found in
            let (s, was, scored) = ex.explained ip_text r held in
            (
              s,
              rw (get_score, inspect, named, found) scored,
              inr (r.last_seen, was, omega (arith, young, ex.half_an_hour)),
            )
        | inl absent ↦ elim (Option-cases (net.parse_ip ip_text)) [
          | inl unparsed ↦ (e, rw (get_score, inspect, named, absent, unparsed) refl, inl refl)
          | inr (ip, parsed) ↦ (
            e,
            rw (get_score, inspect, named, absent, parsed) (assess-score net now ip_text ip e),
            inl refl,
          )
        ]
      ]
