-- ===== src/Billing/Usage/Gauge.antt =====
-- The readings of internal/billing/usage.go that tell whether a tenant is over its limit.
use fortress_waf.Base.{
  ℕ, ◌-◌, ◌≡◌, ◌↔◌, ap, Bool, true, false, String, Option, none, some, ltb, arith, Bool-cases, inl,
  inr, Option-cases,
}
use fortress_waf.Base.Int.{pos, pos_part, neg_part}
use fortress_waf.Billing.Usage.{
  UsageTracker, UsageSnapshot, check_limit, snapshot, get_usage, is_over_limit, remaining_requests,
}

abbrev pub is_some {ℓ} : {A : Type ℓ} → Option A → Bool
is_some none = false
is_some (some a) = true

remaining_requests-zero :
    (s : UsageSnapshot) → (is_over_limit s ≡ true) ↔ (remaining_requests s ≡ pos 0)
unfolding is_over_limit remaining_requests
remaining_requests-zero s =
    let limit = pos_part s.limit in
    elim (Bool-cases (ltb 0 limit)) [
      | inl limited ↦ (
        (λ over. rw limited (ap pos (ground (arith, over)))),
        (λ nothing_left.
            let left : limit - s.requests_today ≡ 0 = ap pos_part (simp limited at nothing_left) in
            ground (arith, limited, left)),
      )
      | inr unlimited ↦ (
        (λ over. ground (arith, over, unlimited)),
        (λ nothing_left.
            let odd : 1 ≡ 0 = ap neg_part (simp unlimited at nothing_left) in ground (arith, odd)),
      )
    ]

snapshot-check_limit :
    (now : ℕ) (tenant : String) (u : UsageTracker)
    → is_over_limit (snapshot now tenant u) ≡ is_some (check_limit tenant u)
unfolding is_over_limit snapshot get_usage check_limit
snapshot-check_limit now tenant u = elim (Option-cases (u.counters tenant)) [
  | inl unknown ↦ ground (arith, unknown)
  | inr (usage, known) ↦ ground (arith, known)
]

-- The three readings of a tenant's usage agree: CheckLimit fails exactly when a snapshot is over its
-- limit, and a snapshot is over its limit exactly when no requests remain.
pub is_over_limit-agrees :
    (now : ℕ) (tenant : String) (u : UsageTracker)
    → (is_over_limit (snapshot now tenant u) ≡ is_some (check_limit tenant u))
      × ((is_over_limit (snapshot now tenant u) ≡ true)
          ↔ (remaining_requests (snapshot now tenant u) ≡ pos 0))
is_over_limit-agrees now tenant u =
    (snapshot-check_limit now tenant u, remaining_requests-zero (snapshot now tenant u))
