-- ===== src/Billing/Usage/Counts.antt =====
-- The counts that internal/billing/usage.go keeps.
use fortress_waf.Base.{
  ◌*◌, ℕ, ◌+◌, ◌≡◌, ◌≤◌, refl, ap, sym, subst, ◌∙◌, Bool, String, List, [], ◌∷◌, length, none, some,
  le→ltb_false, if◌then◌else◌, arith, text_keys,
}
use fortress_waf.Base.Map.{get_zero, put_self}
use fortress_waf.Billing.Usage.{
  hour, TenantUsage, UsageTracker, record_request, count_request, roll_day, roll_month, fresh,
}

-- The requests of a tenant, the first one first, each with its time and whether it was blocked.
abbrev pub record_all : String → List (ℕ × Bool) → UsageTracker → UsageTracker
record_all tenant [] u = u
record_all tenant ((now, blocked) ∷ later) u =
    record_all tenant later (record_request now tenant blocked u)

abbrev pub blocked_count : List (ℕ × Bool) → ℕ
blocked_count [] = 0
blocked_count ((now, blocked) ∷ later) = let n = blocked_count later in if blocked then n + 1 else n

abbrev pub WithinDay : ℕ → List (ℕ × Bool) → Type 0
WithinDay start [] = Unit
WithinDay start ((now, blocked) ∷ later) = (now ≤ start + 24 * hour) × WithinDay start later

roll_month-keeps :
    (now : ℕ) (usage : TenantUsage)
    → ((roll_month now usage).requests_today ≡ usage.requests_today)
      × ((roll_month now usage).blocks_today ≡ usage.blocks_today)
      × ((roll_month now usage).last_reset ≡ usage.last_reset)
roll_month-keeps now usage = ground arith

roll_day-keeps :
    (now : ℕ) (usage : TenantUsage)
    → now ≤ usage.last_reset + 24 * hour
    → roll_day now usage ≡ usage
roll_day-keeps now usage today = rw (le→ltb_false (usage.last_reset + 24 * hour) now today) refl

record_request-today :
    (now : ℕ) (tenant : String) (blocked : Bool) (u : UsageTracker) (usage : TenantUsage)
    → u.counters tenant ≡ some usage
    → now ≤ usage.last_reset + 24 * hour
    → (usage' : TenantUsage) × ((record_request now tenant blocked u).counters tenant ≡ some usage')
      × (usage'.requests_today ≡ usage.requests_today + 1)
      × (usage'.blocks_today ≡ (if blocked then usage.blocks_today + 1 else usage.blocks_today))
      × (usage'.last_reset ≡ usage.last_reset)
unfolding record_request
record_request-today now tenant blocked u usage known today =
    let next = count_request blocked (roll_month now (roll_day now usage)) in
    let (requests, blocks, reset) = roll_month-keeps now usage in
    (
      next,
      put_self tenant
            (count_request blocked
              (roll_month now (roll_day now (get_zero (fresh now) u.counters tenant))))
            u.counters
          ∙ ap
              (λ found. some (
                count_request blocked
                  (roll_month now (roll_day now (elim found [ none ↦ fresh now | some x ↦ x ])))))
              known,
      rw (roll_day-keeps now usage today) (omega (arith, requests)),
      rw (roll_day-keeps now usage today) (ap (λ n. if blocked then n + 1 else n) blocks),
      rw (roll_day-keeps now usage today) reset,
    )

-- Requests of a tenant within 24 hours of its last reset add to its counts of the day one for each
-- request, and one for each that was blocked.
pub record_all-today :
    (tenant : String) (requests : List (ℕ × Bool)) (u : UsageTracker) (usage : TenantUsage)
    → u.counters tenant ≡ some usage
    → WithinDay usage.last_reset requests
    → (usage' : TenantUsage) × ((record_all tenant requests u).counters tenant ≡ some usage')
      × (usage'.requests_today ≡ usage.requests_today + length requests)
      × (usage'.blocks_today ≡ usage.blocks_today + blocked_count requests)
record_all-today tenant [] u usage known within = (usage, known, omega arith, omega arith)
record_all-today tenant ((now, blocked) ∷ later) u usage known (soon, within) =
    let (next, known', one_more, blocks, reset) =
      record_request-today now tenant blocked u usage known soon in
    let (last, found, requests, blocked_ones) =
      record_all-today tenant later (record_request now tenant blocked u) next known'
        (subst (λ start. WithinDay start later) (sym reset) within) in
    (last, found, omega (arith, requests, one_more), ground (arith, blocked_ones, blocks))
