-- ===== src/Billing/Usage.antt =====
-- internal/billing/usage.go. A time is a number of nanoseconds, and the counts do not reach 2^63.
pub mod Gauge
pub mod Counts
pub mod Merge
use fortress_waf.Base.{
  ℕ, ◌+◌, ◌-◌, ◌*◌, Bool, true, false, String, List, [], ◌∷◌, Option, none, some, ltb, leb,
  if◌then◌else◌, ◌&&◌, text_keys,
}
use fortress_waf.Base.Map.{Map, put, delete, get_zero, empty}
use fortress_waf.Base.Int.{ℤ, pos, negsuc, pos_part}

abbrev pub hour : ℕ
hour = 3_600_000_000_000

pub record TenantUsage : Type 0 where
  pub requests_today : ℕ
  pub requests_this_month : ℕ
  pub blocks_today : ℕ
  pub last_reset : ℕ
  pub month_start : ℕ

pub record UsageTracker : Type 0 where
  pub counters : Map String TenantUsage
  pub limits : Map String ℤ

abbrev pub new_usage_tracker : UsageTracker
new_usage_tracker = record { counters = empty; limits = empty }

-- SetLimit
unfoldable pub set_limit : String → ℤ → UsageTracker → UsageTracker
set_limit tenant limit u = record u { limits = put tenant limit u.limits }

abbrev pub fresh : ℕ → TenantUsage
fresh now = record {
  requests_today = 0;
  requests_this_month = 0;
  blocks_today = 0;
  last_reset = now;
  month_start = now;
}

abbrev pub roll_day : ℕ → TenantUsage → TenantUsage
roll_day now usage =
    if ltb (usage.last_reset + 24 * hour) now
    then record usage { requests_today = 0; blocks_today = 0; last_reset = now }
    else usage

abbrev pub roll_month : ℕ → TenantUsage → TenantUsage
roll_month now usage =
    if ltb (usage.month_start + 30 * 24 * hour) now
    then record usage { requests_this_month = 0; month_start = now }
    else usage

abbrev pub count_request : Bool → TenantUsage → TenantUsage
count_request blocked usage = record usage {
  requests_today = usage.requests_today + 1;
  requests_this_month = usage.requests_this_month + 1;
  blocks_today = if blocked then usage.blocks_today + 1 else usage.blocks_today;
}

-- RecordRequest
unfoldable pub record_request : ℕ → String → Bool → UsageTracker → UsageTracker
record_request now tenant blocked u =
    let usage = get_zero (fresh now) u.counters tenant in
    record u {
      counters =
          put tenant (count_request blocked (roll_month now (roll_day now usage))) u.counters;
    }

-- GetUsage: the requests of today and of the month, the limit, and the blocks of today.
unfoldable pub get_usage : String → UsageTracker → ℕ × ℕ × ℤ × ℕ
get_usage tenant u =
    let limit = get_zero (pos 0) u.limits tenant in
    elim (u.counters tenant) [
      | none ↦ (0, 0, limit, 0)
      | some usage ↦ (usage.requests_today, usage.requests_this_month, limit, usage.blocks_today)
    ]

-- CheckLimit, with the numbers of the error message. `pos_part limit` is 0 where `limit <= 0`.
unfoldable pub check_limit : String → UsageTracker → Option (ℕ × ℕ)
check_limit tenant u =
    let limit = pos_part (get_zero (pos 0) u.limits tenant) in
    elim (u.counters tenant) [
      | none ↦ none
      | some usage ↦
          if ltb 0 limit && leb limit usage.requests_today
          then some (usage.requests_today, limit)
          else none
    ]

abbrev pub update_usage : (TenantUsage → TenantUsage) → String → UsageTracker → UsageTracker
update_usage f tenant u = elim (u.counters tenant) [
  | none ↦ u
  | some usage ↦ record u { counters = put tenant (f usage) u.counters }
]

-- ResetDaily
unfoldable pub reset_daily : ℕ → String → UsageTracker → UsageTracker
reset_daily now =
    update_usage (λ usage. record usage { requests_today = 0; blocks_today = 0; last_reset = now })

-- ResetMonthly
unfoldable pub reset_monthly : ℕ → String → UsageTracker → UsageTracker
reset_monthly now =
    update_usage (λ usage. record usage { requests_this_month = 0; month_start = now })

-- RemoveTenant
unfoldable pub remove_tenant : String → UsageTracker → UsageTracker
remove_tenant tenant u = record u {
  counters = delete tenant u.counters;
  limits = delete tenant u.limits;
}

-- CopyCounters, and GetAllUsage, which does the same: the entries of the tenants, in the order of the
-- visit.
unfoldable pub copy_counters : List String → UsageTracker → List (String × TenantUsage)
copy_counters [] u = []
copy_counters (tenant ∷ tenants) u = elim (u.counters tenant) [
  | none ↦ copy_counters tenants u
  | some usage ↦ (tenant, usage) ∷ copy_counters tenants u
]

abbrev pub merge_usage : TenantUsage → Option TenantUsage → TenantUsage
merge_usage usage none = usage
merge_usage usage (some existing) = record existing {
  requests_today = existing.requests_today + usage.requests_today;
  requests_this_month = existing.requests_this_month + usage.requests_this_month;
  blocks_today = existing.blocks_today + usage.blocks_today;
}

-- MergeCounters, on the entries of the other map in the order of the visit.
unfoldable pub merge_counters : List (String × TenantUsage) → UsageTracker → UsageTracker
merge_counters [] u = u
merge_counters ((tenant, usage) ∷ other) u =
    merge_counters other
      (record u { counters = put tenant (merge_usage usage (u.counters tenant)) u.counters })

pub record UsageSnapshot : Type 0 where
  pub tenant_id : String
  pub requests_today : ℕ
  pub requests_this_month : ℕ
  pub blocks_today : ℕ
  pub limit : ℤ
  pub captured_at : ℕ

-- Snapshot
unfoldable pub snapshot : ℕ → String → UsageTracker → UsageSnapshot
unfolding get_usage
snapshot now tenant u =
    let (today, this_month, limit, blocked) = get_usage tenant u in
    record {
      tenant_id = tenant;
      requests_today = today;
      requests_this_month = this_month;
      blocks_today = blocked;
      limit = limit;
      captured_at = now;
    }

-- RemainingRequests
unfoldable pub remaining_requests : UsageSnapshot → ℤ
remaining_requests s =
    let limit = pos_part s.limit in if ltb 0 limit then pos (limit - s.requests_today) else negsuc 0

-- IsOverLimit
unfoldable pub is_over_limit : UsageSnapshot → Bool
is_over_limit s = let limit = pos_part s.limit in ltb 0 limit && leb limit s.requests_today
