-- ===== src/Billing/Tests.antt =====
-- Usage and features of internal/billing at concrete inputs.
use fortress_waf.Base.{◌≡◌, ◌↔◌, refl, true, false, [], ◌∷◌, none, some, arith, text_keys}
use fortress_waf.Base.Map.{empty, put}
use fortress_waf.Base.Int.{pos}
use fortress_waf.Billing.Usage.{
  TenantUsage, UsageTracker, new_usage_tracker, check_limit, snapshot, is_over_limit,
  remaining_requests, copy_counters, merge_counters,
}
use fortress_waf.Billing.Usage.Gauge.{is_some, is_over_limit-agrees}
use fortress_waf.Billing.Usage.Counts.{record_all, record_all-today}
use fortress_waf.Billing.Usage.Merge.{merge_counters-copy_counters}
use fortress_waf.Billing.Features.{check_feature, validate_site_limit, get_features, has_feature}
use fortress_waf.Billing.Features.Tiers.{check_feature-monotone, validate_site_limit-monotone}

abbrev usage : TenantUsage
usage = record {
  requests_today = 3;
  requests_this_month = 9;
  blocks_today = 1;
  last_reset = 100;
  month_start = 100;
}

abbrev tracker : UsageTracker
tracker = record { counters = put "acme" usage empty; limits = put "acme" (pos 3) empty }

is_over_limit-agrees_test :
    (is_over_limit (snapshot 101 "acme" tracker) ≡ is_some (check_limit "acme" tracker))
    × ((is_over_limit (snapshot 101 "acme" tracker) ≡ true)
        ↔ (remaining_requests (snapshot 101 "acme" tracker) ≡ pos 0))
is_over_limit-agrees_test = is_over_limit-agrees 101 "acme" tracker

record_all-today_test :
    (last : TenantUsage) × ((record_all "acme" ((101, true) ∷ (124, false) ∷ []) tracker).counters
        "acme"
      ≡ some last)
    × (last.requests_today ≡ 5)
    × (last.blocks_today ≡ 2)
record_all-today_test =
    record_all-today "acme" ((101, true) ∷ (124, false) ∷ []) tracker usage refl
      (omega arith, (omega arith, tt))

merge_counters-copy_counters_test :
    (merge_counters (copy_counters ("other" ∷ "acme" ∷ []) tracker) new_usage_tracker).counters
      "acme"
    ≡ some usage
merge_counters-copy_counters_test =
    merge_counters-copy_counters ("other" ∷ "acme" ∷ []) "acme" tracker new_usage_tracker
      (refl, (refl, tt)) (λ other listed. refl) refl

check_feature-monotone_test : check_feature "enterprise" "dlp" ≡ true
unfolding check_feature get_features has_feature
check_feature-monotone_test =
    check_feature-monotone "professional" "enterprise" "dlp" (omega arith) refl

validate_site_limit-monotone_test : validate_site_limit "professional" 3 ≡ none
unfolding validate_site_limit get_features
validate_site_limit-monotone_test =
    validate_site_limit-monotone "starter" "professional" 3 (omega arith) refl
