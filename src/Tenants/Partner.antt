-- ===== src/Tenants/Partner.antt =====
-- internal/tenant/mssp.go. The counts of requests and the sums of money, which nothing sets, are left out.
pub mod Suspension
pub mod Deploy
use fortress_waf.Base.{
  ℕ, suc, Bool, String, List, [], ◌∷◌, Option, none, some, if◌then◌else◌, ◌==◌, length, text_keys,
}
use fortress_waf.Base.Int.{pos}
use fortress_waf.Base.Map.{Map, empty, put}
use fortress_waf.Tenants.Manager.{TenantManager, TenantError, Tenant, list, validate_quota}

pub record PartnerMetrics : Type 0 where
  pub total_tenants : ℕ
  pub active_tenants : ℕ
  pub suspended_tenants : ℕ

-- The children of a status.
unfoldable pub count_status : String → List Tenant → ℕ
count_status status [] = 0
count_status status (t ∷ ts) =
    let rest = count_status status ts in if t.status == status then suc rest else rest

-- The loop that counts by the status. A status is not both.
unfoldable pub get_partner_metrics : String → List String → TenantManager → PartnerMetrics
get_partner_metrics partner_id order tm =
    let children = list partner_id order tm in
    record {
      total_tenants = length children;
      active_tenants = count_status "active" children;
      suspended_tenants = count_status "suspended" children;
    }

-- The loop of BulkDeployRule. A result that is there and is nil is `some none`.
unfoldable pub deploy_each :
    TenantManager → List String → Map String (Option TenantError) → Map String (Option TenantError)
deploy_each tm [] results = results
deploy_each tm (id ∷ ids) results =
    deploy_each tm ids (put id (validate_quota id "rules" (pos 0) (pos 1) tm) results)

unfoldable pub bulk_deploy_rule : List String → TenantManager → Map String (Option TenantError)
bulk_deploy_rule tenant_ids tm = deploy_each tm tenant_ids empty
