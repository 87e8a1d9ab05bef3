-- ===== src/Tenants/Tests.antt =====
-- Runs of the model of internal/tenant on two tenants.
use fortress_waf.Base.{
  ℕ, suc, ◌≡◌, ◌↔◌, ◌⊎◌, refl, true, false, String, List, [], ◌∷◌, ◌++◌, none, some, inl, inr,
  arith, text_keys, agrees_false→ne,
}
use fortress_waf.Base.Int.{pos}
use fortress_waf.Base.Map.{put}
use fortress_waf.Tenants.Manager.{
  Branding, Tenant, TenantManager, new_tenant_manager, quota_exceeded, suspend, validate_quota,
}
use fortress_waf.Tenants.Isolation.{
  get_api_key_scope, get_postgres_schema, get_redis_namespace, sanitize_identifier, scope_of,
  validate_tenant_access,
}
use fortress_waf.Tenants.Isolation.Schema.{IsIdentifier, IsNameOf, get_postgres_schema-IsIdentifier}
use fortress_waf.Tenants.Isolation.Namespace.{get_redis_namespace-disjoint}
use fortress_waf.Tenants.Isolation.Access.{IsChild, validate_tenant_access-IsChild}
use fortress_waf.Tenants.Partner.{bulk_deploy_rule, get_partner_metrics}
use fortress_waf.Tenants.Partner.Deploy.{bulk_deploy_rule-validate_quota}
use fortress_waf.Tenants.Partner.Suspension.{get_partner_metrics-suspend}

abbrev brand : Branding
brand = record {
  product_name = "Guard";
  logo_url = "";
  favicon_url = "";
  primary_color = "";
  secondary_color = "";
  dashboard_domain = "";
  custom_email_from = "";
  support_email = "";
  support_url = "";
  hide_powered_by = true;
  terms_url = "";
  privacy_url = "";
}

abbrev partner : Tenant
partner = record {
  id = "p";
  name = "Partner";
  org = "";
  status = "active";
  tier = "enterprise";
  plan = "";
  created_at = 0;
  updated_at = 0;
  settings = record {
    timezone = "";
    language = "";
    date_format = "";
    log_retention_days = pos 30;
    max_log_age = pos 30;
    siem_export = false;
    two_factor_auth = false;
    session_timeout_mins = pos 30;
  };
  quotas = record {
    max_sites = pos 1;
    max_rules = pos 5;
    max_users = pos 1;
    max_api_keys = pos 1;
    max_api_calls_per_day = pos 100;
    max_storage_gb = pos 1;
  };
  branding = brand;
  parent_id = "";
  tags = [];
}

abbrev child : Tenant
child = record partner { id = "c"; name = "Child"; parent_id = "p" }

abbrev tenants : TenantManager
tenants = put "c" child (put "p" partner new_tenant_manager)

-- "a-b" and "a_b"
get_postgres_schema-IsIdentifier_example :
    (name : List ℕ) × (get_postgres_schema (97 ∷ 45 ∷ 98 ∷ [])
      ≡ 116 ∷ 101 ∷ 110 ∷ 97 ∷ 110 ∷ 116 ∷ 95 ∷ name)
    × IsNameOf (97 ∷ 45 ∷ 98 ∷ []) name
    × IsIdentifier (get_postgres_schema (97 ∷ 45 ∷ 98 ∷ []))
    × (IsIdentifier (97 ∷ 95 ∷ 98 ∷ [])
        → (get_postgres_schema (97 ∷ 95 ∷ 98 ∷ []) ≡ get_postgres_schema (97 ∷ 45 ∷ 98 ∷ []))
          ↔ ((97 ∷ 95 ∷ 98 ∷ []) ≡ name))
get_postgres_schema-IsIdentifier_example =
    get_postgres_schema-IsIdentifier (97 ∷ 45 ∷ 98 ∷ []) (97 ∷ 95 ∷ 98 ∷ [])

get_postgres_schema_shared_test :
    get_postgres_schema (97 ∷ 95 ∷ 98 ∷ []) ≡ get_postgres_schema (97 ∷ 45 ∷ 98 ∷ [])
unfolding get_postgres_schema sanitize_identifier
get_postgres_schema_shared_test = refl

abbrev id_a : List ℕ
id_a = 97 ∷ []

abbrev key_k : List ℕ
key_k = 107 ∷ []

get_redis_namespace-disjoint_test : (id_a ≡ id_a) × (key_k ≡ key_k)
get_redis_namespace-disjoint_test =
    get_redis_namespace-disjoint id_a id_a key_k key_k ((λ e. omega (arith, e)), tt)
      ((λ e. omega (arith, e)), tt) refl

-- The tenants "a" and "a:b" share a key.
get_redis_namespace_shared_test :
    get_redis_namespace (97 ∷ []) ++ (98 ∷ 58 ∷ 107 ∷ [])
    ≡ get_redis_namespace (97 ∷ 58 ∷ 98 ∷ []) ++ (107 ∷ [])
unfolding get_redis_namespace
get_redis_namespace_shared_test = refl

validate_tenant_access-IsChild_example :
    (validate_tenant_access "p" "c" tenants ≡ none)
    ↔ ((partner.id ≡ child.id) ⊎ IsChild "p" "c" tenants)
validate_tenant_access-IsChild_example = validate_tenant_access-IsChild "p" "c" tenants

bulk_deploy_rule-validate_quota_test :
    (bulk_deploy_rule ("p" ∷ "c" ∷ []) tenants "c" ≡ some none)
    × (validate_quota "c" "rules" (pos 7) (pos 1) tenants ≡ some quota_exceeded)
unfolding new_tenant_manager
bulk_deploy_rule-validate_quota_test =
    bulk_deploy_rule-validate_quota tenants ("p" ∷ "c" ∷ []) "c" child 5 7 (inr (inl refl)) refl
      refl (omega arith) (omega arith)

get_partner_metrics-suspend_example :
    let order : List String = ("p" ∷ []) ++ ("c" ∷ []) in
    let old = get_partner_metrics "p" order tenants in
    let new = get_partner_metrics "p" order ((suspend 3 "c" tenants).0) in
    (new.total_tenants ≡ old.total_tenants)
    × (old.active_tenants ≡ suc new.active_tenants)
    × (new.suspended_tenants ≡ suc old.suspended_tenants)
unfolding new_tenant_manager
get_partner_metrics-suspend_example =
    get_partner_metrics-suspend 3 "p" "c" ("p" ∷ []) [] child tenants
      (agrees_false→ne "c" "p" refl, tt) tt refl refl refl

-- "fw-a-b-k": the scope of a key of the tenant "a-b" is "a".
get_api_key_scope_test :
    get_api_key_scope
      (λ key. (102 ∷ 119 ∷ []) ∷ (97 ∷ []) ∷ (98 ∷ []) ∷ (107 ∷ []) ∷ [])
      (102 ∷ 119 ∷ 45 ∷ 97 ∷ 45 ∷ 98 ∷ 45 ∷ 107 ∷ [])
    ≡ inr (97 ∷ [])
unfolding get_api_key_scope scope_of
get_api_key_scope_test = refl
