-- ===== src/Tenants/Manager.antt =====
-- internal/tenant/tenant.go. A tenant is held by value: what a caller that keeps its pointer later writes to
-- it is left out, and so are the locks. A loop over the tenants visits them in an order that is given.
use fortress_waf.Base.{
  ℕ, Bool, String, List, [], ◌∷◌, Option, none, some, not, ◌&&◌, if◌then◌else◌, ◌==◌, ◌⊎◌, inl, inr,
  text_keys,
}
use fortress_waf.Base.Int.{ℤ, negsuc, ltb_ℤ, eqb_ℤ}
use fortress_waf.Base.Map.{Map, empty, put, delete}

pub record TenantSettings : Type 0 where
  pub timezone : String
  pub language : String
  pub date_format : String
  pub log_retention_days : ℤ
  pub max_log_age : ℤ
  pub siem_export : Bool
  pub two_factor_auth : Bool
  pub session_timeout_mins : ℤ

pub record Quotas : Type 0 where
  pub max_sites : ℤ
  pub max_rules : ℤ
  pub max_users : ℤ
  pub max_api_keys : ℤ
  pub max_api_calls_per_day : ℤ
  pub max_storage_gb : ℤ

pub record Branding : Type 0 where
  pub product_name : String
  pub logo_url : String
  pub favicon_url : String
  pub primary_color : String
  pub secondary_color : String
  pub dashboard_domain : String
  pub custom_email_from : String
  pub support_email : String
  pub support_url : String
  pub hide_powered_by : Bool
  pub terms_url : String
  pub privacy_url : String

pub record Tenant : Type 0 where
  pub id : String
  pub name : String
  pub org : String
  pub status : String
  pub tier : String
  pub plan : String
  pub created_at : ℕ
  pub updated_at : ℕ
  pub settings : TenantSettings
  pub quotas : Quotas
  pub branding : Branding
  pub parent_id : String
  pub tags : List String

abbrev pub TenantManager : Type 0
TenantManager = Map String Tenant

pub data TenantError : Type 0 where
  not_found quota_exceeded access_denied invalid_key : TenantError

unfoldable pub new_tenant_manager : TenantManager
new_tenant_manager = empty

-- The tenant as Create stores it. `new_id` is the text that fmt writes for the time.
abbrev pub registered : (ℕ → String) → ℕ → Tenant → Tenant
registered new_id now t = record t {
  id = if t.id == "" then new_id now else t.id;
  created_at = now;
  updated_at = now;
  status = "active";
}

-- Create answers no error.
unfoldable pub create : (ℕ → String) → ℕ → Tenant → TenantManager → TenantManager
create new_id now t tm = put ((registered new_id now t).id) (registered new_id now t) tm

unfoldable pub get : String → TenantManager → TenantError ⊎ Tenant
get id tm = elim (tm id) [ none ↦ inl not_found | some t ↦ inr t ]

-- Both branches of List append a tenant whose parent is `parent_id`.
abbrev pub add_child : String → Option Tenant → List Tenant → List Tenant
add_child parent_id none ts = ts
add_child parent_id (some t) ts =
    if parent_id == "" && t.parent_id == ""
    then t ∷ ts
    else if t.parent_id == parent_id
    then t ∷ ts
    else ts

unfoldable pub list : String → List String → TenantManager → List Tenant
list parent_id [] tm = []
list parent_id (id ∷ order) tm = add_child parent_id (tm id) (list parent_id order tm)

unfoldable pub update : ℕ → Tenant → TenantManager → TenantManager × Option TenantError
update now t tm = elim (tm t.id) [
  | none ↦ (tm, some not_found)
  | some _ ↦ (put t.id (record t { updated_at = now }) tm, none)
]

unfoldable pub delete_tenant : String → TenantManager → TenantManager × Option TenantError
delete_tenant id tm = elim (tm id) [ none ↦ (tm, some not_found) | some _ ↦ (delete id tm, none) ]

unfoldable pub suspend : ℕ → String → TenantManager → TenantManager × Option TenantError
suspend now id tm = elim (tm id) [
  | none ↦ (tm, some not_found)
  | some t ↦ (put id (record t { status = "suspended"; updated_at = now }) tm, none)
]

-- The test of one quota, -1 of which is none.
abbrev pub exceeds : ℤ → ℤ → Bool
exceeds current max_count = not (ltb_ℤ current max_count) && not (eqb_ℤ max_count (negsuc 0))

abbrev pub over_quota : ℤ → ℤ → Option TenantError
over_quota current max_count = if exceeds current max_count then some quota_exceeded else none

-- ValidateQuota; its last argument is not read.
unfoldable pub validate_quota : String → String → ℤ → ℤ → TenantManager → Option TenantError
validate_quota tenant_id resource current limit tm = elim (tm tenant_id) [
  | none ↦ some not_found
  | some t ↦
      if resource == "sites"
      then over_quota current (t.quotas).max_sites
      else if resource == "rules"
      then over_quota current (t.quotas).max_rules
      else if resource == "users"
      then over_quota current (t.quotas).max_users
      else none
]

unfoldable pub get_branding : String → TenantManager → Option Branding
get_branding tenant_id tm = elim (tm tenant_id) [ none ↦ none | some t ↦ some t.branding ]
