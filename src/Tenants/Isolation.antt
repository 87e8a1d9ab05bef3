-- ===== src/Tenants/Isolation.antt =====
-- internal/tenant/isolation.go. The names of schemas, namespaces and scopes are lists of runes.
pub mod Schema
pub mod Namespace
pub mod Access
use fortress_waf.Base.{
  ℕ, Bool, true, false, String, List, [], ◌∷◌, ◌++◌, Option, none, some, not, ◌&&◌, ◌||◌, leb,
  nat_beq, if◌then◌else◌, ◌==◌, ◌⊎◌, inl, inr, text_keys,
}
use fortress_waf.Tenants.Manager.{
  TenantManager, TenantError, Tenant, get, access_denied, invalid_key,
}

-- A letter, a digit or an underscore.
abbrev pub is_word : ℕ → Bool
is_word c =
    (leb 97 c && leb c 122) || (leb 65 c && leb c 90) || (leb 48 c && leb c 57) || nat_beq c 95

unfoldable pub sanitize_identifier : List ℕ → List ℕ
sanitize_identifier [] = []
sanitize_identifier (c ∷ id) =
    let rest = sanitize_identifier id in if is_word c then c ∷ rest else 95 ∷ rest

-- "tenant_"
abbrev pub schema_prefix : List ℕ
schema_prefix = 116 ∷ 101 ∷ 110 ∷ 97 ∷ 110 ∷ 116 ∷ 95 ∷ []

unfoldable pub get_postgres_schema : List ℕ → List ℕ
get_postgres_schema tenant_id = schema_prefix ++ sanitize_identifier tenant_id

-- "tenant:" and the id, and ":"
unfoldable pub get_redis_namespace : List ℕ → List ℕ
get_redis_namespace tenant_id =
    (116 ∷ 101 ∷ 110 ∷ 97 ∷ 110 ∷ 116 ∷ 58 ∷ []) ++ (tenant_id ++ 58 ∷ [])

-- "fortresswaf-logs-" and the id
unfoldable pub get_s3_bucket : List ℕ → List ℕ
get_s3_bucket tenant_id =
    (102 ∷ 111 ∷ 114 ∷ 116 ∷ 114 ∷ 101 ∷ 115 ∷ 115 ∷ 119 ∷ 97 ∷ 102 ∷ 45 ∷ 108 ∷ 111 ∷ 103 ∷ 115
      ∷ 45 ∷ [])
    ++ tenant_id

-- "SET search_path TO ", the schema, "; " and the query
unfoldable pub build_scoped_query : List ℕ → List ℕ → List ℕ
build_scoped_query tenant_id base_query =
    (83 ∷ 69 ∷ 84 ∷ 32 ∷ 115 ∷ 101 ∷ 97 ∷ 114 ∷ 99 ∷ 104 ∷ 95 ∷ 112 ∷ 97 ∷ 116 ∷ 104 ∷ 32 ∷ 84 ∷ 79
      ∷ 32 ∷ [])
    ++ (get_postgres_schema tenant_id ++ (59 ∷ 32 ∷ base_query))

-- ValidateTenantAccess: `none` grants the access.
unfoldable pub validate_tenant_access : String → String → TenantManager → Option TenantError
validate_tenant_access requesting resource tm =
    if requesting == resource then none else elim (get requesting tm) [
      | inl error ↦ some error
      | inr req_tenant ↦
          if req_tenant.tier == "enterprise"
            && not ((req_tenant.branding).product_name == "FortressWAF")
          then elim (get resource tm) [
            | inl error ↦ some error
            | inr resource_tenant ↦
                if resource_tenant.parent_id == requesting then none else some access_denied
          ]
          else some access_denied
    ]

-- Whether a text is "fw".
abbrev is_fw : List ℕ → Bool
is_fw [] = false
is_fw (f ∷ []) = false
is_fw (f ∷ w ∷ []) = nat_beq f 102 && nat_beq w 119
is_fw (f ∷ w ∷ x ∷ xs) = false

unfoldable pub scope_of : List (List ℕ) → TenantError ⊎ List ℕ
scope_of [] = inl invalid_key
scope_of (first ∷ []) = inl invalid_key
scope_of (first ∷ scope ∷ rest) = if is_fw first then inr scope else inl invalid_key

-- GetAPIKeyScope. `split` is strings.Split with the separator "-".
unfoldable pub get_api_key_scope : (List ℕ → List (List ℕ)) → List ℕ → TenantError ⊎ List ℕ
get_api_key_scope split api_key = scope_of (split api_key)
