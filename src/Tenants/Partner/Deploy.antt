-- ===== src/Tenants/Partner/Deploy.antt =====
-- What BulkDeployRule of internal/tenant/mssp.go checks.
use fortress_waf.Base.{
  ℕ, ◌+◌, ◌≤◌, ◌<◌, ◌≡◌, ◌∙◌, refl, String, List, [], ◌∷◌, Option, some, none, ◌⊎◌, inl, inr, ap,
  arith, ◌==◌, text_keys, ltb, nat_beq, false, true, Bool-cases, agrees_false→ne,
}
use text.Mathlib.TextEquality.{eq_iff}
use fortress_waf.Base.Int.{pos}
use fortress_waf.Base.Map.{Map, put, put_self, put_ne, empty}
use fortress_waf.Tenants.Manager.{
  Tenant, TenantManager, TenantError, quota_exceeded, validate_quota,
}
use fortress_waf.Tenants.Partner.{bulk_deploy_rule, deploy_each}

-- A tenant of the list.
abbrev pub IsIn : String → List String → Type 0
IsIn id [] = ⊥
IsIn id (x ∷ xs) = (x ≡ id) ⊎ IsIn id xs

deploy_each-kept :
    (tm : TenantManager) (id : String) (ids : List String)
    (results : Map String (Option TenantError))
    → results id ≡ some (validate_quota id "rules" (pos 0) (pos 1) tm)
    → deploy_each tm ids results id ≡ some (validate_quota id "rules" (pos 0) (pos 1) tm)
unfolding deploy_each
deploy_each-kept tm id [] results h = h
deploy_each-kept tm id (x ∷ ids) results h =
    deploy_each-kept tm id ids (put x (validate_quota x "rules" (pos 0) (pos 1) tm) results)
      (elim (Bool-cases (x == id)) [
        | inl same ↦
            let e : x ≡ id = (eq_iff x id).0 same in
            rw e (put_self id (validate_quota id "rules" (pos 0) (pos 1) tm) results)
        | inr other ↦
            put_ne x id (validate_quota x "rules" (pos 0) (pos 1) tm) results
              (agrees_false→ne x id other)
            ∙ h
      ])

deploy_each-IsIn :
    (tm : TenantManager) (id : String) (ids : List String)
    (results : Map String (Option TenantError))
    → IsIn id ids
    → deploy_each tm ids results id ≡ some (validate_quota id "rules" (pos 0) (pos 1) tm)
unfolding deploy_each
deploy_each-IsIn tm id [] results member = elim member [ ]
deploy_each-IsIn tm id (x ∷ ids) results (inl e) =
    deploy_each-kept tm id ids (put x (validate_quota x "rules" (pos 0) (pos 1) tm) results)
      (rw e (put_self id (validate_quota id "rules" (pos 0) (pos 1) tm) results))
deploy_each-IsIn tm id (x ∷ ids) results (inr h) =
    deploy_each-IsIn tm id ids (put x (validate_quota x "rules" (pos 0) (pos 1) tm) results) h

rules_quota :
    (tm : TenantManager) (id : String) (t : Tenant) (n current limit : ℕ)
    → tm id ≡ some t
    → (t.quotas).max_rules ≡ pos n
    → (n ≤ current → validate_quota id "rules" (pos current) (pos limit) tm ≡ some quota_exceeded)
      × (current < n → validate_quota id "rules" (pos current) (pos limit) tm ≡ none)
unfolding validate_quota
rules_quota tm id t n current limit found quota = (
  (λ over.
      let h : ltb (current + 0) (n + 0) ≡ false = ground arith in
      let g : nat_beq (n + 1) 0 ≡ false = ground arith in
      rw (validate_quota, found, quota, h, g) refl),
  (λ under.
      let h : ltb (current + 0) (n + 0) ≡ true = ground arith in
      rw (validate_quota, found, quota, h) refl),
)

-- BulkDeployRule answers no error for a tenant of its list with a quota of rules above 0, however many rules
-- the tenant has, also where ValidateQuota on that number answers that the quota is exceeded.
pub bulk_deploy_rule-validate_quota :
    (tm : TenantManager) (ids : List String) (id : String) (t : Tenant) (n current : ℕ)
    → IsIn id ids
    → tm id ≡ some t
    → (t.quotas).max_rules ≡ pos n
    → 0 < n
    → n ≤ current
    → (bulk_deploy_rule ids tm id ≡ some none)
      × (validate_quota id "rules" (pos current) (pos 1) tm ≡ some quota_exceeded)
unfolding bulk_deploy_rule
bulk_deploy_rule-validate_quota tm ids id t n current member found quota positive over = (
  deploy_each-IsIn tm id ids empty member
      ∙ ap some ((rules_quota tm id t n 0 1 found quota).1 positive),
  (rules_quota tm id t n current 1 found quota).0 over,
)
