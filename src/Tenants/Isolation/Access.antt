-- ===== src/Tenants/Isolation/Access.antt =====
-- When ValidateTenantAccess of internal/tenant/isolation.go grants an access.
use fortress_waf.Base.{
  ◌≡◌, ◌≢◌, ◌↔◌, refl, sym, ◌∙◌, Bool, true, false, String, none, some, ◌⊎◌, inl, inr, arith, ◌&&◌,
  if◌then◌else◌, not, ◌==◌, text_keys, Bool-cases, Option-cases, agrees_false→ne, agrees_ne,
  agrees_self,
}
use text.Mathlib.TextEquality.{eq_iff}
use fortress_waf.Tenants.Manager.{Tenant, TenantManager, access_denied, get, not_found}
use fortress_waf.Tenants.Isolation.{validate_tenant_access}

-- A tenant of a partner with an own brand.
abbrev pub IsChild : String → String → TenantManager → Type 0
IsChild partner child tm =
    (p : Tenant) × (c : Tenant) × (tm partner ≡ some p)
    × (tm child ≡ some c)
    × (p.tier ≡ "enterprise")
    × ((p.branding).product_name ≢ "FortressWAF")
    × (c.parent_id ≡ partner)

-- The test of another tenant's access, with the tenants that the manager holds.
child_access :
    (requesting resource : String) (p c : Tenant) (tm : TenantManager)
    → (requesting == resource) ≡ false
    → tm requesting ≡ some p
    → tm resource ≡ some c
    → validate_tenant_access requesting resource tm ≡ (
        if p.tier == "enterprise" && not ((p.branding).product_name == "FortressWAF")
        then (if c.parent_id == requesting then none else some access_denied)
        else some access_denied)
unfolding validate_tenant_access get
child_access requesting resource p c tm other hp hc = rw (other, hp, hc) refl

and_left : (a b : Bool) → (a && b) ≡ true → a ≡ true
and_left a b h = ground (arith, h)

and_right : (a b : Bool) → (a && not b) ≡ true → b ≡ false
and_right a b h = ground (arith, h)

parent_test : (b : Bool) → (if b then none else some access_denied) ≡ none → b ≡ true
parent_test b h = ground (arith, h)

granted-IsChild :
    (requesting resource : String) (tm : TenantManager)
    → (requesting == resource) ≡ false
    → validate_tenant_access requesting resource tm ≡ none
    → IsChild requesting resource tm
unfolding validate_tenant_access get
granted-IsChild requesting resource tm other granted = elim (Option-cases (tm requesting)) [
  | inl missing ↦ absurd (
      let h : some not_found ≡ none = rw (validate_tenant_access, other, get, missing) at granted in
      ground (arith, h))
  | inr (p, hp) ↦
      elim (Bool-cases
        (p.tier == "enterprise" && not ((p.branding).product_name == "FortressWAF"))) [
          | inl gate ↦ elim (Option-cases (tm resource)) [
            | inl missing ↦ absurd (
                let h : some not_found ≡ none =
                  rw (validate_tenant_access, other, get, hp, gate, missing) at granted in
                ground (arith, h))
            | inr (c, hc) ↦
                let verdict = sym (child_access requesting resource p c tm other hp hc) ∙ granted in
                (
                  p,
                  c,
                  hp,
                  hc,
                  (eq_iff p.tier "enterprise").0 (and_left (p.tier == "enterprise") _ gate),
                  agrees_false→ne ((p.branding).product_name) "FortressWAF"
                      (and_right (p.tier == "enterprise") _ gate),
                  (eq_iff c.parent_id requesting).0
                      (parent_test (c.parent_id == requesting) (rw gate at verdict)),
                )
          ]
          | inr closed ↦ absurd (
              let h : some access_denied ≡ none =
                rw (validate_tenant_access, other, get, hp, closed) at granted in
              ground (arith, h))
        ]
]

-- ValidateTenantAccess grants an access exactly to a tenant's own resources and to those of a child, that is
-- of a tenant whose parent is the one that asks, where that one is an enterprise tenant with a brand of its
-- own; own resources are granted even where no such tenant exists.
pub validate_tenant_access-IsChild :
    (requesting resource : String) (tm : TenantManager)
    → (validate_tenant_access requesting resource tm ≡ none)
      ↔ ((requesting ≡ resource) ⊎ IsChild requesting resource tm)
unfolding validate_tenant_access get
validate_tenant_access-IsChild requesting resource tm = elim (Bool-cases (requesting == resource)) [
  | inl own ↦ ((λ h. inl ((eq_iff requesting resource).0 own)), (λ h. rw own refl))
  | inr other ↦ (
    (λ h. inr (granted-IsChild requesting resource tm other h)),
    (λ h. elim h [
      | inl same ↦ absurd (agrees_false→ne requesting resource other same)
      | inr (p, c, hp, hc, tier, brand, parent) ↦
          child_access requesting resource p c tm other hp hc
          ∙ rw
              (
                tier,
                agrees_ne (p.branding).product_name "FortressWAF" brand,
                parent,
                agrees_self requesting,
              )
              refl
    ]),
  )
]
