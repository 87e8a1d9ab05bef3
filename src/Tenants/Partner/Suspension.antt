-- ===== src/Tenants/Partner/Suspension.antt =====
-- The counts of a partner after a suspension.
use fortress_waf.Base.{
  ℕ, suc, ◌≡◌, ◌≢◌, inl, inr, refl, ap, String, List, [], ◌∷◌, ◌++◌, Option, some, none, arith,
  length, ◌&&◌, ◌==◌, true, text_keys, All, if_holds, Bool-cases, agrees_self,
}
use fortress_waf.Base.Map.{put, put_ne}
use fortress_waf.Tenants.Manager.{Tenant, TenantManager, add_child, list, suspend}
use fortress_waf.Tenants.Partner.{count_status, get_partner_metrics}

-- A tenant that stands nowhere in an order does not change its list.
list-put_ne :
    (parent id : String) (order : List String) (t : Tenant) (tm : TenantManager)
    → All (λ x. id ≢ x) order
    → list parent order (put id t tm) ≡ list parent order tm
unfolding list
list-put_ne parent id [] t tm h = refl
list-put_ne parent id (x ∷ order) t tm (other, h) =
    rw (put_ne id x t tm other, list-put_ne parent id order t tm h) refl

add_child-own :
    (parent : String) (t : Tenant) (ts : List Tenant)
    → t.parent_id ≡ parent
    → add_child parent (some t) ts ≡ t ∷ ts
add_child-own parent t ts own =
    let e : (t.parent_id == parent) ≡ true = rw own (agrees_self parent) in
    if_holds (λ r. r ≡ t ∷ ts) (parent == "" && t.parent_id == "") _ _ refl (rw e refl)

-- One active tenant of `xs` is suspended in `ys`.
record Shifts (xs ys : List Tenant) : Type 0 where
  total : length ys ≡ length xs
  active : count_status "active" xs ≡ suc (count_status "active" ys)
  suspended : count_status "suspended" ys ≡ suc (count_status "suspended" xs)

Shifts-cons : (t : Tenant) (xs ys : List Tenant) → Shifts xs ys → Shifts (t ∷ xs) (t ∷ ys)
unfolding count_status
Shifts-cons t xs ys h = record {
  total = ap suc h.total;
  active = let a = h.active in ground arith;
  suspended = let a = h.suspended in ground arith;
}

Shifts-add_child :
    (parent : String) (o : Option Tenant) (xs ys : List Tenant)
    → Shifts xs ys
    → Shifts (add_child parent o xs) (add_child parent o ys)
Shifts-add_child parent none xs ys h = h
Shifts-add_child parent (some t) xs ys h = elim (Bool-cases (parent == "" && t.parent_id == "")) [
  | inl top ↦ rw top (Shifts-cons t xs ys h)
  | inr other ↦ elim (Bool-cases (t.parent_id == parent)) [
    | inl own ↦ rw (other, own) (Shifts-cons t xs ys h)
    | inr foreign ↦ rw (other, foreign) h
  ]
]

-- The tenant as Suspend stores it.
abbrev suspended_at : ℕ → Tenant → Tenant
suspended_at now t = record t { status = "suspended"; updated_at = now }

Shifts-here :
    (now : ℕ) (t : Tenant) (ts : List Tenant)
    → t.status ≡ "active"
    → Shifts (t ∷ ts) (suspended_at now t ∷ ts)
unfolding count_status
Shifts-here now t ts active = record {
  total = refl;
  active = rw (count_status, active) refl;
  suspended = rw (count_status, active) refl;
}

Shifts-list :
    (now : ℕ) (parent id : String) (before after : List String) (t : Tenant) (tm : TenantManager)
    → All (λ x. id ≢ x) before
    → All (λ x. id ≢ x) after
    → tm id ≡ some t
    → t.parent_id ≡ parent
    → t.status ≡ "active"
    → Shifts
        (list parent (before ++ id ∷ after) tm)
        (list parent (before ++ id ∷ after) (put id (suspended_at now t) tm))
unfolding list
Shifts-list now parent id [] after t tm hb ha found own active =
    rw
      (
        agrees_self id,
        found,
        list-put_ne parent id after (suspended_at now t) tm ha,
        add_child-own parent t (list parent after tm) own,
        add_child-own parent (suspended_at now t) (list parent after tm) own,
      )
      (Shifts-here now t (list parent after tm) active)
Shifts-list now parent id (x ∷ before) after t tm (hx, hb) ha found own active =
    rw (put_ne id x (suspended_at now t) tm hx) (
      Shifts-add_child parent (tm x) _ _
        (Shifts-list now parent id before after t tm hb ha found own active))

-- The suspension of an active child of a partner, which a loop visits once, moves one tenant of the partner's
-- counts from the active to the suspended ones and leaves their total.
pub get_partner_metrics-suspend :
    (now : ℕ) (partner id : String) (before after : List String) (t : Tenant) (tm : TenantManager)
    → All (λ x. id ≢ x) before
    → All (λ x. id ≢ x) after
    → tm id ≡ some t
    → t.parent_id ≡ partner
    → t.status ≡ "active"
    → let order : List String = before ++ id ∷ after in
      let old = get_partner_metrics partner order tm in
      let new = get_partner_metrics partner order ((suspend now id tm).0) in
      (new.total_tenants ≡ old.total_tenants)
      × (old.active_tenants ≡ suc new.active_tenants)
      × (new.suspended_tenants ≡ suc old.suspended_tenants)
unfolding get_partner_metrics suspend
get_partner_metrics-suspend now partner id before after t tm hb ha found own active =
    let h = Shifts-list now partner id before after t tm hb ha found own active in
    rw (suspend, found) (h.total, h.active, h.suspended)
