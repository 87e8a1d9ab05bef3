-- ===== src/Billing/Usage/Merge.antt =====
-- CopyCounters and MergeCounters of internal/billing/usage.go together.
use fortress_waf.Base.{
  ◌≡◌, refl, ap, sym, subst, ◌∙◌, Bool, true, false, String, List, [], ◌∷◌, none, some, arith,
  Bool-cases, Option-cases, ◌⊎◌, inl, inr, any, ◌==◌, text_keys, agrees_self,
}
use fortress_waf.Base.Map.{put, put_self}
use fortress_waf.Billing.Usage.{
  TenantUsage, UsageTracker, copy_counters, merge_counters, merge_usage,
}

-- No tenant stands twice in the list.
abbrev pub IsDistinct : List String → Type 0
IsDistinct [] = Unit
IsDistinct (tenant ∷ tenants) =
    (any (λ other. other == tenant) tenants ≡ false) × IsDistinct tenants

abbrev pub listed : String → List String → Bool
listed tenant tenants = any (λ other. other == tenant) tenants

abbrev pub with_usage : String → TenantUsage → UsageTracker → UsageTracker
with_usage tenant usage v = record v {
  counters = put tenant (merge_usage usage (v.counters tenant)) v.counters;
}

-- One turn of the loops.
merge_counters-turn :
    (tenant : String) (tenants : List String) (u v : UsageTracker)
    → ((u.counters tenant ≡ none)
        × (merge_counters (copy_counters (tenant ∷ tenants) u) v
            ≡ merge_counters (copy_counters tenants u) v))
      ⊎ ((usage : TenantUsage) × (u.counters tenant ≡ some usage)
          × (merge_counters (copy_counters (tenant ∷ tenants) u) v
              ≡ merge_counters (copy_counters tenants u) (with_usage tenant usage v)))
unfolding merge_counters copy_counters
merge_counters-turn tenant tenants u v = elim (Option-cases (u.counters tenant)) [
  | inl missing ↦ inl (
    missing,
    ap
        (λ found.
          merge_counters
            (elim found [
              | none ↦ copy_counters tenants u
              | some usage ↦ (tenant, usage) ∷ copy_counters tenants u
            ])
            v)
        missing,
  )
  | inr (usage, found) ↦ inr (
    usage,
    found,
    ap
        (λ looked_up.
          merge_counters
            (elim looked_up [
              | none ↦ copy_counters tenants u
              | some usage' ↦ (tenant, usage') ∷ copy_counters tenants u
            ])
            v)
        found,
  )
]

with_usage-other :
    (tenant other : String) (usage : TenantUsage) (v : UsageTracker)
    → (tenant == other) ≡ false
    → (with_usage tenant usage v).counters other ≡ v.counters other
with_usage-other tenant other usage v h = rw h refl

merge_counters-unlisted :
    (tenants : List String) (tenant : String) (u v : UsageTracker)
    → listed tenant tenants ≡ false
    → (merge_counters (copy_counters tenants u) v).counters tenant ≡ v.counters tenant
unfolding merge_counters copy_counters
merge_counters-unlisted [] tenant u v h = refl
merge_counters-unlisted (other ∷ tenants) tenant u v h =
    let apart : (other == tenant) ≡ false = ground (arith, h) in
    let rest : listed tenant tenants ≡ false = ground (arith, h) in
    elim (merge_counters-turn other tenants u v) [
      | inl (missing, turn) ↦
          ap (λ w. w.counters tenant) turn ∙ merge_counters-unlisted tenants tenant u v rest
      | inr (usage, found, turn) ↦
          ap (λ w. w.counters tenant) turn
          ∙ merge_counters-unlisted tenants tenant u (with_usage other usage v) rest
          ∙ with_usage-other other tenant usage v apart
    ]

merge_counters-head :
    (tenant : String) (tenants : List String) (u v : UsageTracker)
    → listed tenant tenants ≡ false
    → v.counters tenant ≡ none
    → (merge_counters (copy_counters (tenant ∷ tenants) u) v).counters tenant ≡ u.counters tenant
merge_counters-head tenant tenants u v once unknown =
    elim (merge_counters-turn tenant tenants u v) [
      | inl (missing, turn) ↦
          ap (λ w. w.counters tenant) turn
          ∙ merge_counters-unlisted tenants tenant u v once
          ∙ unknown
          ∙ sym missing
      | inr (usage, found, turn) ↦
          ap (λ w. w.counters tenant) turn
          ∙ merge_counters-unlisted tenants tenant u (with_usage tenant usage v) once
          ∙ put_self tenant (merge_usage usage (v.counters tenant)) v.counters
          ∙ ap (λ old. some (merge_usage usage old)) unknown
          ∙ sym found
    ]

listed_apart :
    (first other : String) (tenants : List String)
    → listed first tenants ≡ false
    → listed other tenants ≡ true
    → (first == other) ≡ false
listed_apart first other tenants once is_listed = elim (Bool-cases (first == other)) [
  | inl same ↦
      let equal : first ≡ other = (text_keys.agrees_iff first other).0 same in
      ground (arith, is_listed, subst (λ x. listed x tenants ≡ false) equal once)
  | inr apart ↦ apart
]

-- Merging a copy of the counters of some tenants, each listed once, into a tracker that knows none of
-- them gives each of them the counters it had.
pub merge_counters-copy_counters :
    (tenants : List String) (tenant : String) (u v : UsageTracker)
    → IsDistinct tenants
    → ((other : String) → listed other tenants ≡ true → v.counters other ≡ none)
    → listed tenant tenants ≡ true
    → (merge_counters (copy_counters tenants u) v).counters tenant ≡ u.counters tenant
merge_counters-copy_counters [] tenant u v distinct unknown h = ground (arith, h)
merge_counters-copy_counters (first ∷ tenants) tenant u v (once, distinct) unknown h =
    elim (Bool-cases (first == tenant)) [
      | inl same ↦
          let equal : first ≡ tenant = (text_keys.agrees_iff first tenant).0 same in
          subst
            (λ x. (merge_counters (copy_counters (first ∷ tenants) u) v).counters x ≡ u.counters x)
            equal
            (merge_counters-head first tenants u v once
              (unknown first (rw (agrees_self first) refl)))
      | inr apart ↦
          let rest : listed tenant tenants ≡ true = ground (arith, h, apart) in
          elim (merge_counters-turn first tenants u v) [
            | inl (missing, turn) ↦
                ap (λ w. w.counters tenant) turn
                ∙ merge_counters-copy_counters tenants tenant u v distinct
                    (λ other is_listed. unknown other (ground (arith, is_listed))) rest
            | inr (usage, found, turn) ↦
                ap (λ w. w.counters tenant) turn
                ∙ merge_counters-copy_counters tenants tenant u (with_usage first usage v) distinct
                    (λ other is_listed.
                      with_usage-other first other usage v
                        (listed_apart first other tenants once is_listed)
                      ∙ unknown other (ground (arith, is_listed)))
                    rest
          ]
    ]
