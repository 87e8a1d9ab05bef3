-- ===== src/Billing/Features/Tiers.antt =====
-- The order of the tiers of internal/billing/features.go.
use fortress_waf.Base.{
  ℕ, zero, suc, ◌+◌, ◌-◌, ◌<◌, ap, sym, subst, ◌∙◌, ◌≡◌, ◌≤◌, refl, Bool, true, String, Option,
  none, some, leb, if◌then◌else◌, ◌==◌, text_keys, arith, Bool-cases, inl, inr, ◌||◌, not,
}
use fortress_waf.Billing.Features.{
  Features, get_features, has_feature, check_feature, validate_site_limit, community_features,
  starter_features, professional_features, enterprise_features,
}

-- A tier that is not known counts as community.
abbrev pub rank : String → ℕ
rank tier =
    if tier == "starter"
    then 1
    else if tier == "professional"
    then 2
    else if tier == "enterprise"
    then 3
    else 0

abbrev Implies : Bool → Bool → Type 0
Implies a b = (not a || b) ≡ true

abbrev Grants : Features → Features → Type 0
Grants f g =
    (feature_name : String) → Implies (has_feature f feature_name) (has_feature g feature_name)

abbrev features_of : ℕ → Features
features_of zero = community_features
features_of (suc zero) = starter_features
features_of (suc (suc zero)) = professional_features
features_of (suc (suc (suc n))) = enterprise_features

-- Every tier grants what the one below it does, and allows as many sites.
features_of-Grants : (n : ℕ) → Grants (features_of n) (features_of (suc n))
unfolding has_feature
features_of-Grants zero feature_name = ground arith
features_of-Grants (suc zero) feature_name = ground arith
features_of-Grants (suc (suc zero)) feature_name = ground arith
features_of-Grants (suc (suc (suc n))) feature_name = ground arith

get_features-rank : (tier : String) → get_features tier ≡ features_of (rank tier)
unfolding get_features
get_features-rank tier = elim (Bool-cases (tier == "starter")) [
  | inl starter ↦ rw starter refl
  | inr other ↦ elim (Bool-cases (tier == "professional")) [
    | inl professional ↦ rw (other, professional) refl
    | inr other' ↦ elim (Bool-cases (tier == "enterprise")) [
      | inl enterprise ↦ rw (other, other', enterprise) refl
      | inr community ↦ rw (other, other', community) refl
    ]
  ]
]

above : ℕ → ℕ → ℕ
above zero n = n
above (suc k) n = suc (above k n)

above-add : (k n : ℕ) → above k n ≡ k + n
unfolding above
above-add zero n = omega arith
above-add (suc k) n = omega (arith, above-add k n)

climb_above : (P : ℕ → Type 0) → ((n : ℕ) → P n → P (suc n)) → (k n : ℕ) → P n → P (above k n)
unfolding above
climb_above P step zero n p = p
climb_above P step (suc k) n p = step (above k n) (climb_above P step k n p)

-- What goes from each number to the next goes from each number to every greater one.
climb : (P : ℕ → Type 0) → ((n : ℕ) → P n → P (suc n)) → (m n : ℕ) → m ≤ n → P m → P n
climb P step m n h p =
    subst P (above-add (n - m) m ∙ omega (arith, h)) (climb_above P step (n - m) m p)

-- A feature of a tier is a feature of every higher tier, whatever its name.
pub check_feature-monotone :
    (tier higher feature_name : String)
    → rank tier ≤ rank higher
    → check_feature tier feature_name ≡ true
    → check_feature higher feature_name ≡ true
unfolding check_feature
check_feature-monotone tier higher feature_name h has =
    let below : has_feature (features_of (rank tier)) feature_name ≡ true =
      ap (λ f. has_feature f feature_name) (sym (get_features-rank tier)) ∙ has in
    ap (λ f. has_feature f feature_name) (get_features-rank higher)
    ∙ climb (λ n. has_feature (features_of n) feature_name ≡ true)
        (λ n has'. ground (arith, has', features_of-Grants n feature_name)) (rank tier)
        (rank higher) h below

Allows : ℕ → ℕ → Type 0
Allows n count = elim (features_of n).max_sites [ none ↦ Unit | some limit ↦ count < limit ]

Allows-suc : (count n : ℕ) → Allows n count → Allows (suc n) count
unfolding Allows
Allows-suc count zero h = omega (arith, h)
Allows-suc count (suc zero) h = omega (arith, h)
Allows-suc count (suc (suc zero)) h = tt
Allows-suc count (suc (suc (suc n))) h = tt

allowed : Features → ℕ → Option (ℕ × ℕ)
allowed f count = elim f.max_sites [
  | none ↦ none
  | some limit ↦ if leb limit count then some (count, limit) else none
]

allowed→Allows : (n count : ℕ) → allowed (features_of n) count ≡ none → Allows n count
unfolding allowed Allows
allowed→Allows zero count h = ground (arith, h)
allowed→Allows (suc zero) count h = ground (arith, h)
allowed→Allows (suc (suc zero)) count h = ground (arith, h)
allowed→Allows (suc (suc (suc n))) count h = tt

Allows→allowed : (n count : ℕ) → Allows n count → allowed (features_of n) count ≡ none
unfolding allowed Allows
Allows→allowed zero count h = ground (arith, h)
Allows→allowed (suc zero) count h = ground (arith, h)
Allows→allowed (suc (suc zero)) count h = ground (arith, h)
Allows→allowed (suc (suc (suc n))) count h = refl

-- A number of sites that a tier allows is allowed in every higher tier.
pub validate_site_limit-monotone :
    (tier higher : String) (current_count : ℕ)
    → rank tier ≤ rank higher
    → validate_site_limit tier current_count ≡ none
    → validate_site_limit higher current_count ≡ none
unfolding validate_site_limit allowed
validate_site_limit-monotone tier higher current_count h fits =
    let below : Allows (rank tier) current_count =
      allowed→Allows (rank tier) current_count
        (ap (λ f. allowed f current_count) (sym (get_features-rank tier)) ∙ fits) in
    ap (λ f. allowed f current_count) (get_features-rank higher)
    ∙ Allows→allowed (rank higher) current_count (
        climb (λ n. Allows n current_count) (Allows-suc current_count) (rank tier) (rank higher) h
          below)
