-- ===== src/Tenants/Isolation/Namespace.antt =====
-- The namespaces of internal/tenant/isolation.go.
use fortress_waf.Base.{ℕ, ◌≡◌, refl, sym, ap, ◌∙◌, List, [], ◌∷◌, ◌++◌, All, append_assoc, drop}
use fortress_waf.Tenants.Isolation.{get_redis_namespace}

abbrev head_or : ℕ → List ℕ → ℕ
head_or z [] = z
head_or z (x ∷ xs) = x

-- An id without a colon.
abbrev pub IsPlain : List ℕ → Type 0
IsPlain id = All (λ c. c ≡ 58 → ⊥) id

until_colon :
    (x y k l : List ℕ) → IsPlain x → IsPlain y → (x ++ 58 ∷ k) ≡ (y ++ 58 ∷ l) → (x ≡ y) × (k ≡ l)
until_colon [] [] k l hx hy e = (refl, ap (drop 1) e)
until_colon [] (c ∷ y) k l hx (hc, hy) e = absurd (hc (sym (ap (head_or 0) e)))
until_colon (c ∷ x) [] k l (hc, hx) hy e = absurd (hc (ap (head_or 0) e))
until_colon (c ∷ x) (d ∷ y) k l (hc, hx) (hd, hy) e =
    let (xs, ks) = until_colon x y k l hx hy (ap (drop 1) e) in
    (rw (xs, (ap (head_or 0) e)) refl, ks)

-- No key of one tenant is a key of another one, where no id has a colon: a key that stands in the
-- namespaces of two tenants is one key of one tenant.
pub get_redis_namespace-disjoint :
    (x y k l : List ℕ)
    → IsPlain x
    → IsPlain y
    → get_redis_namespace x ++ k ≡ get_redis_namespace y ++ l
    → (x ≡ y) × (k ≡ l)
unfolding get_redis_namespace
get_redis_namespace-disjoint x y k l hx hy e =
    until_colon x y k l hx hy
      (sym (append_assoc x (58 ∷ []) k) ∙ ap (drop 7) e ∙ append_assoc y (58 ∷ []) l)
