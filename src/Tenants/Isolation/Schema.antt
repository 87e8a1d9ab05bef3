-- ===== src/Tenants/Isolation/Schema.antt =====
-- The schemas of internal/tenant/isolation.go.
use fortress_waf.Base.{
  ℕ, ◌≡◌, ◌↔◌, refl, sym, ap, ◌∙◌, true, List, [], ◌∷◌, ◌++◌, All, drop, Bool-cases, inl, inr, ◌≤◌,
  ◌⊎◌, arith,
}
use fortress_waf.Tenants.Isolation.{
  is_word, sanitize_identifier, get_postgres_schema, schema_prefix,
}

-- An ASCII letter, a digit or an underscore.
abbrev pub IsWordRune : ℕ → Type 0
IsWordRune c = ((97 ≤ c) × (c ≤ 122)) ⊎ ((65 ≤ c) × (c ≤ 90)) ⊎ ((48 ≤ c) × (c ≤ 57)) ⊎ (c ≡ 95)

abbrev pub IsIdentifier : List ℕ → Type 0
IsIdentifier id = All IsWordRune id

-- The runes of `name` are those of `id`, with an underscore (95) for each one that is no word rune.
abbrev pub IsNameOf : List ℕ → List ℕ → Type 0
IsNameOf [] [] = Unit
IsNameOf [] (d ∷ name) = ⊥
IsNameOf (c ∷ id) [] = ⊥
IsNameOf (c ∷ id) (d ∷ name) =
    ((IsWordRune c × (d ≡ c)) ⊎ ((IsWordRune c → ⊥) × (d ≡ 95))) × IsNameOf id name

is_word→IsWordRune : (c : ℕ) → is_word c ≡ true → IsWordRune c
is_word→IsWordRune c h = ground (arith, h)

IsWordRune→is_word : (c : ℕ) → IsWordRune c → is_word c ≡ true
IsWordRune→is_word c (inl (lo, hi)) = ground (arith, lo, hi)
IsWordRune→is_word c (inr (inl (lo, hi))) = ground (arith, lo, hi)
IsWordRune→is_word c (inr (inr (inl (lo, hi)))) = ground (arith, lo, hi)
IsWordRune→is_word c (inr (inr (inr e))) = ground (arith, e)

sanitize_identifier-IsNameOf :
    (id : List ℕ) → IsIdentifier (sanitize_identifier id) × IsNameOf id (sanitize_identifier id)
unfolding sanitize_identifier
sanitize_identifier-IsNameOf [] = (tt, tt)
sanitize_identifier-IsNameOf (c ∷ id) =
    let (words, names) = sanitize_identifier-IsNameOf id in
    elim (Bool-cases (is_word c)) [
      | inl word ↦
          let w = is_word→IsWordRune c word in
          rw (sanitize_identifier, word) ((w, words), (inl (w, refl), names))
      | inr other ↦
          rw (sanitize_identifier, other)
            (
              (inr (inr (inr refl)), words),
              (
                inr ((λ w. let h = IsWordRune→is_word c w in ground (arith, h, other)), refl),
                names,
              ),
            )
    ]

sanitize_identifier_fixed : (id : List ℕ) → IsIdentifier id → sanitize_identifier id ≡ id
unfolding sanitize_identifier
sanitize_identifier_fixed [] h = refl
sanitize_identifier_fixed (c ∷ id) (word, h) =
    rw (IsWordRune→is_word c word, sanitize_identifier_fixed id h) refl

-- The schema of a tenant is `tenant_` followed by the tenant's id with an underscore for every rune of it that is no ASCII
-- letter, digit or underscore, so it holds only those; and an id `other` of only such runes has the same
-- schema exactly if `other` is that name: a tenant with another rune in its id shares its schema with the
-- tenant of that name.
pub get_postgres_schema-IsIdentifier :
    (id other : List ℕ)
    → (name : List ℕ) × (get_postgres_schema id ≡ 116 ∷ 101 ∷ 110 ∷ 97 ∷ 110 ∷ 116 ∷ 95 ∷ name)
      × IsNameOf id name
      × IsIdentifier (get_postgres_schema id)
      × (IsIdentifier other → (get_postgres_schema other ≡ get_postgres_schema id) ↔ (other ≡ name))
unfolding get_postgres_schema
get_postgres_schema-IsIdentifier id other =
    let (words, names) = sanitize_identifier-IsNameOf id in
    let letter : (c : ℕ) → is_word c ≡ true → IsWordRune c = is_word→IsWordRune in
    (
      sanitize_identifier id,
      refl,
      names,
      (
        letter 116 refl,
        (
          letter 101 refl,
          (
            letter 110 refl,
            (letter 97 refl, (letter 110 refl, (letter 116 refl, (letter 95 refl, words)))),
          ),
        ),
      ),
      λ h.
          let fixed = sanitize_identifier_fixed other h in
          ((λ e. sym fixed ∙ ap (drop 7) e), (λ e. ap (λ l. schema_prefix ++ l) (fixed ∙ e))),
    )
