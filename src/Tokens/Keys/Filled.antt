-- ===== src/Tokens/Keys/Filled.antt =====
-- The cache of keys of internal/engine/auth.go as the answers of the key server fill it.
use mathlib.Core.List.{Memᴰ}
use fortress_waf.Base.{
  ℕ, ◌+◌, ◌≡◌, refl, String, List, [], ◌∷◌, Option, none, some, nat_beq, nat_beq_iff, ◌==◌,
  text_keys, ◌⊎◌, inl, inr, ap, arith, Bool-cases, subst, sym,
}
use fortress_waf.Base.Map.{Map, empty, put}
use text.Mathlib.TextEquality.{eq_iff}
use fortress_waf.Tokens.Types.{Jwk, ok, fail-ne-ok}
use fortress_waf.Tokens.Keys.{
  JwtValidator, hour, Fetched, unreachable, answered, store_keys, fill, refresh_jwks,
}

-- The cache was never filled, or it holds the keys of one of these answers, to its expiry.
pub record IsFilled (answers : List Fetched) (v : JwtValidator) : Type 0 where
  pub one_hour : v.ttl ≡ hour
  pub filled :
      (v.expires_at ≡ 0)
      ⊎ ((t : ℕ) × (keys : List Jwk) × Memᴰ (answered t 200 (some keys)) answers
          × (v.keys ≡ store_keys keys empty)
          × (v.expires_at ≡ t + hour))

abbrev pub Holds : List Jwk → String → Jwk → Type 0
Holds keys kid key = Memᴰ key keys × (key.kid ≡ kid)

-- What a map holds after the keys are stored was there before, or is one of them under its name.
store_keys-Holds :
    (keys : List Jwk) (m : Map String Jwk) (kid : String) (key : Jwk)
    → store_keys keys m kid ≡ some key
    → Holds keys kid key ⊎ (m kid ≡ some key)
store_keys-Holds [] m kid key h = inr h
store_keys-Holds (k ∷ keys) m kid key h = elim (store_keys-Holds keys (put k.kid k m) kid key h) [
  | inl (member, named) ↦ inl (Memᴰ.tail member, named)
  | inr stored ↦ elim (Bool-cases (k.kid == kid)) [
    | inl same ↦
        let e : some k ≡ some key = rw same at stored in
        let is_key : k ≡ key = ap (λ (o : Option Jwk). elim o [ none ↦ k | some j ↦ j ]) e in
        inl (
          Memᴰ.head (sym is_key),
          subst (λ (j : Jwk). j.kid ≡ kid) is_key ((eq_iff k.kid kid).0 same),
        )
    | inr other ↦ inr (rw other at stored)
  ]
]

pub from_empty :
    (keys : List Jwk) (kid : String) (key : Jwk)
    → store_keys keys empty kid ≡ some key
    → Holds keys kid key
from_empty keys kid key h = elim (store_keys-Holds keys empty kid key h) [
  | inl held ↦ held
  | inr missing ↦ absurd (ground (arith, missing))
]

pub IsFilled-more :
    (answer : Fetched) (answers : List Fetched) (v : JwtValidator)
    → IsFilled answers v
    → IsFilled (answer ∷ answers) v
IsFilled-more answer answers v f = record {
  one_hour = f.one_hour;
  filled = elim f.filled [
    | inl never ↦ inl never
    | inr (t, keys, member, held, due) ↦ inr (t, keys, Memᴰ.tail member, held, due)
  ];
}

-- The state after a refresh, and the answer that filled it where that succeeds.
pub refresh-IsFilled :
    (fetched : Fetched) (answers : List Fetched) (v : JwtValidator)
    → IsFilled answers v
    → IsFilled (fetched ∷ answers) (refresh_jwks fetched v).0
      × ((u : Unit)
          → (refresh_jwks fetched v).1 ≡ ok u
          → (t : ℕ) × (keys : List Jwk) × (fetched ≡ answered t 200 (some keys))
            × ((refresh_jwks fetched v).0.keys ≡ store_keys keys empty))
refresh-IsFilled unreachable answers v f =
    (IsFilled-more unreachable answers v f, λ u h. absurd (fail-ne-ok h))
refresh-IsFilled (answered t status none) answers v f = elim (Bool-cases (nat_beq status 200)) [
  | inl accepted ↦
      rw accepted
        (IsFilled-more (answered t status none) answers v f, λ (u : Unit) h. absurd (fail-ne-ok h))
  | inr refused ↦
      rw refused
        (IsFilled-more (answered t status none) answers v f, λ (u : Unit) h. absurd (fail-ne-ok h))
]
refresh-IsFilled (answered t status (some keys)) answers v f =
    elim (Bool-cases (nat_beq status 200)) [
      | inl accepted ↦
          let e : answered t status (some keys) ≡ answered t 200 (some keys) =
            ap (λ s. answered t s (some keys)) ((nat_beq_iff status 200).0 accepted) in
          let filled : IsFilled (answered t status (some keys) ∷ answers) (fill t keys v) = record {
            one_hour = f.one_hour;
            filled = inr (t, keys, Memᴰ.head (sym e), refl, ap (λ d. t + d) f.one_hour);
          } in
          rw accepted (filled, λ (u : Unit) h. (t, keys, e, refl))
      | inr refused ↦ rw refused (
        IsFilled-more (answered t status (some keys)) answers v f,
        λ (u : Unit) h. absurd (fail-ne-ok h),
      )
    ]
