-- ===== src/Billing/License/Prefix.antt =====
-- The prefix of Generate in internal/billing/license.go, and Validate.
use fortress_waf.Base.{
  ℕ, ◌≡◌, ◌≤◌, refl, true, false, List, [], ◌∷◌, ◌++◌, All, some, inl, inr, ltb, arith,
}
use fortress_waf.Billing.License.{
  LicenseClaims, LicenseLibrary, invalid_signature, license_prefix, generate, validate,
  validate_with_public_key, validate_parts, decode_parts, check_signature, decode_claims,
}

-- A text without a dot.
abbrev pub IsDotless : List ℕ → Type 0
IsDotless text = All (λ c. c ≡ 46 → ⊥) text

module _ {Key : Type 0} (lib : LicenseLibrary Key) where
  open lib use {marshal, unmarshal, encode, decode, hash, sign, verify, split_dot}

  -- strings.Split of a text with one dot.
  abbrev pub SplitsDots : Type 0
  SplitsDots = (x y : List ℕ) → IsDotless x → IsDotless y → split_dot (x ++ 46 ∷ y) ≡ x ∷ y ∷ []

  -- A token that Generate makes for claims is refused by Validate of the same key at every time, where the
  -- signature of the claims' bytes is not valid, under that key, for the hash of the bytes that the prefix
  -- and the payload decode to; without the prefix Validate gives the claims back until their time of grace is
  -- over. It is assumed that strings.Split cuts a text with one dot there, that the claims are read back
  -- from their JSON and the two parts from base64, where no encoding has a dot, and that the key verifies the signature
  -- that it made.
  pub validate-generate :
      (key : Key) (now : ℕ) (claims : LicenseClaims) (json signature : List ℕ)
      → SplitsDots
      → marshal claims ≡ some json
      → unmarshal json ≡ some claims
      → sign key (hash json) ≡ some signature
      → verify key (hash json) signature ≡ true
      → verify key (hash (21 ∷ 98 ∷ 254 ∷ json)) signature ≡ false
      → IsDotless (encode json)
      → IsDotless (encode signature)
      → decode (encode json) ≡ some json
      → decode (encode signature) ≡ some signature
      → decode (license_prefix ++ encode json) ≡ some (21 ∷ 98 ∷ 254 ∷ json)
      → let token : List ℕ = encode json ++ 46 ∷ encode signature in
        (generate lib key claims ≡ inr (license_prefix ++ token))
        × (validate lib key now (license_prefix ++ token) ≡ inl invalid_signature)
        × (now ≤ claims.grace_until → validate lib key now token ≡ inr claims)
  unfolding generate validate validate_with_public_key validate_parts decode_parts check_signature
      decode_claims
  validate-generate key now claims json signature splits made read signed verified forged dotless
        dotless' decoded decoded' prefixed =
      (
        rw (generate, made, signed) refl,
        rw
            (
              validate,
              validate_with_public_key,
              splits (license_prefix ++ encode json) (encode signature)
                  (
                    (λ e. omega (arith, e)),
                    (
                      (λ e. omega (arith, e)),
                      ((λ e. omega (arith, e)), ((λ e. omega (arith, e)), dotless)),
                    ),
                  )
                  dotless',
              prefixed,
              decoded',
              check_signature,
              forged,
            )
            refl,
        (λ early.
            let in_time : ltb claims.grace_until now ≡ false = ground (arith, early) in
            rw
              (
                validate,
                validate_with_public_key,
                splits (encode json) (encode signature) dotless dotless',
                decoded,
                decoded',
                check_signature,
                verified,
                decode_claims,
                read,
                in_time,
              )
              refl),
      )
