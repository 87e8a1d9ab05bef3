-- ===== src/Tokens/Jwt/Signed.antt =====
-- The signature of a token that Validate of internal/engine/auth.go accepts.
use fortress_waf.Base.{
  ℕ, ◌≡◌, ◌≢◌, refl, ap, Bool, true, false, String, List, some, ◌⊎◌, inl, inr, ◌||◌, ◌==◌,
  text_keys, Bool-cases, agrees_false→ne,
}
use text.Mathlib.TextEquality.{eq_iff}
use fortress_waf.Tokens.Types.{
  Jwk, JwtClaims, TokenLibrary, Result, ok, fail, bind-ok, require-ok, or_fail-ok, ok_injective,
  fail-ne-ok,
}
use fortress_waf.Tokens.Keys.{JwtValidator, Fetched, get_key}
use fortress_waf.Tokens.Signature.{decode_segment, verify_signature, compute_hmac}
use fortress_waf.Tokens.Jwt.{
  Parsed, read_token, validate, validate_read, verify_token, verify_secret, verify_by, claim,
}
use fortress_waf.Tokens.Jwt.Authentic.{IsRead, read_token-IsRead}
use fortress_waf.Tokens.Signature.Sound.{KeySigns, verify_with-KeySigns}

-- The signature of a token: an HMAC with the secret where the header names no key, and otherwise one of the key
-- with the name in the header.
pub data IsSigned (lib : TokenLibrary) (now : ℕ) (fetched : Fetched) (v : JwtValidator)
    (parsed : Parsed) : Type 0 where
  by_secret :
      (sig : List ℕ)
      → (parsed.header).kid ≡ ""
      → v.secret ≢ ""
      → (lib.equal_fold (parsed.header).alg "HS256" ≡ true)
        ⊎ ((lib.equal_fold (parsed.header).alg "HS384" ≡ true)
            ⊎ (lib.equal_fold (parsed.header).alg "HS512" ≡ true))
      → decode_segment lib parsed.third ≡ some sig
      → lib.hmac_equal
          (compute_hmac lib v.secret (lib.join_dot parsed.first parsed.second) (parsed.header).alg)
          sig
        ≡ true
      → IsSigned lib now fetched v parsed
  by_key :
      (key : Jwk) (sig : List ℕ)
      → (parsed.header).kid ≢ ""
      → v.jwks_url ≢ ""
      → (get_key now fetched (parsed.header).kid v).1 ≡ ok key
      → decode_segment lib parsed.third ≡ some sig
      → KeySigns lib (parsed.header).alg (lib.join_dot parsed.first parsed.second) sig key
      → IsSigned lib now fetched v parsed

module _ (lib : TokenLibrary) where
  -- The signature by a key that was found.
  found-IsSigned :
      (now : ℕ) (fetched : Fetched) (v : JwtValidator) (parsed : Parsed)
      (found : JwtValidator × Result Jwk)
      → (parsed.header).kid ≢ ""
      → v.jwks_url ≢ ""
      → (get_key now fetched (parsed.header).kid v) ≡ found
      → (verify_by lib parsed found).1 ≡ ok tt
      → IsSigned lib now fetched v parsed
  unfolding verify_signature
  found-IsSigned now fetched v parsed (w, fail error) named served is_found h =
      absurd (fail-ne-ok h)
  found-IsSigned now fetched v parsed (w, ok key) named served is_found h =
      let (sig, decoded, h1) = bind-ok _ _ tt h in
      by_key key sig named served (ap (λ (f : JwtValidator × Result Jwk). f.1) is_found)
        (or_fail-ok _ _ sig decoded) (verify_with-KeySigns lib _ _ sig key h1)

  secret-IsSigned :
      (now : ℕ) (fetched : Fetched) (v : JwtValidator) (parsed : Parsed)
      → (parsed.header).kid ≡ ""
      → v.secret ≢ ""
      → verify_secret lib parsed v ≡ ok tt
      → IsSigned lib now fetched v parsed
  unfolding verify_secret
  secret-IsSigned now fetched v parsed unnamed has_secret h =
      let (u, is_hmac, h1) = bind-ok _ _ tt h in
      let (sig, decoded, h2) = bind-ok _ _ tt h1 in
      by_secret sig unnamed has_secret (hmac_name _ _ _ (require-ok _ _ u is_hmac))
        (or_fail-ok _ _ sig decoded) (require-ok _ _ tt h2)
    where
      hmac_name : (a b c : Bool) → ((a || b) || c) ≡ true → (a ≡ true) ⊎ ((b ≡ true) ⊎ (c ≡ true))
      hmac_name true b c e = inl refl
      hmac_name false true c e = inr (inl refl)
      hmac_name false false c e = inr (inr e)

  verify_token-IsSigned :
      (now : ℕ) (fetched : Fetched) (v : JwtValidator) (parsed : Parsed)
      → (verify_token lib now fetched parsed v).1 ≡ ok tt
      → IsSigned lib now fetched v parsed
  unfolding verify_token
  verify_token-IsSigned now fetched v parsed h = elim (Bool-cases ((parsed.header).kid == "")) [
    | inr named ↦ elim (Bool-cases (v.jwks_url == "")) [
      | inl unserved ↦ absurd (fail-ne-ok (rw (verify_token, named, unserved) at h))
      | inr served ↦
          found-IsSigned now fetched v parsed (get_key now fetched (parsed.header).kid v)
            (agrees_false→ne (parsed.header).kid "" named) (agrees_false→ne v.jwks_url "" served)
            refl (rw (verify_token, named, served) at h)
    ]
    | inl unnamed ↦ elim (Bool-cases (v.secret == "")) [
      | inr has_secret ↦
          secret-IsSigned now fetched v parsed ((eq_iff (parsed.header).kid "").0 unnamed)
            (agrees_false→ne v.secret "" has_secret) (rw (verify_token, unnamed, has_secret) at h)
      | inl without ↦ elim (Bool-cases (v.jwks_url == "")) [
        | inl unserved ↦ absurd (fail-ne-ok (rw (verify_token, unnamed, without, unserved) at h))
        | inr served ↦ absurd (fail-ne-ok (rw (verify_token, unnamed, without, served) at h))
      ]
    ]
  ]

  claim-ok :
      (claims claims' : JwtClaims) (r : JwtValidator × Result Unit)
      → (claim claims r).1 ≡ ok claims'
      → (r.1 ≡ ok tt) × (claims ≡ claims')
  claim-ok claims claims' (v, ok u) h = (refl, ok_injective h)
  claim-ok claims claims' (v, fail error) h = absurd (fail-ne-ok h)

  validate_read-IsSigned :
      (now : ℕ) (fetched : Fetched) (token : String) (v : JwtValidator) (claims : JwtClaims)
      (r : Result Parsed)
      → read_token lib now token v ≡ r
      → (validate_read lib now fetched r v).1 ≡ ok claims
      → (parsed : Parsed) × (parsed.claims ≡ claims)
        × IsRead lib now token v parsed
        × IsSigned lib now fetched v parsed
  validate_read-IsSigned now fetched token v claims (fail error) is_read h = absurd (fail-ne-ok h)
  validate_read-IsSigned now fetched token v claims (ok parsed) is_read h =
      let (verified, same) =
        claim-ok parsed.claims claims (verify_token lib now fetched parsed v) h in
      (
        parsed,
        same,
        read_token-IsRead lib now token v parsed is_read,
        verify_token-IsSigned now fetched v parsed verified,
      )

  -- A token that Validate accepts, with its claims, has three parts: a header that decodes, with an algorithm that is
  -- not "none" and that the validator lists, if it lists any; claims that decode and hold now; and a signature of the
  -- first two parts, by HMAC with the secret where the header names no key, and otherwise by an RSA or
  -- elliptic-curve key that getKey finds by the name in the header.
  pub validate-IsSigned :
      (now : ℕ) (fetched : Fetched) (token : String) (v : JwtValidator) (claims : JwtClaims)
      → (validate lib now fetched token v).1 ≡ ok claims
      → (parsed : Parsed) × (parsed.claims ≡ claims)
        × IsRead lib now token v parsed
        × IsSigned lib now fetched v parsed
  unfolding validate
  validate-IsSigned now fetched token v claims h =
      validate_read-IsSigned now fetched token v claims (read_token lib now token v) refl h
