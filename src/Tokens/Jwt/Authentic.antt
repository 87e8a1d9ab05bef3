-- ===== src/Tokens/Jwt/Authentic.antt =====
-- What a token that Validate of internal/engine/auth.go accepts is known to carry.
use mathlib.Core.List.{Memᴰ}
use fortress_waf.Base.{
  ℕ, ◌≡◌, ◌≢◌, refl, ap, Bool, true, false, String, List, [], ◌∷◌, some, ◌⊎◌, inl, inr, any, ◌||◌,
  not, ◌==◌, text_keys, agrees_false→ne, arith, subst,
}
use fortress_waf.Base.Int.{pos, ltb_ℤ}
use fortress_waf.Base.Member.{not_and-true, any-Mem, listed-Mem}
use fortress_waf.Tokens.Types.{
  TokenHeader, JwtClaims, TokenLibrary, ok, bind-ok, require-ok, or_fail-ok, ok_injective,
}
use fortress_waf.Tokens.Keys.{JwtValidator}
use fortress_waf.Tokens.Signature.{decode_segment}
use fortress_waf.Tokens.Jwt.{
  Parsed, read_header, read_claims, read_token, validate_claims, is_allowed_algorithm, unix,
  three_parts, is_listed, is_empty, shares_audience,
}

abbrev pub Listed : String → List String → Type 0
Listed text texts = (texts ≡ []) ⊎ Memᴰ text texts

-- The claims hold now, for this validator: it is not past the time of expiry, if there is one, nor before the
-- time of the start, and the issuer and an audience are among those that the validator lists, if it lists any.
pub record IsCurrent (now : ℕ) (v : JwtValidator) (claims : JwtClaims) : Type 0 where
  pub unexpired :
      (ltb_ℤ (pos 0) claims.expires_at ≡ false) ⊎ (ltb_ℤ claims.expires_at (unix now) ≡ false)
  pub started :
      (ltb_ℤ (pos 0) claims.not_before ≡ false) ⊎ (ltb_ℤ (unix now) claims.not_before ≡ false)
  pub issued : Listed claims.issuer v.issuers
  pub addressed :
      (v.audiences ≡ [])
      ⊎ ((audience : String) × Memᴰ audience v.audiences × Memᴰ audience claims.audience)

listed-Listed :
    (text : String) (texts : List String)
    → (is_empty texts || is_listed text texts) ≡ true
    → Listed text texts
listed-Listed text [] h = inl refl
listed-Listed text (t ∷ ts) h = inr (listed-Mem text (t ∷ ts) h)

shared-audience :
    (claimed allowed : List String)
    → (is_empty allowed || shares_audience claimed allowed) ≡ true
    → (allowed ≡ []) ⊎ ((audience : String) × Memᴰ audience allowed × Memᴰ audience claimed)
shared-audience claimed [] h = inl refl
shared-audience claimed (a ∷ allowed) h =
    let (audience, member, shared) = any-Mem (λ aud. any (λ c. c == aud) claimed) (a ∷ allowed) h in
    inr (audience, member, listed-Mem audience claimed shared)

validate_claims-IsCurrent :
    (now : ℕ) (claims : JwtClaims) (v : JwtValidator) (u : Unit)
    → validate_claims now claims v ≡ ok u
    → IsCurrent now v claims
unfolding validate_claims
validate_claims-IsCurrent now claims v u h =
    let (u1, in_time, h1) = bind-ok _ _ u h in
    let (u2, begun, h2) = bind-ok _ _ u h1 in
    let (u3, issuers, audiences) = bind-ok _ _ u h2 in
    record {
      unexpired = not_and-true _ _ (require-ok _ _ u1 in_time);
      started = not_and-true _ _ (require-ok _ _ u2 begun);
      issued = listed-Listed claims.issuer v.issuers (require-ok _ _ u3 issuers);
      addressed = shared-audience claims.audience v.audiences (require-ok _ _ u audiences);
    }

-- What the parts of a token say, for this validator at this time.
pub record IsRead (lib : TokenLibrary) (now : ℕ) (token : String) (v : JwtValidator)
    (parsed : Parsed) : Type 0 where
  pub parts : lib.split_dot token ≡ parsed.first ∷ parsed.second ∷ parsed.third ∷ []
  pub header_read :
      (bytes : List ℕ) × (decode_segment lib parsed.first ≡ some bytes)
      × (lib.parse_header bytes ≡ some parsed.header)
  pub algorithm_listed : Listed (parsed.header).alg v.algorithms
  pub algorithm_named : (parsed.header).alg ≢ "none"
  pub claims_read :
      (bytes : List ℕ) × (decode_segment lib parsed.second ≡ some bytes)
      × (lib.parse_claims bytes ≡ some parsed.claims)
  pub claims_current : IsCurrent now v parsed.claims

module _ (lib : TokenLibrary) where
  HeaderOf : String → JwtValidator → TokenHeader → Type 0
  HeaderOf first v header =
      ((bytes : List ℕ) × (decode_segment lib first ≡ some bytes)
        × (lib.parse_header bytes ≡ some header))
      × Listed header.alg v.algorithms
      × (header.alg ≢ "none")

  not-true : (b : Bool) → not b ≡ true → b ≡ false
  not-true b h = ground (arith, h)

  read_header-ok :
      (first : String) (v : JwtValidator) (header : TokenHeader)
      → read_header lib first v ≡ ok header
      → HeaderOf first v header
  unfolding read_header is_allowed_algorithm HeaderOf
  read_header-ok first v header h =
      let (bytes, decoded, h1) = bind-ok _ _ header h in
      let (header', parsed, h2) = bind-ok _ _ header h1 in
      let (u, listed, h3) = bind-ok _ _ header h2 in
      let (u', named, h4) = bind-ok _ _ header h3 in
      subst (λ d. HeaderOf first v d) (ok_injective h4)
        (
          (bytes, or_fail-ok _ _ bytes decoded, or_fail-ok _ _ header' parsed),
          listed-Listed header'.alg v.algorithms (require-ok _ _ u listed),
          agrees_false→ne header'.alg "none" (not-true _ (require-ok _ _ u' named)),
        )

  ClaimsOf : ℕ → String → JwtValidator → JwtClaims → Type 0
  ClaimsOf now second v claims =
      ((bytes : List ℕ) × (decode_segment lib second ≡ some bytes)
        × (lib.parse_claims bytes ≡ some claims))
      × IsCurrent now v claims

  read_claims-ok :
      (now : ℕ) (second : String) (v : JwtValidator) (claims : JwtClaims)
      → read_claims lib now second v ≡ ok claims
      → ClaimsOf now second v claims
  unfolding read_claims ClaimsOf
  read_claims-ok now second v claims h =
      let (bytes, decoded, h1) = bind-ok _ _ claims h in
      let (claims', parsed, h2) = bind-ok _ _ claims h1 in
      let (u, current, h3) = bind-ok _ _ claims h2 in
      subst (λ d. ClaimsOf now second v d) (ok_injective h3)
        (
          (bytes, or_fail-ok _ _ bytes decoded, or_fail-ok _ _ claims' parsed),
          validate_claims-IsCurrent now claims' v u current,
        )

  three_parts-ok :
      (parts : List String) (a b c : String)
      → three_parts parts ≡ ok (a, b, c)
      → parts ≡ a ∷ b ∷ c ∷ []
  three_parts-ok [] a b c h = absurd (ground (arith, h))
  three_parts-ok (x ∷ []) a b c h = absurd (ground (arith, h))
  three_parts-ok (x ∷ y ∷ []) a b c h = absurd (ground (arith, h))
  three_parts-ok (x ∷ y ∷ z ∷ []) a b c h =
      let e = ok_injective h in ap (λ (p : String × String × String). p.0 ∷ p.1 ∷ p.2 ∷ []) e
  three_parts-ok (x ∷ y ∷ z ∷ w ∷ rest) a b c h = absurd (ground (arith, h))

  pub read_token-IsRead :
      (now : ℕ) (token : String) (v : JwtValidator) (parsed : Parsed)
      → read_token lib now token v ≡ ok parsed
      → IsRead lib now token v parsed
  unfolding read_token HeaderOf ClaimsOf
  read_token-IsRead now token v parsed h =
      let ((first, second, third), parts, h1) = bind-ok _ _ parsed h in
      let (header, is_header, h2) = bind-ok _ _ parsed h1 in
      let (claims, is_claims, h3) = bind-ok _ _ parsed h2 in
      let (header_read, listed, named) = read_header-ok first v header is_header in
      let (claims_read, current) = read_claims-ok now second v claims is_claims in
      subst (λ d. IsRead lib now token v d) (ok_injective h3)
        (record {
          parts = three_parts-ok (lib.split_dot token) first second third parts;
          header_read = header_read;
          algorithm_listed = listed;
          algorithm_named = named;
          claims_read = claims_read;
          claims_current = current;
        })
