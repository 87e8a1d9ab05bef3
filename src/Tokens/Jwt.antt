-- ===== src/Tokens/Jwt.antt =====
-- Validate, validateClaims and Inspect of the validator of internal/engine/auth.go.
pub mod Signed
pub mod Authentic
use fortress_waf.Base.{
  ℕ, ◌/◌, Bool, true, false, String, List, [], ◌∷◌, Option, none, some, any, ◌||◌, ◌&&◌, not,
  if◌then◌else◌, ◌==◌, text_keys,
}
use fortress_waf.Base.Int.{ℤ, pos, ltb_ℤ}
use fortress_waf.Base.Map.{Map, get_zero}
use fortress_waf.Pipeline.Types.{Action}
use fortress_waf.Pipeline.Detection.{Detection, detection, allowing}
use fortress_waf.Tokens.Types.{
  Jwk, TokenHeader, JwtClaims, TokenLibrary, Result, ok, fail, ◌>>=◌, or_fail, require,
  invalid_format, bad_header, bad_header_json, algorithm_not_allowed, algorithm_none, bad_payload,
  bad_claims, expired, not_yet_valid, issuer_not_allowed, audience_not_allowed, no_jwks_url,
  bad_signature_encoding, wrong_signature, not_for_secret, no_signing_key, not_configured,
}
use fortress_waf.Tokens.Keys.{JwtValidator, Fetched, get_key}
use fortress_waf.Tokens.Signature.{compute_hmac, decode_segment, verify_signature}

abbrev pub is_listed : String → List String → Bool
is_listed text texts = any (λ t. t == text) texts

abbrev pub is_empty : List String → Bool
is_empty [] = true
is_empty (t ∷ ts) = false

unfoldable pub is_allowed_algorithm : String → JwtValidator → Bool
is_allowed_algorithm alg v = is_empty v.algorithms || is_listed alg v.algorithms

-- The loops over the audiences of the validator and of the token.
abbrev pub shares_audience : List String → List String → Bool
shares_audience claimed allowed = any (λ aud. any (λ c. c == aud) claimed) allowed

-- The clock in seconds.
abbrev pub unix : ℕ → ℤ
unix now = pos (now / 1000000000)

unfoldable pub validate_claims : ℕ → JwtClaims → JwtValidator → Result Unit
validate_claims now claims v = do
  u ← require (not (ltb_ℤ (pos 0) claims.expires_at && ltb_ℤ claims.expires_at (unix now))) expired
  u ←
      require (not (ltb_ℤ (pos 0) claims.not_before && ltb_ℤ (unix now) claims.not_before))
        not_yet_valid
  u ← require (is_empty v.issuers || is_listed claims.issuer v.issuers) issuer_not_allowed
  require (is_empty v.audiences || shares_audience claims.audience v.audiences) audience_not_allowed

abbrev pub three_parts : List String → Result (String × String × String)
three_parts (first ∷ second ∷ third ∷ []) = ok (first, second, third)
three_parts _ = fail invalid_format

-- What is known of a token before its signature is tested.
pub record Parsed : Type 0 where
  pub first : String
  pub second : String
  pub third : String
  pub header : TokenHeader
  pub claims : JwtClaims

-- The claims, where the signature holds.
abbrev pub claim : JwtClaims → JwtValidator × Result Unit → JwtValidator × Result JwtClaims
claim claims (v, r) = (v, r >>= λ u. ok claims)

module _ (lib : TokenLibrary) where
  open lib use {
    split_dot, split_space, join_dot, bearer_token, parse_header, parse_claims, equal_fold,
    hmac_equal,
  }

  unfoldable pub read_header : String → JwtValidator → Result TokenHeader
  read_header first v = do
    bytes ← or_fail bad_header (decode_segment lib first)
    header ← or_fail bad_header_json (parse_header bytes)
    u ← require (is_allowed_algorithm header.alg v) algorithm_not_allowed
    w ← require (not (header.alg == "none")) algorithm_none
    ok header

  unfoldable pub read_claims : ℕ → String → JwtValidator → Result JwtClaims
  read_claims now second v = do
    bytes ← or_fail bad_payload (decode_segment lib second)
    claims ← or_fail bad_claims (parse_claims bytes)
    u ← validate_claims now claims v
    ok claims

  unfoldable pub read_token : ℕ → String → JwtValidator → Result Parsed
  read_token now token v = do
    (first, second, third) ← three_parts (split_dot token)
    header ← read_header first v
    claims ← read_claims now second v
    ok (record { first = first; second = second; third = third; header = header; claims = claims })

  -- Validate, where the token names no key and there is a secret.
  unfoldable pub verify_secret : Parsed → JwtValidator → Result Unit
  verify_secret parsed v = do
    u ←
        require
          ((equal_fold (parsed.header).alg "HS256" || equal_fold (parsed.header).alg "HS384")
            || equal_fold (parsed.header).alg "HS512")
          not_for_secret
    sig ← or_fail bad_signature_encoding (decode_segment lib parsed.third)
    require
        (hmac_equal
          (compute_hmac lib v.secret (join_dot parsed.first parsed.second) (parsed.header).alg) sig)
        wrong_signature

  abbrev pub verify_by : Parsed → JwtValidator × Result Jwk → JwtValidator × Result Unit
  verify_by parsed (v, ok key) =
      (v, verify_signature lib parsed.first parsed.second parsed.third (parsed.header).alg key)
  verify_by parsed (v, fail error) = (v, fail error)

  -- The key of the token, by its name or the secret. `fetched` is what the key server answers if it is asked.
  unfoldable pub verify_token : ℕ → Fetched → Parsed → JwtValidator → JwtValidator × Result Unit
  verify_token now fetched parsed v =
      if not ((parsed.header).kid == "")
      then (if v.jwks_url == ""
          then (v, fail no_jwks_url)
          else verify_by parsed (get_key now fetched (parsed.header).kid v))
      else if not (v.secret == "")
      then (v, verify_secret parsed v)
      else if not (v.jwks_url == "")
      then (v, fail no_signing_key)
      else (v, fail not_configured)

  abbrev pub validate_read :
      ℕ → Fetched → Result Parsed → JwtValidator → JwtValidator × Result JwtClaims
  validate_read now fetched (fail error) v = (v, fail error)
  validate_read now fetched (ok parsed) v = claim parsed.claims (verify_token now fetched parsed v)

  -- All the readings of the clock but the one of the refresh give the same time.
  unfoldable pub validate : ℕ → Fetched → String → JwtValidator → JwtValidator × Result JwtClaims
  validate now fetched token v = validate_read now fetched (read_token now token v) v

  abbrev pub authorization : Map String String → String
  authorization headers =
      if get_zero "" headers "Authorization" == ""
      then get_zero "" headers "authorization"
      else get_zero "" headers "Authorization"

  -- The token that a header carries, by HasPrefix and TrimPrefix with "Bearer ".
  abbrev pub carried_token : Map String String → Option String
  carried_token headers = elim (bearer_token (authorization headers)) [
    | none ↦ none
    | some token ↦ if token == "" then none else some token
  ]

  -- The decision, and the user that the request then has.
  abbrev pub jwt_verdict : String → Result JwtClaims → String × Detection
  jwt_verdict user (ok claims) = (claims.subject, allowing)
  jwt_verdict user (fail error) =
      (user, detection Action.block "JWT-001" "JWT validation failed" "high" 85)

  unfoldable pub inspect_jwt :
      ℕ → Fetched → Map String String → String → JwtValidator → JwtValidator × (String × Detection)
  inspect_jwt now fetched headers user v = elim (carried_token headers) [
    | none ↦ (v, (user, allowing))
    | some token ↦ let (w, result) = validate now fetched token v in (w, jwt_verdict user result)
  ]

  unfoldable pub has_scope : String → String → Bool
  has_scope granted scope = if granted == "" then false else is_listed scope (split_space granted)

-- HasRole of both kinds of tokens, on the roles of the token.
unfoldable pub has_role : List String → String → Bool
has_role roles role = is_listed role roles
