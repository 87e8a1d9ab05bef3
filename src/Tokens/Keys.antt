-- ===== src/Tokens/Keys.antt =====
-- The keys that sign tokens, by getKey and refreshJWKS of internal/engine/auth.go.
pub mod Filled
pub mod Freshness
use fortress_waf.Base.{
  ℕ, ◌+◌, ◌*◌, String, List, [], ◌∷◌, Option, none, some, ltb, nat_beq, if◌then◌else◌, ◌==◌,
  text_keys,
}
use fortress_waf.Base.Map.{Map, empty, put}
use fortress_waf.Tokens.Types.{
  Jwk, Result, ok, fail, fetch_failed, bad_status, bad_jwks, no_jwks_url, key_not_found, or_fail,
}

-- JWTValidator, the cache within it. The lock keeps one access after another.
pub record JwtValidator : Type 0 where
  pub jwks_url : String
  pub issuers : List String
  pub audiences : List String
  pub algorithms : List String
  pub secret : String
  pub keys : Map String Jwk
  pub expires_at : ℕ
  pub ttl : ℕ

abbrev pub hour : ℕ
hour = 3600 * 1000000000

-- The time of a cache that was never filled is Go's zero time.
unfoldable pub new_jwt_validator :
    String → List String → List String → List String → String → JwtValidator
new_jwt_validator jwks_url issuers audiences algorithms secret = record {
  jwks_url = jwks_url;
  issuers = issuers;
  audiences = audiences;
  algorithms = algorithms;
  secret = secret;
  keys = empty;
  expires_at = 0;
  ttl = hour;
}

-- What the key server answers: nothing, or at a time a status with a body, which may not decode.
pub data Fetched : Type 0 where
  unreachable : Fetched
  answered : (now status : ℕ) → Option (List Jwk) → Fetched

-- `for _, key := range jwks.Keys { keys[key.Kid] = key }`
abbrev pub store_keys : List Jwk → Map String Jwk → Map String Jwk
store_keys [] m = m
store_keys (key ∷ keys) m = store_keys keys (put key.kid key m)

abbrev pub fill : ℕ → List Jwk → JwtValidator → JwtValidator
fill now keys v = record v { keys = store_keys keys empty; expires_at = now + v.ttl }

abbrev pub refresh_body : ℕ → Option (List Jwk) → JwtValidator → JwtValidator × Result Unit
refresh_body now none v = (v, fail bad_jwks)
refresh_body now (some keys) v = (fill now keys v, ok tt)

abbrev pub refresh_jwks : Fetched → JwtValidator → JwtValidator × Result Unit
refresh_jwks unreachable v = (v, fail fetch_failed)
refresh_jwks (answered now status body) v =
    if nat_beq status 200 then refresh_body now body v else (v, fail bad_status)

-- The key in the cache, while that is fresh.
abbrev pub cached_key : ℕ → String → JwtValidator → Option Jwk
cached_key now kid v = if ltb now v.expires_at then v.keys kid else none

-- The second look, after a refresh.
abbrev pub refreshed_key : String → JwtValidator × Result Unit → JwtValidator × Result Jwk
refreshed_key kid (v, ok u) = (v, or_fail key_not_found (v.keys kid))
refreshed_key kid (v, fail error) = (v, fail error)

unfoldable pub get_key : ℕ → Fetched → String → JwtValidator → JwtValidator × Result Jwk
get_key now fetched kid v = elim (cached_key now kid v) [
  | some key ↦ (v, ok key)
  | none ↦
      if v.jwks_url == "" then (v, fail no_jwks_url) else refreshed_key kid (refresh_jwks fetched v)
]
