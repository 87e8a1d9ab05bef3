-- ===== src/Tokens/Tests.antt =====
-- Runs of the model of internal/engine/auth.go on a few tokens.
use Prim.Native.String.{len}
use Prim.Native.String.{◌++◌ as append}
use mathlib.Core.List.{Memᴰ}
use fortress_waf.Base.{
  ℕ, ◌+◌, ◌*◌, ◌<◌, ◌≡◌, inr, refl, Bool, true, false, ◌&&◌, String, List, [], ◌∷◌, map, none, some,
  ◌⊎◌, nat_beq, agrees_false→ne, if◌then◌else◌, ◌==◌, text_keys, arith,
}
use fortress_waf.Base.Int.{pos}
use fortress_waf.Base.Map.{Map, empty, put}
use fortress_waf.Pipeline.Detection.{allowing}
use fortress_waf.Tokens.Types.{TokenLibrary, JwtClaims, Jwk}
use fortress_waf.Tokens.Keys.{JwtValidator, new_jwt_validator, hour, unreachable, answered, get_key}
use fortress_waf.Tokens.Keys.Freshness.{Ask, get_key-IsFresh}
use fortress_waf.Tokens.Signature.{compute_hmac}
use fortress_waf.Tokens.Jwt.{
  Parsed, validate, read_token, read_header, is_allowed_algorithm, read_claims, validate_claims,
  verify_token, verify_secret,
}
use fortress_waf.Tokens.Jwt.Authentic.{IsRead, IsCurrent}
use fortress_waf.Tokens.Jwt.Signed.{IsSigned, validate-IsSigned}
use fortress_waf.Tokens.Introspection.{
  OauthIntrospector, TokenInfo, not_sent, replied, introspect, inspect_oauth,
  new_oauth_introspector, get_cached,
}
use fortress_waf.Tokens.Introspection.Revocation.{Call, after_calls, inspect_oauth-introspect}

abbrev same_bytes : List ℕ → List ℕ → Bool
same_bytes [] [] = true
same_bytes (x ∷ xs) (y ∷ ys) = nat_beq x y && same_bytes xs ys
same_bytes _ _ = false

abbrev claims : JwtClaims
claims = record {
  issuer = "id.example.org";
  subject = "alice";
  audience = "shop" ∷ [];
  expires_at = pos 2000;
  issued_at = pos 900;
  not_before = pos 900;
  jwt_id = "1";
  scope = "";
  roles = [];
}

-- Texts stand for their bytes by their length; every header is one of HS256.
abbrev library : TokenLibrary
library = record {
  split_dot = λ s. "head" ∷ "claims" ∷ "signature in 21 chars" ∷ [];
  split_space = λ s. s ∷ [];
  join_dot = λ a b. append a (append "." b);
  bearer_token = λ s. if s == "" then none else some s;
  decode_raw_url = λ s. some (len s ∷ []);
  decode_std = λ s. none;
  parse_header = λ bytes. some (record { alg = "HS256"; kid = "" });
  parse_claims = λ bytes. some claims;
  equal_fold = λ a b. a == b;
  hmac = λ d secret text. (len secret + len text) ∷ [];
  hmac_equal = same_bytes;
  hash_sha256 = λ s. len s ∷ [];
  verify_pkcs1v15 = λ n e hash sig. false;
  verify_asn1 = λ c x y text sig. false;
}

abbrev validator : JwtValidator
validator =
    new_jwt_validator "" ("id.example.org" ∷ []) ("shop" ∷ "cart" ∷ []) ("HS256" ∷ []) "ten chars!"

abbrev noon : ℕ
noon = 1000 * 1000000000

validate-IsSigned_example :
    (parsed : Parsed) × (parsed.claims ≡ claims)
    × IsRead library noon "token" validator parsed
    × IsSigned library noon unreachable validator parsed
unfolding validate read_token read_header is_allowed_algorithm new_jwt_validator read_claims
    validate_claims verify_token verify_secret compute_hmac
validate-IsSigned_example = validate-IsSigned library noon unreachable "token" validator claims refl

abbrev parsed_token : Parsed
parsed_token = record {
  first = "head";
  second = "claims";
  third = "signature in 21 chars";
  header = record { alg = "HS256"; kid = "" };
  claims = claims;
}

claims-IsCurrent : IsCurrent noon validator claims
unfolding new_jwt_validator
claims-IsCurrent = record {
  unexpired = inr refl;
  started = inr refl;
  issued = inr (Memᴰ.head refl);
  addressed = inr ("shop", Memᴰ.head refl, Memᴰ.head refl);
}

parsed_token-IsRead : IsRead library noon "token" validator parsed_token
unfolding new_jwt_validator
parsed_token-IsRead = record {
  parts = refl;
  header_read = (4 ∷ [], refl, refl);
  algorithm_listed = inr (Memᴰ.head refl);
  algorithm_named = agrees_false→ne "HS256" "none" refl;
  claims_read = (6 ∷ [], refl, refl);
  claims_current = claims-IsCurrent;
}

abbrev key : Jwk
key = record {
  kty = "RSA";
  kid = "k1";
  purpose = "sig";
  alg = "RS256";
  n = "n";
  e = "e";
  crv = "";
  x = "";
  y = "";
}

abbrev asks : List Ask
asks = record { now = 1000; fetched = answered 1001 200 (some (key ∷ [])); kid = "k1" } ∷ []

get_key-IsFresh_example :
    (t : ℕ) × (keys : List Jwk) × (Memᴰ key keys × (key.kid ≡ "k1"))
    × ((unreachable ≡ answered t 200 (some keys))
        ⊎ (Memᴰ (answered t 200 (some keys)) (map (λ (a : Ask). a.fetched) asks)
            × (5000 < t + hour)))
unfolding get_key new_jwt_validator
get_key-IsFresh_example =
    get_key-IsFresh "https://id.example.org/jwks" [] [] [] "" asks 5000 unreachable "k1" key refl

-- An expiry at second 5000.
abbrev info : TokenInfo
info = record {
  active = true;
  scope = "";
  client_id = "shop";
  username = "alice";
  token_type = "bearer";
  expires_at = pos 5000;
  issued_at = pos 900;
  not_before = pos 0;
  subject = "alice";
  audience = "";
  roles = [];
}

abbrev introspector : OauthIntrospector
introspector = new_oauth_introspector "https://id.example.org/introspect"

abbrev headers : Map String String
headers = put "Authorization" "secret-token" empty

abbrev calls : List Call
calls = record { now = noon + 7; reply = not_sent; token = "other" } ∷ []

-- The server revokes the token, and answers so.
abbrev revoked : TokenInfo
revoked = record info { active = false }

inspect_oauth-introspect_example :
    (inspect_oauth library
      (4000 * 1000000000)
      (replied (4000 * 1000000000) 200 (some revoked))
      headers
      ""
      (after_calls calls
        (introspect noon (replied noon 200 (some info)) "secret-token" introspector).0)).1
    ≡ ("alice", allowing)
unfolding get_cached new_oauth_introspector
inspect_oauth-introspect_example =
    inspect_oauth-introspect library noon noon (4000 * 1000000000) "secret-token" "" info
      (replied (4000 * 1000000000) 200 (some revoked)) calls headers introspector refl
      (agrees_false→ne introspector.introspection_url "" refl) refl refl (omega arith, tt)
      (omega arith) refl
