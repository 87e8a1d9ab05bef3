-- ===== src/Tokens/Types.antt =====
-- The tokens of internal/engine/auth.go, what the code takes from libraries, and results with an error.
use fortress_waf.Base.{ℕ, ◌≡◌, refl, Bool, String, List, Option, ap, arith}
use fortress_waf.Base.Int.{ℤ}

-- `purpose` is the field "use" of the JSON.
pub record Jwk : Type 0 where
  pub kty : String
  pub kid : String
  pub purpose : String
  pub alg : String
  pub n : String
  pub e : String
  pub crv : String
  pub x : String
  pub y : String

-- The header of a token, without `typ`, which is not read.
pub record TokenHeader : Type 0 where
  pub alg : String
  pub kid : String

-- The times are seconds.
pub record JwtClaims : Type 0 where
  pub issuer : String
  pub subject : String
  pub audience : List String
  pub expires_at : ℤ
  pub issued_at : ℤ
  pub not_before : ℤ
  pub jwt_id : String
  pub scope : String
  pub roles : List String

pub data Curve : Type 0 where
  p256 p384 p521 : Curve

-- The hashes of computeHMAC.
pub data Digest : Type 0 where
  sha256 sha384 sha512 : Digest

-- The functions of strings, base64, encoding/json and the packages of crypto that the code calls.
-- `verify_pkcs1v15` takes the modulus, the exponent, the SHA-256 hash of the data, and the signature.
pub record TokenLibrary : Type 0 where
  pub split_dot : String → List String
  pub split_space : String → List String
  pub join_dot : String → String → String
  pub bearer_token : String → Option String
  pub decode_raw_url : String → Option (List ℕ)
  pub decode_std : String → Option (List ℕ)
  pub parse_header : List ℕ → Option TokenHeader
  pub parse_claims : List ℕ → Option JwtClaims
  pub equal_fold : String → String → Bool
  pub hmac : Digest → String → String → List ℕ
  pub hmac_equal : List ℕ → List ℕ → Bool
  pub hash_sha256 : String → List ℕ
  pub verify_pkcs1v15 : ℕ → ℤ → List ℕ → List ℕ → Bool
  pub verify_asn1 : Curve → ℕ → ℕ → String → List ℕ → Bool

-- The errors of the validation, in the order of the code.
pub data JwtError : Type 0 where
  invalid_format bad_header bad_header_json algorithm_not_allowed algorithm_none bad_payload
        bad_claims expired not_yet_valid issuer_not_allowed audience_not_allowed no_jwks_url
        fetch_failed bad_status bad_jwks key_not_found bad_signature_encoding unsupported_algorithm
        incomplete_key bad_key_encoding unsupported_curve wrong_signature not_for_secret
        no_signing_key not_configured :
      JwtError

pub data Result (A : Type 0) : Type 0 where
  ok : A → Result A
  fail : JwtError → Result A

infixl 1 ◌>>=◌
abbrev pub ◌>>=◌ : {A B : Type 0} → Result A → (A → Result B) → Result B
ok a >>= f = f a
fail error >>= f = fail error

-- A value that may be missing, with the error for it.
abbrev pub or_fail : {A : Type 0} → JwtError → Option A → Result A
or_fail error Option.none = fail error
or_fail error (Option.some a) = ok a

-- `if !test { return nil, error }`
abbrev pub require : Bool → JwtError → Result Unit
require Bool.true error = ok tt
require Bool.false error = fail error

abbrev value_or : {A : Type 0} → A → Result A → A
value_or d (ok a) = a
value_or d (fail error) = d

pub ok_injective : {A : Type 0} {a b : A} → Result.ok a ≡ ok b → a ≡ b
ok_injective {A} {a} {b} h = ap (value_or a) h

pub fail-ne-ok : {A : Type 0} {a : A} {error : JwtError} → ¬ (Result.fail error ≡ ok a)
fail-ne-ok h = ground (arith, h)

-- A chain that succeeds has succeeded in both parts.
pub bind-ok :
    {A B : Type 0} (r : Result A) (f : A → Result B) (b : B)
    → (r >>= f) ≡ ok b
    → (a : A) × (r ≡ ok a) × (f a ≡ ok b)
bind-ok (ok a) f b h = (a, refl, h)
bind-ok (fail error) f b h = absurd (fail-ne-ok h)

pub or_fail-ok :
    {A : Type 0} (error : JwtError) (o : Option A) (a : A)
    → or_fail error o ≡ ok a
    → o ≡ Option.some a
or_fail-ok error Option.none a h = absurd (fail-ne-ok h)
or_fail-ok error (Option.some b) a h = ap (λ c. Option.some c) (ok_injective h)

pub require-ok : (b : Bool) (error : JwtError) (u : Unit) → require b error ≡ ok u → b ≡ Bool.true
require-ok Bool.true error u h = refl
require-ok Bool.false error u h = absurd (fail-ne-ok h)
