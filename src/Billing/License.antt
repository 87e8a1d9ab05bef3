-- ===== src/Billing/License.antt =====
-- internal/billing/license.go. A text is a list of bytes, a time a number of nanoseconds. The encoding of
-- public keys, which nothing reads back, is left out.
pub mod Prefix
mod Tests
use fortress_waf.Base.{
  ℕ, ◌+◌, ◌*◌, Bool, true, false, String, List, [], ◌∷◌, ◌++◌, Option, none, some, ◌⊎◌, inl, inr,
  ltb, any, if◌then◌else◌, ◌==◌, text_keys,
}

pub record LicenseClaims : Type 0 where
  pub tier : String
  pub org : String
  pub seats : ℕ
  pub features : List String
  pub issued_at : ℕ
  pub expires_at : ℕ
  pub grace_until : ℕ
  pub version : String
  pub license_id : String

-- What the libraries of JSON, base64, SHA-256 and ECDSA and strings.Split with "." do.
pub record LicenseLibrary (Key : Type 0) : Type 0 where
  pub marshal : LicenseClaims → Option (List ℕ)
  pub unmarshal : List ℕ → Option LicenseClaims
  pub encode : List ℕ → List ℕ
  pub decode : List ℕ → Option (List ℕ)
  pub hash : List ℕ → List ℕ
  pub sign : Key → List ℕ → Option (List ℕ)
  pub verify : Key → List ℕ → List ℕ → Bool
  pub split_dot : List ℕ → List (List ℕ)

pub data LicenseError : Type 0 where
  marshal_failed sign_failed invalid_format invalid_encoding invalid_signature invalid_claims
        expired :
      LicenseError

-- "FWL-"
abbrev pub license_prefix : List ℕ
license_prefix = 70 ∷ 87 ∷ 76 ∷ 45 ∷ []

module _ {Key : Type 0} (lib : LicenseLibrary Key) where
  open lib use {marshal, unmarshal, encode, decode, hash, sign, verify, split_dot}

  unfoldable pub generate : Key → LicenseClaims → LicenseError ⊎ List ℕ
  generate key claims = elim (marshal claims) [
    | none ↦ inl marshal_failed
    | some json ↦ elim (sign key (hash json)) [
      | none ↦ inl sign_failed
      | some signature ↦ inr (license_prefix ++ (encode json ++ 46 ∷ encode signature))
    ]
  ]

  unfoldable pub decode_claims : List ℕ → LicenseError ⊎ LicenseClaims
  decode_claims payload = elim (unmarshal payload) [
    | none ↦ inl invalid_claims
    | some claims ↦ inr claims
  ]

  -- The tests of a payload and its signature.
  unfoldable pub check_signature : Key → List ℕ → List ℕ → LicenseError ⊎ LicenseClaims
  check_signature key payload sig =
      if verify key (hash payload) sig then decode_claims payload else inl invalid_signature

  unfoldable pub decode_parts :
      Key → Option (List ℕ) → Option (List ℕ) → LicenseError ⊎ LicenseClaims
  decode_parts key none sig = inl invalid_encoding
  decode_parts key (some payload) none = inl invalid_encoding
  decode_parts key (some payload) (some sig) = check_signature key payload sig

  unfoldable pub validate_parts : Key → List (List ℕ) → LicenseError ⊎ LicenseClaims
  validate_parts key (first ∷ second ∷ []) = decode_parts key (decode first) (decode second)
  validate_parts key _ = inl invalid_format

  unfoldable pub validate_with_public_key : Key → List ℕ → LicenseError ⊎ LicenseClaims
  validate_with_public_key key token = validate_parts key (split_dot token)

  -- Validate, which also tests the time.
  unfoldable pub validate : Key → ℕ → List ℕ → LicenseError ⊎ LicenseClaims
  validate key now token = elim (validate_with_public_key key token) [
    | inl error ↦ inl error
    | inr claims ↦ if ltb claims.grace_until now then inl expired else inr claims
  ]

  unfoldable pub decode_unsigned : Option (List ℕ) → LicenseError ⊎ LicenseClaims
  decode_unsigned none = inl invalid_encoding
  decode_unsigned (some payload) = decode_claims payload

  unfoldable pub validate_without_signature : List (List ℕ) → LicenseError ⊎ LicenseClaims
  validate_without_signature (first ∷ second ∷ []) = decode_unsigned (decode first)
  validate_without_signature _ = inl invalid_format

  -- GetLicenseTier.
  unfoldable pub get_license_tier : List ℕ → LicenseError ⊎ String
  get_license_tier token = elim (validate_without_signature (split_dot token)) [
    | inl error ↦ inl error
    | inr claims ↦ inr claims.tier
  ]

  -- ParseLicenseID.
  unfoldable pub parse_license_id : List ℕ → LicenseError ⊎ String
  parse_license_id token = elim (validate_without_signature (split_dot token)) [
    | inl error ↦ inl error
    | inr claims ↦ inr claims.license_id
  ]

  -- GetLicenseExpiry.
  unfoldable pub get_license_expiry : List ℕ → LicenseError ⊎ ℕ
  get_license_expiry token = elim (validate_without_signature (split_dot token)) [
    | inl error ↦ inl error
    | inr claims ↦ inr claims.expires_at
  ]

abbrev day : ℕ
day = 86400000000000

-- The claims of GenerateTrialLicense; `id` is the text that fmt writes.
unfoldable pub trial_claims : String → ℕ → LicenseClaims
trial_claims id issued = record {
  tier = "professional";
  org = "Trial";
  seats = 1;
  features =
      "ml_engine" ∷ "api_protection" ∷ "dlp" ∷ "compliance_reports" ∷ "advanced_analytics" ∷ [];
  issued_at = issued;
  expires_at = issued + 30 * day;
  grace_until = issued + 37 * day;
  version = "1.0.0";
  license_id = id;
}

unfoldable pub is_feature_enabled : String → LicenseClaims → Bool
is_feature_enabled feature c = any (λ f. f == feature) c.features
