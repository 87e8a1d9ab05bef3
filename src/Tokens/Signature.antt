-- ===== src/Tokens/Signature.antt =====
-- verifySignature, verifyRSASignature, verifyECSignature and computeHMAC of internal/engine/auth.go.
pub mod Sound
use fortress_waf.Base.{
  ℕ, zero, suc, ◌+◌, ◌-◌, ◌*◌, ◌^◌, Bool, String, List, [], ◌∷◌, Option, none, some, ltb, leb,
  length, ◌||◌, if◌then◌else◌, ◌==◌, text_keys,
}
use fortress_waf.Base.Bytes.{big_endian_from, take}
use fortress_waf.Base.Int.{ℤ, pos, signed}
use fortress_waf.Tokens.Types.{
  Jwk, Curve, p256, p384, p521, Digest, sha256, sha384, sha512, TokenLibrary, Result, ok, fail,
  ◌>>=◌, or_fail, require, bad_key_encoding, bad_signature_encoding, unsupported_algorithm,
  incomplete_key, unsupported_curve, wrong_signature,
}

-- The exponent of an RSA key: of eight bytes and more, the first eight.
unfoldable pub exponent : List ℕ → ℤ
exponent bytes =
    if leb 8 (length bytes)
    then signed (big_endian_from 0 (take 8 bytes))
    else pos (big_endian_from 0 bytes)

abbrev digest : String → Digest
digest alg = if alg == "HS384" then sha384 else if alg == "HS512" then sha512 else sha256

abbrev pub curve : String → Option Curve
curve crv =
    if crv == "P-256"
    then some p256
    else if crv == "P-384"
    then some p384
    else if crv == "P-521"
    then some p521
    else none

abbrev pub is_rsa : String → Bool
is_rsa alg = (alg == "RS256" || alg == "RS384") || alg == "RS512"

abbrev pub is_ec : String → Bool
is_ec alg = (alg == "ES256" || alg == "ES384") || alg == "ES512"

module _ (lib : TokenLibrary) where
  open lib use {
    join_dot, decode_raw_url, decode_std, hmac, hash_sha256, verify_pkcs1v15, verify_asn1,
  }

  unfoldable pub compute_hmac : String → String → String → List ℕ
  compute_hmac secret data_text alg = hmac (digest alg) secret data_text

  -- The encoding of URLs without padding, or else the standard one.
  abbrev pub decode_segment : String → Option (List ℕ)
  decode_segment segment = elim (decode_raw_url segment) [
    | none ↦ decode_std segment
    | some bytes ↦ some bytes
  ]

  -- The test with a complete key.
  abbrev rsa_check : String → List ℕ → Jwk → Result Unit
  rsa_check signed_text sig key = do
    n_bytes ← or_fail bad_key_encoding (decode_segment key.n)
    e_bytes ← or_fail bad_key_encoding (decode_segment key.e)
    require
        (verify_pkcs1v15 (big_endian_from 0 n_bytes) (exponent e_bytes) (hash_sha256 signed_text)
          sig)
        wrong_signature

  unfoldable pub verify_rsa_signature : String → List ℕ → Jwk → Result Unit
  verify_rsa_signature signed_text sig key =
      if key.n == "" || key.e == "" then fail incomplete_key else rsa_check signed_text sig key

  abbrev ec_check : String → List ℕ → Jwk → Result Unit
  ec_check signed_text sig key = do
    x_bytes ← or_fail bad_key_encoding (decode_segment key.x)
    y_bytes ← or_fail bad_key_encoding (decode_segment key.y)
    c ← or_fail unsupported_curve (curve key.crv)
    require (verify_asn1 c (big_endian_from 0 x_bytes) (big_endian_from 0 y_bytes) signed_text sig)
        wrong_signature

  unfoldable pub verify_ec_signature : String → List ℕ → Jwk → Result Unit
  verify_ec_signature signed_text sig key =
      if (key.crv == "" || key.x == "") || key.y == ""
      then fail incomplete_key
      else ec_check signed_text sig key

  -- The switch on the algorithm.
  unfoldable pub verify_with : String → String → List ℕ → Jwk → Result Unit
  verify_with alg signed_text sig key =
      if is_rsa alg
      then verify_rsa_signature signed_text sig key
      else if is_ec alg
      then verify_ec_signature signed_text sig key
      else fail unsupported_algorithm

  -- The three parts of a token, the algorithm, and the key.
  unfoldable pub verify_signature : String → String → String → String → Jwk → Result Unit
  verify_signature first second third alg key =
      or_fail bad_signature_encoding (decode_segment third) >>= λ sig.
      verify_with alg (join_dot first second) sig key
