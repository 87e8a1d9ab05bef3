-- ===== src/Tokens/Signature/Sound.antt =====
-- When verifySignature of internal/engine/auth.go accepts a signature by a key.
use fortress_waf.Base.{
  ℕ, ◌≡◌, true, String, List, some, inl, inr, ◌||◌, ◌==◌, text_keys, Bool-cases,
}
use fortress_waf.Base.Bytes.{big_endian_from}
use fortress_waf.Tokens.Types.{
  Jwk, Curve, TokenLibrary, ok, bind-ok, require-ok, or_fail-ok, fail-ne-ok,
}
use fortress_waf.Tokens.Signature.{
  decode_segment, verify_with, verify_rsa_signature, verify_ec_signature, exponent, is_rsa, is_ec,
  curve,
}

-- A key of the server, its fields decoded, signs the text.
pub data KeySigns (lib : TokenLibrary) (alg : String) (signed_text : String) (sig : List ℕ)
    (key : Jwk) : Type 0 where
  by_rsa :
      (n_bytes e_bytes : List ℕ)
      → is_rsa alg ≡ true
      → decode_segment lib key.n ≡ some n_bytes
      → decode_segment lib key.e ≡ some e_bytes
      → lib.verify_pkcs1v15
          (big_endian_from 0 n_bytes)
          (exponent e_bytes)
          (lib.hash_sha256 signed_text)
          sig
        ≡ true
      → KeySigns lib alg signed_text sig key
  by_ec :
      (x_bytes y_bytes : List ℕ) (c : Curve)
      → is_ec alg ≡ true
      → decode_segment lib key.x ≡ some x_bytes
      → decode_segment lib key.y ≡ some y_bytes
      → curve key.crv ≡ some c
      → lib.verify_asn1 c (big_endian_from 0 x_bytes) (big_endian_from 0 y_bytes) signed_text sig
        ≡ true
      → KeySigns lib alg signed_text sig key

module _ (lib : TokenLibrary) where
  rsa-KeySigns :
      (alg signed_text : String) (sig : List ℕ) (key : Jwk)
      → is_rsa alg ≡ true
      → verify_rsa_signature lib signed_text sig key ≡ ok tt
      → KeySigns lib alg signed_text sig key
  unfolding verify_rsa_signature
  rsa-KeySigns alg signed_text sig key rsa h = elim (Bool-cases (key.n == "" || key.e == "")) [
    | inl missing ↦ absurd (fail-ne-ok (rw (verify_rsa_signature, missing) at h))
    | inr complete ↦
        let checked = rw (verify_rsa_signature, complete) at h in
        let (n_bytes, is_n, h1) = bind-ok _ _ tt checked in
        let (e_bytes, is_e, h2) = bind-ok _ _ tt h1 in
        by_rsa n_bytes e_bytes rsa (or_fail-ok _ _ n_bytes is_n) (or_fail-ok _ _ e_bytes is_e)
          (require-ok _ _ tt h2)
  ]

  ec-KeySigns :
      (alg signed_text : String) (sig : List ℕ) (key : Jwk)
      → is_ec alg ≡ true
      → verify_ec_signature lib signed_text sig key ≡ ok tt
      → KeySigns lib alg signed_text sig key
  unfolding verify_ec_signature
  ec-KeySigns alg signed_text sig key ec h =
      elim (Bool-cases ((key.crv == "" || key.x == "") || key.y == "")) [
        | inl missing ↦ absurd (fail-ne-ok (rw (verify_ec_signature, missing) at h))
        | inr complete ↦
            let checked = rw (verify_ec_signature, complete) at h in
            let (x_bytes, is_x, h1) = bind-ok _ _ tt checked in
            let (y_bytes, is_y, h2) = bind-ok _ _ tt h1 in
            let (c, is_curve, h3) = bind-ok _ _ tt h2 in
            by_ec x_bytes y_bytes c ec (or_fail-ok _ _ x_bytes is_x) (or_fail-ok _ _ y_bytes is_y)
              (or_fail-ok _ _ c is_curve) (require-ok _ _ tt h3)
      ]

  pub verify_with-KeySigns :
      (alg signed_text : String) (sig : List ℕ) (key : Jwk)
      → verify_with lib alg signed_text sig key ≡ ok tt
      → KeySigns lib alg signed_text sig key
  unfolding verify_with
  verify_with-KeySigns alg signed_text sig key h = elim (Bool-cases (is_rsa alg)) [
    | inl rsa ↦ rsa-KeySigns alg signed_text sig key rsa (rw (verify_with, rsa) at h)
    | inr other ↦ elim (Bool-cases (is_ec alg)) [
      | inl ec ↦ ec-KeySigns alg signed_text sig key ec (rw (verify_with, other, ec) at h)
      | inr neither ↦ absurd (fail-ne-ok (rw (verify_with, other, neither) at h))
    ]
  ]
