-- ===== src/Credential/Token.antt =====
-- validateJWT and detectOAuthAbuse of internal/engine/credential.go.
use Prim.Native.String.{len, slice}
use fortress_waf.Base.{
  ℕ, Bool, String, List, [], ◌∷◌, Option, none, some, not, ◌&&◌, ltb, nat_beq, if◌then◌else◌, ◌==◌,
  text_keys,
}
use fortress_waf.Base.Int.{ℤ, pos, ltb_ℤ}
use fortress_waf.Base.Map.{get_zero}
use fortress_waf.Pipeline.Types.{Action}
use fortress_waf.Pipeline.Detection.{Detection, detection}
use fortress_waf.Credential.State.{LoginRequest, values}

-- The functions of strings, base64 and json that the tests call. `algorithm` and `expiry` read the fields alg
-- and exp of a JSON text, and answer none where the text is no such object.
pub record TokenLibrary : Type 0 where
  pub to_upper : String → String
  pub to_lower : String → String
  pub has_prefix : String → String → Bool
  pub equal_fold : String → String → Bool
  pub split_dot : String → List String
  pub count_dots : String → ℕ
  pub decode_string : String → Option String
  pub algorithm : String → Option String
  pub expiry : String → Option ℤ

module _ (lib : TokenLibrary) where
  open lib use {
    to_upper, to_lower, has_prefix, equal_fold, split_dot, count_dots, decode_string, algorithm,
    expiry,
  }

  -- `authHeader[7:]`
  abbrev after_bearer : String → String
  after_bearer header = slice header 7 (len header)

  -- The test of the second part of a token. `now` is in seconds.
  unfoldable pub check_payload : String → ℤ → Option Detection
  check_payload part now = elim (decode_string part) [
    | none ↦ none
    | some payload ↦ elim (expiry payload) [
      | none ↦ none
      | some exp ↦
          if ltb_ℤ (pos 0) exp && ltb_ℤ exp now
          then some (detection Action.block "CRED013" "Expired JWT" "medium" 40)
          else none
    ]
  ]

  -- The tests of the first part, and then of the second.
  unfoldable pub check_parts : String → String → ℤ → Option Detection
  check_parts first second now = elim (decode_string first) [
    | none ↦ some (detection Action.block "CRED009" "Invalid JWT Header Encoding" "high" 65)
    | some header ↦ elim (algorithm header) [
      | none ↦ none
      | some alg ↦
          if equal_fold alg "none"
          then some (detection Action.block "CRED010" "JWT alg:none Attack" "critical" 95)
          else check_payload second now
    ]
  ]

  unfoldable pub check_token : List String → ℤ → Option Detection
  check_token (first ∷ second ∷ third ∷ []) now = check_parts first second now
  check_token _ now = some (detection Action.block "CRED008" "Malformed JWT" "high" 70)

  unfoldable pub validate_jwt : LoginRequest → ℤ → Option Detection
  validate_jwt ctx now =
      let auth_header = get_zero "" ctx.headers "Authorization" in
      if auth_header == ""
      then none
      else if not (has_prefix (to_upper auth_header) "BEARER ")
      then none
      else check_token (split_dot (after_bearer auth_header)) now

  unfoldable pub check_state : List String → Option Detection
  check_state [] = none
  check_state (s ∷ _) =
      if ltb 2048 (len s)
      then some (detection Action.block "CRED013" "OAuth State Overflow" "medium" 40)
      else none

  unfoldable pub detect_o_auth_abuse : LoginRequest → Option Detection
  detect_o_auth_abuse ctx =
      let auth_header = get_zero "" ctx.headers "Authorization" in
      if has_prefix (to_lower auth_header) "bearer "
        && nat_beq (count_dots (after_bearer auth_header)) 2
      then none
      else check_state (values ctx.query_params "state")
