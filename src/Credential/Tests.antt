-- ===== src/Credential/Tests.antt =====
-- Runs of the model of internal/engine/credential.go on a few requests.
use fortress_waf.Base.{
  ℕ, ◌*◌, ◌≡◌, refl, true, String, List, [], ◌∷◌, none, some, arith, text_keys, ◌==◌,
}
use fortress_waf.Base.Int.{pos}
use fortress_waf.Base.Map.{empty, put}
use fortress_waf.Pipeline.Types.{Action}
use fortress_waf.Pipeline.Detection.{detection}
use fortress_waf.Credential.State.{
  BruteForceTracker, CredentialProtection, LoginRequest, new_credential_protection, second,
}
use fortress_waf.Credential.Login.{count_attempt}
use fortress_waf.Credential.Login.Lockout.{count_attempts, count_attempt-count_attempts}
use fortress_waf.Credential.Spray.{detect_password_spray}
use fortress_waf.Credential.Spray.Silence.{sprays, detect_password_spray-sprays}
use fortress_waf.Credential.BruteForce.Spacing.{IsSpaced, let_through, let_through-IsSpaced}
use fortress_waf.Credential.Token.{TokenLibrary, check_parts, check_token, validate_jwt}

-- The protection with a limit of one attempt and locks of an hour.
abbrev protection : CredentialProtection
protection = new_credential_protection (pos 1) (pos 0)

-- The fourth attempt of a name in a few nanoseconds.
count_attempt-count_attempts_test :
    (count_attempt "h" 40 (count_attempts "h" (10 ∷ 20 ∷ 30 ∷ []) protection)).1
    ≡ some (detection Action.block "CRED002" "Credential Stuffing Detected" "critical" 90)
unfolding new_credential_protection
count_attempt-count_attempts_test =
    count_attempt-count_attempts "h" 10 40 (20 ∷ 30 ∷ []) protection (omega arith) refl
      ((omega arith, omega arith), ((omega arith, omega arith), tt)) (omega arith, omega arith)

abbrev form : String → String → LoginRequest
form user password = record {
  real_ip = "10.0.0.1";
  method = "POST";
  form_params = put "username" (user ∷ []) (put "password" (password ∷ []) empty);
  query_params = empty;
  headers = empty;
}

abbrev as_is : String → String
as_is s = s

detect_password_spray-sprays_example :
    (detect_password_spray as_is
      (form "carol" "secret")
      30
      (sprays as_is ((10, form "alice" "secret") ∷ (20, form "bob" "secret") ∷ []) protection)).1
    ≡ none
unfolding new_credential_protection
detect_password_spray-sprays_example =
    detect_password_spray-sprays as_is
      ((10, form "alice" "secret") ∷ (20, form "bob" "secret") ∷ []) (form "carol" "secret") 30
      protection (λ h. refl)

-- An address that has sent twenty requests.
abbrev tracker : BruteForceTracker
tracker = record { attempts = 20; backoff = 300 * second; next_try = 5; first_seen = 0 }

abbrev frequent : CredentialProtection
frequent = record protection { brute_force = put "10.0.0.1" tracker empty }

abbrev three_requests : List (String × ℕ)
three_requests = ("10.0.0.1", 10) ∷ ("10.0.0.2", 11) ∷ ("10.0.0.1", 12) ∷ []

let_through-IsSpaced_example :
    IsSpaced (1800 * second) 5 (let_through "10.0.0.1" three_requests frequent)
unfolding new_credential_protection
let_through-IsSpaced_example =
    let_through-IsSpaced "10.0.0.1" three_requests frequent tracker refl (omega arith)

abbrev library : TokenLibrary
library = record {
  to_upper = as_is;
  to_lower = as_is;
  has_prefix = λ s p. true;
  equal_fold = λ s t. s == t;
  split_dot = λ s. "head" ∷ "body" ∷ "seal" ∷ [];
  count_dots = λ s. 2;
  decode_string = some;
  algorithm = λ s. some "none";
  expiry = λ s. none;
}

unsigned_token_test :
    validate_jwt library
      (record (form "alice" "secret") {
        headers = put "Authorization" "BEARER head.body.seal" empty;
      })
      (pos 0)
    ≡ some (detection Action.block "CRED010" "JWT alg:none Attack" "critical" 95)
unfolding validate_jwt check_token check_parts
unsigned_token_test = refl
