-- ===== src/Credential/State.antt =====
-- The state of internal/engine/credential.go. A time is a number of nanoseconds; all the readings of the
-- clock of one request give the same time.
use fortress_waf.Base.{ℕ, ◌*◌, Bool, false, String, List, [], ◌∷◌, if◌then◌else◌}
use fortress_waf.Base.Int.{ℤ, pos, ltb_ℤ, pos_part}
use fortress_waf.Base.Map.{Map, empty, get_zero}

pub record LoginTracker : Type 0 where
  pub attempts : ℕ
  pub first_seen : ℕ
  pub last_seen : ℕ
  pub locked : Bool
  pub lockout_at : ℕ

-- The names that a spray tracker has seen are the keys of its map.
pub record SprayTracker : Type 0 where
  pub usernames : List (String × ℕ)
  pub count : ℕ
  pub last_seen : ℕ

pub record BruteForceTracker : Type 0 where
  pub attempts : ℕ
  pub backoff : ℕ
  pub next_try : ℕ
  pub first_seen : ℕ

pub record CredentialProtection : Type 0 where
  pub login_attempts : Map String LoginTracker
  pub password_spray : Map String SprayTracker
  pub brute_force : Map String BruteForceTracker
  pub leaked_creds : Map String Bool
  pub hibp_enabled : Bool
  pub lockout_duration : ℕ
  pub max_attempts : ℕ

-- The part of a RequestContext that the detectors read.
pub record LoginRequest : Type 0 where
  pub real_ip : String
  pub method : String
  pub form_params : Map String (List String)
  pub query_params : Map String (List String)
  pub headers : Map String String

abbrev pub second : ℕ
second = 1000000000

-- An argument that is not positive is replaced.
abbrev positive_or : ℕ → ℤ → ℕ
positive_or fallback n = if ltb_ℤ (pos 0) n then pos_part n else fallback

unfoldable pub new_credential_protection : ℤ → ℤ → CredentialProtection
new_credential_protection max_attempts block_duration_sec = record {
  login_attempts = empty;
  password_spray = empty;
  brute_force = empty;
  leaked_creds = empty;
  hibp_enabled = false;
  lockout_duration = positive_or 3600 block_duration_sec * second;
  max_attempts = positive_or 5 max_attempts;
}

-- The value of a parameter that the code reads as `m[k]`, which is empty where it is missing.
abbrev pub values : Map String (List String) → String → List String
values params name = get_zero [] params name

-- The password of the form, or else of the query.
abbrev pub passwords : LoginRequest → List String
passwords ctx = elim (values ctx.form_params "password") [
  | [] ↦ values ctx.query_params "password"
  | p ∷ ps ↦ p ∷ ps
]
