-- ===== src/Credential/Spray.antt =====
-- detectPasswordSpray and detectLeakedCredential of internal/engine/credential.go.
pub mod Silence
use fortress_waf.Base.{
  ℕ, suc, Bool, true, false, String, List, [], ◌∷◌, Option, none, some, ◌&&◌, leb, length,
  if◌then◌else◌, text_keys,
}
use fortress_waf.Base.Map.{put, get_zero}
use fortress_waf.Pipeline.Types.{Action}
use fortress_waf.Pipeline.Detection.{Detection, detection}
use fortress_waf.Credential.State.{CredentialProtection, LoginRequest, SprayTracker, passwords}

-- The answer by the tracker of a password.
unfoldable pub judge_spray : SprayTracker → Option Detection
judge_spray tracker =
    let unique_usernames = length tracker.usernames in
    if leb 10 unique_usernames && leb 50 tracker.count
    then some (detection Action.block "CRED004" "Password Spray Attack" "critical" 90)
    else if leb 20 tracker.count && leb 5 unique_usernames
    then some (detection Action.rate_limit "CRED005" "Potential Password Spray" "high" 65)
    else none

unfoldable pub count_spray :
    String → ℕ → CredentialProtection → CredentialProtection × Option Detection
count_spray pass_hash now c = elim (c.password_spray pass_hash) [
  | none ↦ (
    record c {
      password_spray =
          put pass_hash (record { usernames = []; count = 1; last_seen = now }) c.password_spray;
    },
    none,
  )
  | some tracker ↦
      let counted : SprayTracker = record tracker { count = suc tracker.count; last_seen = now } in
      (record c { password_spray = put pass_hash counted c.password_spray }, judge_spray counted)
]

-- `hash` is the first 16 digits of the SHA-256 of a password.
unfoldable pub detect_password_spray :
    (String → String)
    → LoginRequest
    → ℕ
    → CredentialProtection
    → CredentialProtection × Option Detection
detect_password_spray hash ctx now c = elim (passwords ctx) [
  | [] ↦ (c, none)
  | p ∷ ps ↦ count_spray (hash p) now c
]

-- `hash` is the SHA-256 of a password in capital digits.
unfoldable pub detect_leaked_credential :
    (String → String) → LoginRequest → CredentialProtection → Option Detection
detect_leaked_credential hash ctx c = elim (passwords ctx) [
  | [] ↦ none
  | p ∷ ps ↦
      if c.hibp_enabled && get_zero false c.leaked_creds (hash p)
      then some (detection Action.block "CRED007" "Leaked Credential" "critical" 95)
      else none
]
