-- ===== src/Credential/Login.antt =====
-- detectCredentialStuffing of internal/engine/credential.go.
pub mod Lockout
use fortress_waf.Base.{
  ℕ, suc, ◌+◌, ◌*◌, Bool, true, false, String, List, [], ◌∷◌, Option, none, some, not, ltb,
  if◌then◌else◌, ◌==◌, text_keys,
}
use fortress_waf.Base.Map.{put}
use fortress_waf.Pipeline.Types.{Action}
use fortress_waf.Pipeline.Detection.{Detection, detection}
use fortress_waf.Credential.State.{CredentialProtection, LoginRequest, LoginTracker, values}

abbrev both : List String → List String → Option String
both [] passwords = none
both (u ∷ us) [] = none
both (u ∷ us) (p ∷ ps) = some u

-- The name under which a POST request logs in, from the form or else from the query.
unfoldable pub login_name : LoginRequest → Option String
login_name ctx =
    if not (ctx.method == "POST")
    then none
    else elim (both (values ctx.form_params "username") (values ctx.form_params "password")) [
      | some u ↦ some u
      | none ↦ both (values ctx.query_params "username") (values ctx.query_params "password")
    ]

-- What an attempt does to the tracker of the name, and the answer.
unfoldable pub attempt : ℕ → ℕ → ℕ → LoginTracker → LoginTracker × Option Detection
attempt max_attempts lockout_duration now tracker =
    let counted : LoginTracker = record tracker {
      attempts = suc tracker.attempts;
      last_seen = now;
    } in
    if tracker.locked
    then (if ltb now (tracker.lockout_at + lockout_duration)
        then (counted, some (detection Action.block "CRED001" "Account Locked" "high" 80))
        else (record counted { locked = false; attempts = 0 }, none))
    else if ltb (max_attempts * 3) counted.attempts
    then (
      record counted { locked = true; lockout_at = now },
      some (detection Action.block "CRED002" "Credential Stuffing Detected" "critical" 90),
    )
    else if ltb max_attempts counted.attempts
    then (
      counted,
      some (detection Action.rate_limit "CRED003" "Excessive Login Attempts" "medium" 50),
    )
    else (counted, none)

abbrev pub first_attempt : ℕ → LoginTracker
first_attempt now = record {
  attempts = 1;
  first_seen = now;
  last_seen = now;
  locked = false;
  lockout_at = 0;
}

-- The attempt under a name, whose hash is the key of the tracker.
unfoldable pub count_attempt :
    String → ℕ → CredentialProtection → CredentialProtection × Option Detection
count_attempt user_hash now c = elim (c.login_attempts user_hash) [
  | none ↦ (record c { login_attempts = put user_hash (first_attempt now) c.login_attempts }, none)
  | some tracker ↦
      let (tracker', answer) = attempt c.max_attempts c.lockout_duration now tracker in
      (record c { login_attempts = put user_hash tracker' c.login_attempts }, answer)
]

-- `hash` is the text of the SHA-256 of a name.
unfoldable pub detect_credential_stuffing :
    (String → String)
    → LoginRequest
    → ℕ
    → CredentialProtection
    → CredentialProtection × Option Detection
detect_credential_stuffing hash ctx now c = elim (login_name ctx) [
  | none ↦ (c, none)
  | some name ↦ count_attempt (hash name) now c
]
