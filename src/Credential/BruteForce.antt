-- ===== src/Credential/BruteForce.antt =====
-- detectBruteForce of internal/engine/credential.go.
pub mod Spacing
use fortress_waf.Base.{ℕ, suc, ◌+◌, ◌*◌, String, Option, none, some, ltb, if◌then◌else◌, text_keys}
use fortress_waf.Base.Map.{put}
use fortress_waf.Pipeline.Types.{Action}
use fortress_waf.Pipeline.Detection.{Detection, detection}
use fortress_waf.Credential.State.{BruteForceTracker, CredentialProtection, second}

abbrev pub backoff_of : ℕ → ℕ
backoff_of attempts =
    if ltb 20 attempts
    then 1800 * second
    else if ltb 10 attempts
    then 300 * second
    else if ltb 5 attempts
    then 30 * second
    else second

-- What a request of a known address does to its tracker, and the answer.
unfoldable pub retry : ℕ → BruteForceTracker → BruteForceTracker × Option Detection
retry now tracker =
    let attempts = suc tracker.attempts in
    if ltb now tracker.next_try
    then (
      record tracker { attempts = attempts },
      some (detection Action.block "CRED006" "Brute Force Blocked" "high" 80),
    )
    else (
      record tracker {
        attempts = attempts;
        backoff = backoff_of attempts;
        next_try = now + backoff_of attempts;
      },
      none,
    )

-- The tracker of the first request.
abbrev pub first_try : ℕ → BruteForceTracker
first_try now = record { attempts = 1; backoff = second; next_try = now; first_seen = now }

unfoldable pub detect_brute_force :
    String → ℕ → CredentialProtection → CredentialProtection × Option Detection
detect_brute_force ip now c = elim (c.brute_force ip) [
  | none ↦ (record c { brute_force = put ip (first_try now) c.brute_force }, none)
  | some tracker ↦
      let (tracker', answer) = retry now tracker in
      (record c { brute_force = put ip tracker' c.brute_force }, answer)
]
