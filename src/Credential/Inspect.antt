-- ===== src/Credential/Inspect.antt =====
-- Inspect of internal/engine/credential.go.
use fortress_waf.Base.{ℕ, ◌/◌, String, Option, none, some}
use fortress_waf.Base.Int.{pos}
use fortress_waf.Pipeline.Detection.{Detection}
use fortress_waf.Credential.State.{CredentialProtection, LoginRequest, second}
use fortress_waf.Credential.Login.{detect_credential_stuffing}
use fortress_waf.Credential.Spray.{detect_password_spray, detect_leaked_credential}
use fortress_waf.Credential.BruteForce.{detect_brute_force}
use fortress_waf.Credential.Token.{TokenLibrary, validate_jwt, detect_o_auth_abuse}

-- The first answer of two.
abbrev first_of : Option Detection → Option Detection → Option Detection
first_of (some d) later = some d
first_of none later = later

-- The detector that is called where those before it answer nil.
unfoldable pub and_then :
    CredentialProtection × Option Detection
    → (CredentialProtection → CredentialProtection × Option Detection)
    → CredentialProtection × Option Detection
and_then (c, some dec) next = (c, some dec)
and_then (c, none) next = next c

-- `hash`, `short_hash` and `upper_hash` are the three texts that the code makes of the SHA-256 of a text.
module _ (hash short_hash upper_hash : String → String) (lib : TokenLibrary) where
  unfoldable pub inspect :
      LoginRequest → ℕ → CredentialProtection → CredentialProtection × Option Detection
  inspect ctx now c = and_then (detect_credential_stuffing hash ctx now c) (λ c1.
      and_then (detect_password_spray short_hash ctx now c1) (λ c2.
        and_then (detect_brute_force ctx.real_ip now c2) (λ c3. (
          c3,
          first_of (detect_leaked_credential upper_hash ctx c3)
              (first_of (validate_jwt lib ctx (pos (now / second))) (detect_o_auth_abuse lib ctx)),
        ))))
