-- ===== src/Audit/Tests.antt =====
-- The audit log of internal/compliance/audit.go at concrete inputs, with formats that stand in for the
-- hash and for fmt.
use fortress_waf.Base.{◌≡◌, refl, false, [], ◌∷◌, none}
use fortress_waf.Audit.Log.{AuditEntry, AuditLog, Formats, new_audit_log, verify_integrity}
use fortress_waf.Audit.Chain.{
  append_all, verify_integrity-append_all, verify_integrity-map, append_all-new_audit_log,
}

abbrev formats : Formats
formats = record { sha256_hex = (λ text. text); show_number = (λ n. "n"); show_time = (λ t. "t") }

abbrev login : AuditEntry
login = record {
  id = "";
  timestamp = 0;
  actor_id = "alice";
  actor_type = "user";
  actor_ip = "10.0.0.1";
  action = "login";
  resource = "console";
  resource_id = "1";
  result = "success";
  metadata = "";
  hash = "";
  prev_hash = "";
}

abbrev appended : AuditLog
appended =
    append_all formats ((5, login) ∷ (6, login) ∷ [])
      (record { entries = []; last_hash = ""; immutable = false })

verify_integrity-append_all_test : verify_integrity appended ≡ none
verify_integrity-append_all_test =
    verify_integrity-append_all formats ((5, login) ∷ (6, login) ∷ []) false

abbrev blamed : AuditEntry → AuditEntry
blamed e = record e { actor_id = "bob" }

abbrev forged : AuditLog
forged = record { entries = blamed login ∷ []; last_hash = ""; immutable = false }

verify_integrity-map_test :
    verify_integrity forged ≡ verify_integrity (record forged { entries = login ∷ [] })
verify_integrity-map_test =
    verify_integrity-map blamed (record forged { entries = login ∷ [] }) (λ e. refl) (λ e. refl)

append_all-new_audit_log_test : append_all formats ((5, login) ∷ []) new_audit_log ≡ new_audit_log
append_all-new_audit_log_test = append_all-new_audit_log formats ((5, login) ∷ [])
