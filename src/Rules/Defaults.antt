-- ===== src/Rules/Defaults.antt =====
-- DefaultRules of internal/rules/rules.go.
use fortress_waf.Base.{◌≡◌, ◌⊎◌, inl, inr, refl, true, false, List, [], ◌∷◌, none, some, All}
use fortress_waf.Base.Int.{pos}
use fortress_waf.Rules.Rule.{Rule}
use fortress_waf.Rules.Library.{Library}
use fortress_waf.Rules.Match.{FieldValue, evaluate_rule}
use fortress_waf.Rules.Priority.{evaluate_rule_no_dot}

module _ {R : Type 0} where
  abbrev pub default_rules : List (Rule R)
  default_rules =
      record {
        id = "PLATFORM001";
        name = "Block Common Attack Tools";
        description = "";
        enabled = true;
        severity = "high";
        action = "block";
        phase = "request";
        priority = pos 1;
        field = "user_agent";
        operator = "regex";
        value =
            "(?i)(?:sqlmap|nikto|nmap|masscan|gobuster|dirbuster|wpscan|burpsuite|zap|acunetix|netsparker)";
        transform = [];
        tags = "automation" ∷ "scanner" ∷ [];
        compiled_re = none;
      }
      ∷ record {
        id = "PLATFORM002";
        name = "Block Path Traversal";
        description = "";
        enabled = true;
        severity = "critical";
        action = "block";
        phase = "request";
        priority = pos 2;
        field = "path";
        operator = "regex";
        value = "(?i)(?:/\\.\\.|\\.\\./|\\.\\.\\\\|/etc/passwd|/windows/win\\.ini)";
        transform = [];
        tags = "lfi" ∷ "path-traversal" ∷ [];
        compiled_re = none;
      }
      ∷ record {
        id = "PLATFORM003";
        name = "Block Private IP Ranges";
        description = "";
        enabled = true;
        severity = "high";
        action = "block";
        phase = "request";
        priority = pos 3;
        field = "headers.X-Forwarded-For";
        operator = "regex";
        value = "(?i)(?:^127\\.|^10\\.|^172\\.(?:1[6-9]|2[0-9]|3[01])\\.|^192\\.168\\.)";
        transform = [];
        tags = "spoofing" ∷ "security" ∷ [];
        compiled_re = none;
      }
      ∷ record {
        id = "PLATFORM004";
        name = "Block Suspicious Methods";
        description = "";
        enabled = true;
        severity = "high";
        action = "block";
        phase = "request";
        priority = pos 4;
        field = "method";
        operator = "in";
        value = "CONNECT,TRACE,TRACK,PUT,DELETE,PATCH";
        transform = [];
        tags = "method" ∷ "restriction" ∷ [];
        compiled_re = none;
      }
      ∷ []

module _ (lib : Library) where
  open lib use {split_dot}

  -- Where `strings.SplitN` finds no dot in "user_agent", "path" and "method", no default rule but
  -- PLATFORM003 matches any request: the fields of the others are read as empty.
  pub evaluate_rule-default_rules :
      (f : FieldValue)
      → split_dot "user_agent" ≡ none
      → split_dot "path" ≡ none
      → split_dot "method" ≡ none
      → All (λ r. (r.id ≡ "PLATFORM003") ⊎ (evaluate_rule lib f r ≡ some false)) default_rules
  evaluate_rule-default_rules f agent path method = (
    inr (evaluate_rule_no_dot lib f _ agent),
    (
      inr (evaluate_rule_no_dot lib f _ path),
      (inl refl, (inr (evaluate_rule_no_dot lib f _ method), tt)),
    ),
  )
