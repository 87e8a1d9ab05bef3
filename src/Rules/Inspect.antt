-- ===== src/Rules/Inspect.antt =====
-- Inspect, TestRule and severityToScore of internal/rules/rules.go. A decision's `Evidence`, a text
-- for people, is left out.
use fortress_waf.Base.{
  ℕ, Bool, true, false, String, List, [], ◌∷◌, Option, none, some, if◌then◌else◌, ◌==◌, text_keys,
}
use fortress_waf.Rules.Rule.{Rule}
use fortress_waf.Rules.Library.{Library}
use fortress_waf.Rules.Match.{FieldValue, evaluate_rule}
use fortress_waf.Rules.Registry.{Engine, get_all_rules}

pub record Decision : Type 0 where
  pub rule_id : String
  pub rule_name : String
  pub action : String
  pub severity : String
  pub score : ℕ
  pub matched : Bool

abbrev pub severity_to_score : String → ℕ
severity_to_score severity =
    if severity == "critical"
    then 95
    else if severity == "high"
    then 75
    else if severity == "medium"
    then 50
    else if severity == "low"
    then 25
    else if severity == "info"
    then 5
    else 50

abbrev pub decision_of : {R : Type 0} → Rule R → Bool → Decision
decision_of rule matched = record {
  rule_id = rule.id;
  rule_name = rule.name;
  action = rule.action;
  severity = rule.severity;
  score = severity_to_score rule.severity;
  matched = matched;
}

abbrev pub no_match : Decision
no_match = record {
  rule_id = "";
  rule_name = "";
  action = "allow";
  severity = "";
  score = 0;
  matched = false;
}

module _ (lib : Library) where
  open lib use {Regex}

  -- Whether the loop stops at a rule: it passes over rules that are off or fail, and over matches of
  -- a dry run.
  abbrev pub stops : Bool → FieldValue → Rule Regex → Bool
  stops dry_run f rule =
      if rule.enabled
      then elim (evaluate_rule lib f rule) [
        | none ↦ false
        | some matched ↦ if matched then (if dry_run then false else true) else false
      ]
      else false

  unfoldable pub inspect_rules : Bool → FieldValue → List (Rule Regex) → Decision
  inspect_rules dry_run f [] = no_match
  inspect_rules dry_run f (rule ∷ rules) =
      let rest = inspect_rules dry_run f rules in
      if stops dry_run f rule then decision_of rule true else rest

  unfoldable pub inspect : FieldValue → Engine Regex → Decision
  unfolding inspect_rules
  inspect f e = inspect_rules e.dry_run f (get_all_rules e)

  -- TestRule; `none` is the error.
  unfoldable pub test_rule : Rule Regex → FieldValue → Option Decision
  test_rule rule f = elim (evaluate_rule lib f rule) [
    | none ↦ none
    | some matched ↦ some (decision_of rule matched)
  ]
