-- ===== src/Pipeline/Detection.antt =====
-- The decisions of the detectors: the fields of Decision of internal/engine/engine.go that a detector
-- sets, but for the evidence, a text that fmt writes.
use fortress_waf.Base.{ℕ, String}
use fortress_waf.Pipeline.Types.{Action}

pub record Detection : Type 0 where
  pub action : Action
  pub rule_id : String
  pub rule_name : String
  pub severity : String
  pub score : ℕ

abbrev pub detection : Action → String → String → String → ℕ → Detection
detection action rule_id rule_name severity score = record {
  action = action;
  rule_id = rule_id;
  rule_name = rule_name;
  severity = severity;
  score = score;
}

-- `&Decision{Action: ActionAllow}`
abbrev pub allowing : Detection
allowing = detection Action.allow "" "" "" 0
