-- ===== src/Pipeline/Types.antt =====
-- The decisions, the request context and the inspectors of internal/engine/engine.go.
use fortress_waf.Base.{ℕ, Bool, String, List}

pub data Action : Type 0 where
  block allow challenge monitor rate_limit : Action

pub record Decision : Type 0 where
  pub action : Action
  pub rule_id : String
  pub rule_name : String
  pub severity : String
  pub score : ℕ
  pub evidence : String
  pub blocked : Bool
  pub confidence_score : ℕ
  pub explainability : String
  pub inspector_name : String

-- `rest` is the part of RequestContext that the pipeline only hands to the inspectors, together with
-- what the inspectors remember from one request to the next.
pub record Context (Q : Type 0) : Type 0 where
  pub rest : Q
  pub bot_score : ℕ
  pub threat_score : ℕ
  pub decisions : List Decision
  pub is_known_attack : Bool

-- The pair of a decision, which may be nil, and an error.
pub data Outcome : Type 0 where
  failed : Outcome
  nothing : Outcome
  decided : Decision → Outcome

pub record Inspector (Q : Type 0) : Type 0 where
  pub name : String
  pub inspect : Context Q → Context Q × Outcome

abbrev pub is_block : Action → Bool
is_block Action.block = Bool.true
is_block _ = Bool.false

abbrev pub is_rate_limit : Action → Bool
is_rate_limit Action.rate_limit = Bool.true
is_rate_limit _ = Bool.false
