-- ===== src/Pipeline/Stability.antt =====
-- The records of internal/engine/confidence.go: how the base confidence of a rule follows what is confirmed of its
-- decisions. A floating-point number is a fraction, without the rounding errors.
pub mod Bounds
mod Tests
use fortress_waf.Base.{
  ℕ, ◌+◌, ◌-◌, ◌*◌, Bool, String, Option, none, some, ltb, nat_beq, ◌&&◌, if◌then◌else◌, text_keys,
}
use fortress_waf.Base.Map.{Map, put}

pub record Fraction : Type 0 where
  pub num : ℕ
  pub den : ℕ

abbrev pub fraction : ℕ → ℕ → Fraction
fraction n d = record { num = n; den = d }

pub record RuleConfidence : Type 0 where
  pub total_decisions : ℕ
  pub confirmed_bad : ℕ
  pub false_positives : ℕ
  pub base_confidence : Fraction
  pub last_updated : ℕ

abbrev pub Scorer : Type 0
Scorer = Map String RuleConfidence

-- The record of a rule, which is made where there is none.
abbrev pub get_or_create : ℕ → Option RuleConfidence → RuleConfidence
get_or_create now (some rc) = rc
get_or_create now none = record {
  total_decisions = 0;
  confirmed_bad = 0;
  false_positives = 0;
  base_confidence = fraction 85 100;
  last_updated = now;
}

-- `math.Min(0.99, b)` and `b + 0.01`
unfoldable pub at_most_99 : Fraction → Fraction
at_most_99 b = if ltb (99 * b.den) (100 * b.num) then fraction 99 100 else b

abbrev pub raised : Fraction → Fraction
raised b = fraction (100 * b.num + b.den) (100 * b.den)

unfoldable pub confirm : ℕ → RuleConfidence → RuleConfidence
confirm now rc = record rc {
  total_decisions = rc.total_decisions + 1;
  confirmed_bad = rc.confirmed_bad + 1;
  last_updated = now;
  base_confidence = at_most_99 (raised rc.base_confidence);
}

unfoldable pub record_true_positive : ℕ → String → Scorer → Scorer
record_true_positive now id cs = put id (confirm now (get_or_create now (cs id))) cs

-- `math.Max(0.5, b - wrong/total*0.2)`; the difference may be negative.
unfoldable pub lowered : ℕ → ℕ → Fraction → Fraction
lowered wrong total b =
    if ltb (2 * (b.num * (5 * total))) (b.den * (5 * total) + 2 * (b.den * wrong))
    then fraction 1 2
    else fraction (b.num * (5 * total) - b.den * wrong) (b.den * (5 * total))

unfoldable pub refute : ℕ → RuleConfidence → RuleConfidence
refute now rc = record rc {
  total_decisions = rc.total_decisions + 1;
  false_positives = rc.false_positives + 1;
  last_updated = now;
  base_confidence = lowered (rc.false_positives + 1) (rc.total_decisions + 1) rc.base_confidence;
}

unfoldable pub record_false_positive : ℕ → String → Scorer → Scorer
record_false_positive now id cs = put id (refute now (get_or_create now (cs id))) cs

unfoldable pub get_confidence : String → Scorer → Fraction
get_confidence id cs = elim (cs id) [
  | none ↦ fraction 85 100
  | some rc ↦
      if ltb 0 rc.total_decisions
      then fraction ((rc.base_confidence).num * rc.confirmed_bad)
          ((rc.base_confidence).den * rc.total_decisions)
      else rc.base_confidence
]

abbrev day : ℕ
day = 86400 * 1000000000

abbrev pub keep_rule : ℕ → Option RuleConfidence → Option RuleConfidence
keep_rule now none = none
keep_rule now (some rc) =
    if ltb (rc.last_updated + day) now && nat_beq rc.total_decisions 0 then none else some rc

-- A tick of the cleanup.
unfoldable pub cleanup : ℕ → Scorer → Scorer
cleanup now cs = λ id. keep_rule now (cs id)
