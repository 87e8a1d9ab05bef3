-- ===== src/Pipeline/Confidence.antt =====
-- ScoreDecision of internal/engine/confidence.go. A confidence before the rounding is a whole number
-- of units of 1/2000: 0.4 of a base in hundredths, 0.3 of a score in hundredths, 0.2 of a weight in
-- hundredths and 0.1 of an evidence quality in steps of 1/200 are whole numbers of such units. The
-- rounding errors of float64 are left out, and so are the bases that RecordFalsePositive makes, which
-- are no hundredths; nothing in the program calls it.
use Prim.Native.String.{len}
use fortress_waf.Base.{
  ℕ, ◌+◌, ◌*◌, ◌/◌, ◌≡◌, ◌≤◌, ◌<◌, min, max, String, ltb, if◌then◌else◌, ◌==◌, text_keys, arith,
  refl, ◌⊎◌, inl, inr, Bool-cases, ltb→lt, ltb_false→le,
}
use fortress_waf.Base.Map.{Map, get_zero}
use fortress_waf.Pipeline.Types.{Decision}

abbrev pub severity_weight : String → ℕ
severity_weight severity =
    if severity == "critical"
    then 100
    else if severity == "high"
    then 85
    else if severity == "medium"
    then 65
    else if severity == "low"
    then 40
    else if severity == "info"
    then 20
    else 50

abbrev pub evidence_quality : ℕ → ℕ
evidence_quality n = if ltb 10 n then min 200 n else 100

abbrev pub clamped : ℕ → ℕ
clamped units = max 200 (min 2000 units)

-- `math.Round(confidence*100) / 100`, in hundredths.
abbrev pub rounded : ℕ → ℕ
rounded units = (units + 10) / 20

rounded_bounds : (units : ℕ) → (10 ≤ rounded (clamped units)) × (rounded (clamped units) ≤ 100)
rounded_bounds units = (omega arith, omega arith)

-- `stability` gives the base confidence of a rule, in hundredths.
unfoldable pub score_decision : Map String ℕ → Decision → Decision
score_decision stability d = if ltb 0 d.confidence_score then d else record d {
  confidence_score = rounded (
      clamped (
        get_zero 85 stability d.rule_id * 8
        + d.score * 6
        + severity_weight d.severity * 4
        + evidence_quality (len d.evidence)));
}

-- The score that is set lies between 0.1 and 1, a score that the inspector has set stays, and nothing
-- else of the decision changes.
pub score_decision_bounds :
    (stability : Map String ℕ) (d : Decision)
    → let d' = score_decision stability d in
      ((0 < d.confidence_score) × (d' ≡ d))
      ⊎ ((d.confidence_score ≡ 0)
          × (10 ≤ d'.confidence_score)
          × (d'.confidence_score ≤ 100)
          × (d' ≡ record d { confidence_score = d'.confidence_score }))
unfolding score_decision
score_decision_bounds stability d = elim (Bool-cases (ltb 0 d.confidence_score)) [
  | inl set ↦ rw set (inl (ltb→lt 0 d.confidence_score set, refl))
  | inr unset ↦
      let units =
        get_zero 85 stability d.rule_id * 8
        + d.score * 6
        + severity_weight d.severity * 4
        + evidence_quality (len d.evidence) in
      let (low, high) = rounded_bounds units in
      rw unset (inr (omega (arith, ltb_false→le 0 d.confidence_score unset), low, high, refl))
]
