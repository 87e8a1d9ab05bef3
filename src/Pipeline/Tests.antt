-- ===== src/Pipeline/Tests.antt =====
-- The pipeline of internal/engine/engine.go at concrete inputs: a few inspectors with fixed answers.
use fortress_waf.Base.{
  ◌≡◌, ◌≤◌, ◌<◌, ◌⊎◌, refl, Bool, false, String, [], ◌∷◌, Option, none, some, All,
}
use fortress_waf.Base.Map.{empty}
use fortress_waf.Pipeline.Types.{Action, Decision, Context, Outcome, failed, decided, Inspector}
use fortress_waf.Pipeline.Confidence.{score_decision, score_decision_bounds}
use fortress_waf.Pipeline.Engine.{
  Engine, verdict, inspect, inspect_each, update_inspector, conclude, complete, note,
  enrich_explainability,
}
use fortress_waf.Pipeline.Verdict.{
  IsQuiet, Answers, Concludes, inspect_each-Concludes, inspect-Answers,
}
use fortress_waf.Pipeline.Made.{Made}
use fortress_waf.Pipeline.Replace.{inspect-update_inspector, inspect-update_inspector-absent}

abbrev answering : String → Outcome → Option (Inspector Unit)
answering name outcome = some (record { name = name; inspect = (λ ctx. (ctx, outcome)) })

abbrev monitors : Option (Inspector Unit)
monitors = answering "bot_detector" (decided (verdict Action.monitor 30 "odd"))

abbrev blocks : Option (Inspector Unit)
blocks = answering "sqli" (decided (verdict Action.block 95 "union select"))

abbrev fails : Option (Inspector Unit)
fails = answering "rce" failed

abbrev engine : Bool → Engine Unit
engine shadow = record {
  inspectors = none ∷ monitors ∷ fails ∷ blocks ∷ [];
  named = empty;
  shadow_mode = shadow;
  stability = empty;
}

abbrev request : Context Unit
request = record {
  rest = tt;
  bot_score = 0;
  threat_score = 0;
  decisions = [];
  is_known_attack = false;
}

engine-IsQuiet : (shadow : Bool) → All IsQuiet (engine shadow).inspectors
engine-IsQuiet shadow =
    (tt, ((λ ctx. (refl, refl)), ((λ ctx. (refl, refl)), ((λ ctx. (refl, refl)), tt))))

inspect-blocks_test : (inspect (engine false) request).1.action ≡ Action.block
unfolding inspect inspect_each conclude complete note score_decision enrich_explainability
inspect-blocks_test = refl

inspect_each-Concludes_example :
    Concludes false
      (monitors ∷ blocks ∷ [])
      request
      (inspect_each (engine false) (monitors ∷ blocks ∷ []) request)
inspect_each-Concludes_example =
    inspect_each-Concludes (engine false) (monitors ∷ blocks ∷ []) request
      ((λ ctx. (refl, refl)), ((λ ctx. (refl, refl)), tt))

inspect-Answers_example :
    Answers false (engine false).inspectors request (inspect (engine false) request)
inspect-Answers_example = inspect-Answers (engine false) request (engine-IsQuiet false)

inspect-update_inspector-absent_test :
    inspect (update_inspector "bot" fails (engine false)) request ≡ inspect (engine false) request
inspect-update_inspector-absent_test =
    inspect-update_inspector-absent "bot" fails (engine false) request refl

inspect-update_inspector_test :
    inspect (update_inspector "sqli" fails (engine false)) request
    ≡ inspect_each (engine false) (none ∷ monitors ∷ fails ∷ fails ∷ []) request
inspect-update_inspector_test =
    inspect-update_inspector "sqli" fails blocks (none ∷ monitors ∷ fails ∷ []) [] (engine false)
      request refl refl refl

abbrev flagged : Decision
flagged = verdict Action.challenge 60 "odd"

score_decision_bounds_test :
    ((0 < flagged.confidence_score) × (score_decision empty flagged ≡ flagged))
    ⊎ ((flagged.confidence_score ≡ 0)
        × (10 ≤ (score_decision empty flagged).confidence_score)
        × ((score_decision empty flagged).confidence_score ≤ 100)
        × (score_decision empty flagged ≡ record flagged {
          confidence_score = (score_decision empty flagged).confidence_score;
        }))
score_decision_bounds_test = score_decision_bounds empty flagged
