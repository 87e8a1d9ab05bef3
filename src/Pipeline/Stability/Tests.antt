-- ===== src/Pipeline/Stability/Tests.antt =====
-- A run of the model of the records of internal/engine/confidence.go.
use fortress_waf.Base.{◌≡◌, refl, List, [], ◌∷◌}
use fortress_waf.Pipeline.Stability.{
  RuleConfidence, fraction, record_true_positive, record_false_positive, confirm, refute,
  at_most_99, lowered, get_confidence, cleanup,
}
use fortress_waf.Pipeline.Stability.Bounds.{
  Event, confirms, refutes, IsSound, after_events, after_events-IsSound, cleanup-after_events,
}

-- One decision is confirmed, and then one found false: 0.86 less 0.1 is 0.76.
abbrev events : List Event
events = refutes 2 "r1" ∷ confirms 1 "r1" ∷ []

abbrev reached : RuleConfidence
reached = record {
  total_decisions = 2;
  confirmed_bad = 1;
  false_positives = 1;
  base_confidence = fraction 76000 100000;
  last_updated = 2;
}

after_events-IsSound_example : IsSound reached
unfolding record_true_positive record_false_positive confirm refute at_most_99 lowered
after_events-IsSound_example = after_events-IsSound events "r1" reached refl

get_confidence_test : get_confidence "r1" (after_events events) ≡ fraction 76000 200000
unfolding get_confidence record_true_positive record_false_positive confirm refute at_most_99
    lowered
get_confidence_test = refl

cleanup-after_events_test :
    cleanup 100000000000000 (after_events events) "r1" ≡ after_events events "r1"
cleanup-after_events_test = cleanup-after_events events 100000000000000 "r1"
