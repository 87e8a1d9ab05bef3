-- ===== src/Behavioral/Tests.antt =====
-- Runs of the model of internal/engine/behavioral.go on a few requests.
use fortress_waf.Base.{
  ℕ, ◌≡◌, refl, Bool, true, false, String, List, [], ◌∷◌, some, arith, text_keys, agrees_false→ne,
}
use fortress_waf.Base.Int.{negsuc}
use fortress_waf.Base.Fault.{ok, panic}
use fortress_waf.Pipeline.Types.{Action}
use fortress_waf.Pipeline.Detection.{detection}
use fortress_waf.Behavioral.Burst.{inspect_all, answer_of, inspect_all-burst}
use fortress_waf.Behavioral.Entropy.{is_uneven}
use fortress_waf.Behavioral.Inspect.{BehavioralEngine, inspect, new_behavioral_engine}
use fortress_waf.Behavioral.Ban.{
  Event, apply_all, reported, incremented, cleaned, inspect-apply_all,
}

abbrev start : BehavioralEngine
start = new_behavioral_engine false true false false 50 60 100

abbrev no_parts : String → List (List ℕ)
no_parts path = []

abbrev never : List ℕ → Bool
never part = false

-- A good record later, and a cleanup much later.
abbrev later : List Event
later = incremented "10.0.0.1" (negsuc 99) ∷ cleaned 100000000000000 (λ ip. false) ∷ []

inspect-apply_all_example :
    inspect no_parts never "10.0.0.1" "/" 7 (apply_all (reported "10.0.0.1" ∷ later) start)
    ≡ ok (
      apply_all (reported "10.0.0.1" ∷ later) start,
      some (detection Action.block "BEH_010" "Known Bad IP" "critical" 90),
    )
unfolding new_behavioral_engine
inspect-apply_all_example =
    inspect-apply_all no_parts never "10.0.0.1" "/" 7 (reported "10.0.0.1") later start
      (agrees_false→ne "10.0.0.1" "" refl) (refl, refl, refl) refl (tt, (tt, tt))

-- An engine that tests the velocity, at a limit of one request in a second.
abbrev strict : BehavioralEngine
strict = new_behavioral_engine false false true false 50 1 1

-- Ten requests in one nanosecond.
abbrev ten : List ℕ
ten = 1 ∷ 1 ∷ 1 ∷ 1 ∷ 1 ∷ 1 ∷ 1 ∷ 1 ∷ 1 ∷ 1 ∷ []

inspect_all-burst_example :
    (e : BehavioralEngine) × (inspect_all no_parts never "10.0.0.1" "/" ten strict ≡ ok e)
    × (answer_of no_parts never (inspect no_parts never "10.0.0.1" "/" 2 e) ≡ panic)
unfolding new_behavioral_engine
inspect_all-burst_example =
    inspect_all-burst no_parts never "10.0.0.1" "/" 2 2 ten strict
      (agrees_false→ne "10.0.0.1" "" refl) refl refl refl
      (
        (omega arith, omega arith),
        (
          (omega arith, omega arith),
          (
            (omega arith, omega arith),
            (
              (omega arith, omega arith),
              (
                (omega arith, omega arith),
                (
                  (omega arith, omega arith),
                  (
                    (omega arith, omega arith),
                    (
                      (omega arith, omega arith),
                      ((omega arith, omega arith), ((omega arith, omega arith), tt)),
                    ),
                  ),
                ),
              ),
            ),
          ),
        ),
      )
      (omega arith) (omega arith) (omega arith)

-- "abcdefghi", whose runes all differ, and "aaaaaaaaa".
uneven_part_test : is_uneven (97 ∷ 98 ∷ 99 ∷ 100 ∷ 101 ∷ 102 ∷ 103 ∷ 104 ∷ 105 ∷ []) ≡ true
unfolding is_uneven
uneven_part_test = refl

even_part_test : is_uneven (97 ∷ 97 ∷ 97 ∷ 97 ∷ 97 ∷ 97 ∷ 97 ∷ 97 ∷ 97 ∷ []) ≡ false
unfolding is_uneven
even_part_test = refl
