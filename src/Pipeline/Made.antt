-- ===== src/Pipeline/Made.antt =====
-- The decisions that the inspectors of internal/engine/engine.go make, described apart from the loop
-- that asks them.
use fortress_waf.Base.{
  ◌+◌, ◌≡◌, refl, Bool, false, String, List, [], ◌∷◌, ◌++◌, Option, none, some, ◌&&◌, not,
  if◌then◌else◌, Bool-cases, inl, inr, ltb, ◌==◌, text_keys,
}
use fortress_waf.Pipeline.Types.{Decision, Context, failed, nothing, decided, Inspector, is_block}
use fortress_waf.Pipeline.Confidence.{score_decision}
use fortress_waf.Pipeline.Engine.{Engine, complete, note, enrich_explainability}

-- `done` is the inspector's decision `d` under the inspector's name: the rule, the action and the
-- score are those of `d`.
pub record IsFrom (name : String) (d done : Decision) : Type 0 where
  pub action : done.action ≡ d.action
  pub score : done.score ≡ d.score
  pub rule_id : done.rule_id ≡ d.rule_id
  pub inspector_name : done.inspector_name ≡ name

module _ {Q : Type 0} where
  -- What the next inspector meets: the decision follows the earlier ones and its score is added; one
  -- that blocks marks a known attack and leaves its score as the bot score.
  abbrev pub noted : Decision → Context Q → Context Q
  noted d c = record {
    rest = c.rest;
    bot_score = if is_block d.action then d.score else c.bot_score;
    threat_score = c.threat_score + d.score;
    decisions = c.decisions ++ d ∷ [];
    is_known_attack = if is_block d.action then Bool.true else c.is_known_attack;
  }

  -- The decisions that the inspectors make, asked one after the other from a context on. An inspector
  -- that is nil is not asked, one that fails or decides nothing adds no decision, and one that
  -- decides adds its decision. A decision that blocks ends it, but not in shadow mode.
  pub data Made (shadow : Bool)
      : List (Option (Inspector Q)) → Context Q → List Decision → Type 0 where
    none_left : (c : Context Q) → Made shadow [] c []
    not_asked :
        (rest : List (Option (Inspector Q))) (c : Context Q) (added : List Decision)
        → Made shadow rest c added
        → Made shadow (none ∷ rest) c added
    has_failed :
        (i : Inspector Q) (rest : List (Option (Inspector Q))) (c c' : Context Q)
        (added : List Decision)
        → i.inspect c ≡ (c', failed)
        → Made shadow rest c' added
        → Made shadow (some i ∷ rest) c added
    has_nothing :
        (i : Inspector Q) (rest : List (Option (Inspector Q))) (c c' : Context Q)
        (added : List Decision)
        → i.inspect c ≡ (c', nothing)
        → Made shadow rest c' added
        → Made shadow (some i ∷ rest) c added
    goes_on_with :
        (i : Inspector Q) (rest : List (Option (Inspector Q))) (c c' : Context Q)
        (d done : Decision) (added : List Decision)
        → i.inspect c ≡ (c', decided d)
        → IsFrom i.name d done
        → (is_block d.action && not shadow) ≡ false
        → Made shadow rest (noted done c') added
        → Made shadow (some i ∷ rest) c (done ∷ added)
    ends_it :
        (i : Inspector Q) (rest : List (Option (Inspector Q))) (c c' : Context Q)
        (d done : Decision)
        → i.inspect c ≡ (c', decided d)
        → IsFrom i.name d done
        → (is_block d.action && not shadow) ≡ Bool.true
        → Made shadow (some i ∷ rest) c (done ∷ [])

  pub note-noted : (d : Decision) (c : Context Q) → note d c ≡ noted d c
  unfolding note
  note-noted d c = elim (Bool-cases (is_block d.action)) [
    | inl blocks ↦ rw blocks refl
    | inr other ↦ rw other refl
  ]

  -- What one inspector's decision is in the loop.
  pub complete-IsFrom :
      (e : Engine Q) (name : String) (d : Decision) → IsFrom name d (complete e name d)
  unfolding complete score_decision enrich_explainability
  complete-IsFrom e name d = elim (Bool-cases (ltb 0 d.confidence_score)) [
    | inl scored ↦ elim (Bool-cases (d.explainability == "")) [
      | inl bare ↦
          rw (scored, bare)
            (record { action = refl; score = refl; rule_id = refl; inspector_name = refl })
      | inr told ↦
          rw (scored, told)
            (record { action = refl; score = refl; rule_id = refl; inspector_name = refl })
    ]
    | inr unscored ↦ elim (Bool-cases (d.explainability == "")) [
      | inl bare ↦
          rw (unscored, bare)
            (record { action = refl; score = refl; rule_id = refl; inspector_name = refl })
      | inr told ↦
          rw (unscored, told)
            (record { action = refl; score = refl; rule_id = refl; inspector_name = refl })
    ]
  ]
