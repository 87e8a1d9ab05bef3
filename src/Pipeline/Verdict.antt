-- ===== src/Pipeline/Verdict.antt =====
-- What Inspect of internal/engine/engine.go answers.
use fortress_waf.Base.{
  ℕ, ◌+◌, ◌≡◌, refl, ◌∙◌, sym, ap, append_assoc, append_nil, All, Bool, true, false, List, [], ◌∷◌,
  ◌++◌, Option, none, some, ◌⊎◌, inl, inr, ◌&&◌, ◌||◌, not, any, leb, if◌then◌else◌, Bool-cases,
  arith,
}
use fortress_waf.Pipeline.Types.{
  Action, Decision, Context, Outcome, failed, nothing, decided, Inspector, is_block, is_rate_limit,
}
use fortress_waf.Pipeline.Made.{Made, IsFrom, noted, note-noted, complete-IsFrom}
use fortress_waf.Pipeline.Engine.{Engine, final_decision, complete, conclude, inspect_each, inspect}

abbrev pub total_score : List Decision → ℕ
total_score [] = 0
total_score (d ∷ ds) = d.score + total_score ds

abbrev pub some_block : List Decision → Bool
some_block ds = any (λ d. is_block d.action) ds

abbrev pub some_rate_limit : List Decision → Bool
some_rate_limit ds = any (λ d. is_rate_limit d.action) ds

module _ {Q : Type 0} where
  -- An inspector that leaves the threat score and the decisions to the engine.
  abbrev pub IsQuiet : Option (Inspector Q) → Type 0
  IsQuiet none = Unit
  IsQuiet (some inspector) =
      (ctx : Context Q)
      → ((inspector.inspect ctx).0.threat_score ≡ ctx.threat_score)
        × ((inspector.inspect ctx).0.decisions ≡ ctx.decisions)

  -- The loop ran to its end on the decisions `added`.
  abbrev pub RanThrough : Bool → List Decision → Context Q × Decision → Type 0
  RanThrough shadow added (ctx', d) =
      ((some_block added && not shadow) ≡ false) × (d ≡ final_decision ctx')

  -- The loop stopped at the last one of the decisions `added`, the only one that blocks.
  abbrev pub StoppedEarly : Bool → List Decision → Context Q × Decision → Type 0
  StoppedEarly shadow added (ctx', d) =
      (before : List Decision) × (added ≡ before ++ d ∷ [])
      × (some_block before ≡ false)
      × (is_block d.action ≡ true)
      × (shadow ≡ false)

  abbrev pub Concludes :
      Bool → List (Option (Inspector Q)) → Context Q → Context Q × Decision → Type 0
  Concludes shadow inspectors ctx r =
      (added : List Decision) × Made shadow inspectors ctx added
      × (r.0.decisions ≡ ctx.decisions ++ added)
      × (r.0.threat_score ≡ ctx.threat_score + total_score added)
      × (RanThrough shadow added r ⊎ StoppedEarly shadow added r)

  Concludes-carry :
      (shadow : Bool) (rest all : List (Option (Inspector Q))) (c ctx : Context Q)
      (r : Context Q × Decision)
      → ((added : List Decision) → Made shadow rest c added → Made shadow all ctx added)
      → (c.threat_score ≡ ctx.threat_score)
      → (c.decisions ≡ ctx.decisions)
      → Concludes shadow rest c r
      → Concludes shadow all ctx r
  Concludes-carry shadow rest all c ctx r asks score decisions (added, made, more, sum, h) = (
    added,
    asks added made,
    more ∙ ap (λ ds. ds ++ added) decisions,
    sum ∙ ap (λ n. n + total_score added) score,
    h,
  )

  -- A decision that does not stop the loop goes before those that follow.
  Concludes-cons :
      (shadow : Bool) (rest all : List (Option (Inspector Q))) (ctx c : Context Q) (d : Decision)
      (r : Context Q × Decision)
      → ((added : List Decision) → Made shadow rest c added → Made shadow all ctx (d ∷ added))
      → (c.threat_score ≡ ctx.threat_score + d.score)
      → (c.decisions ≡ ctx.decisions ++ d ∷ [])
      → ((is_block d.action && not shadow) ≡ false)
      → Concludes shadow rest c r
      → Concludes shadow all ctx r
  Concludes-cons shadow rest all ctx c d r asks score decisions go_on
        (added, made, more, sum, inl (alone, same)) =
      (
        d ∷ added,
        asks added made,
        more ∙ ap (λ ds. ds ++ added) decisions ∙ append_assoc ctx.decisions (d ∷ []) added,
        omega (arith, score, sum),
        inl (ground (arith, go_on, alone), same),
      )
  Concludes-cons shadow rest all ctx c d r asks score decisions go_on
        (added, made, more, sum, inr (before, split, quiet, blocks, loud)) =
      (
        d ∷ added,
        asks added made,
        more ∙ ap (λ ds. ds ++ added) decisions ∙ append_assoc ctx.decisions (d ∷ []) added,
        omega (arith, score, sum),
        inr (d ∷ before, ap (λ ds. d ∷ ds) split, ground (arith, go_on, quiet, loud), blocks, loud),
      )

  Concludes-stop :
      (shadow : Bool) (all : List (Option (Inspector Q))) (ctx c : Context Q) (d : Decision)
      → Made shadow all ctx (d ∷ [])
      → (c.threat_score ≡ ctx.threat_score + d.score)
      → (c.decisions ≡ ctx.decisions ++ d ∷ [])
      → ((is_block d.action && not shadow) ≡ true)
      → Concludes shadow all ctx (c, d)
  Concludes-stop shadow all ctx c d made score decisions stop = (
    d ∷ [],
    made,
    decisions,
    omega (arith, score),
    inr ([], refl, refl, ground (arith, stop), ground (arith, stop)),
  )

  conclude-Concludes :
      (e : Engine Q) (next : Context Q → Context Q × Decision) (i : Inspector Q)
      (rest : List (Option (Inspector Q))) (ctx : Context Q) (p : Context Q × Outcome)
      → i.inspect ctx ≡ p
      → ((c : Context Q) → Concludes e.shadow_mode rest c (next c))
      → (p.0.threat_score ≡ ctx.threat_score)
      → (p.0.decisions ≡ ctx.decisions)
      → Concludes e.shadow_mode (some i ∷ rest) ctx (conclude e next i.name p)
  unfolding conclude
  conclude-Concludes e next i rest ctx (c, failed) asked k score decisions =
      Concludes-carry e.shadow_mode rest (some i ∷ rest) c ctx (next c)
        (λ added made. Made.has_failed i rest ctx c added asked made) score decisions (k c)
  conclude-Concludes e next i rest ctx (c, nothing) asked k score decisions =
      Concludes-carry e.shadow_mode rest (some i ∷ rest) c ctx (next c)
        (λ added made. Made.has_nothing i rest ctx c added asked made) score decisions (k c)
  conclude-Concludes e next i rest ctx (c, decided d) asked k score decisions =
      let done = complete e i.name d in
      let from : IsFrom i.name d done = complete-IsFrom e i.name d in
      let score' : (noted done c).threat_score ≡ ctx.threat_score + done.score =
        ap (λ n. n + done.score) score in
      let decisions' : (noted done c).decisions ≡ ctx.decisions ++ done ∷ [] =
        ap (λ ds. ds ++ done ∷ []) decisions in
      elim (Bool-cases (is_block done.action && not e.shadow_mode)) [
        | inl stop ↦
            rw (note-noted done c, stop)
              (Concludes-stop e.shadow_mode (some i ∷ rest) ctx (noted done c) done
                (Made.ends_it i rest ctx c d done asked from (rw (sym from.action) stop)) score'
                decisions' stop)
        | inr go_on ↦
            rw (note-noted done c, go_on)
              (Concludes-cons e.shadow_mode rest (some i ∷ rest) ctx (noted done c) done
                (next (noted done c))
                (λ added made.
                  Made.goes_on_with i rest ctx c d done added asked from
                    (rw (sym from.action) go_on) made)
                score' decisions' go_on (k (noted done c)))
      ]

  -- With inspectors that leave the threat score and the decisions to the engine, the decisions that
  -- they make (each inspector's own action and score, asked one after the other up to the first that blocks outside shadow mode)
  -- follow those of the context and their scores are added to its threat score; and either
  -- no decision blocks outside shadow mode and the answer is the final decision on the context that is
  -- left, or, outside shadow mode, the answer is the first decision that blocks, and the inspectors
  -- after it add none.
  pub inspect_each-Concludes :
      (e : Engine Q) (inspectors : List (Option (Inspector Q))) (ctx : Context Q)
      → All IsQuiet inspectors
      → Concludes e.shadow_mode inspectors ctx (inspect_each e inspectors ctx)
  unfolding inspect_each
  inspect_each-Concludes e [] ctx h =
      ([], Made.none_left ctx, sym (append_nil ctx.decisions), omega arith, inl (refl, refl))
  inspect_each-Concludes e (none ∷ rest) ctx (h, hs) =
      Concludes-carry e.shadow_mode rest (none ∷ rest) ctx ctx (inspect_each e rest ctx)
        (λ added made. Made.not_asked rest ctx added made) refl refl
        (inspect_each-Concludes e rest ctx hs)
  inspect_each-Concludes e (some i ∷ rest) ctx (h, hs) =
      conclude-Concludes e (λ c. inspect_each e rest c) i rest ctx (i.inspect ctx) refl
        (λ c. inspect_each-Concludes e rest c hs) (h ctx).0 (h ctx).1

-- The action, from whether a decision has stopped the inspection, the threat score, and
-- whether a decision asks for a rate limit.
abbrev pub expected_action : Bool → ℕ → Bool → Action
expected_action stopped score limited =
    if stopped || leb 90 score
    then Action.block
    else if leb 50 score
    then Action.challenge
    else if limited
    then Action.rate_limit
    else Action.allow

is_block→≡ : (a : Action) → is_block a ≡ true → a ≡ Action.block
is_block→≡ Action.block h = refl
is_block→≡ Action.allow h = ground (arith, h)
is_block→≡ Action.challenge h = ground (arith, h)
is_block→≡ Action.monitor h = ground (arith, h)
is_block→≡ Action.rate_limit h = ground (arith, h)

some_block-append :
    (ds : List Decision) (d : Decision)
    → is_block d.action ≡ true
    → some_block (ds ++ d ∷ []) ≡ true
some_block-append [] d h = rw h refl
some_block-append (x ∷ ds) d h = ground (arith, some_block-append ds d h)

module _ {Q : Type 0} where
  final_decision-action :
      (ctx : Context Q)
      → (final_decision ctx).action
        ≡ expected_action false ctx.threat_score (some_rate_limit ctx.decisions)
  unfolding final_decision
  final_decision-action ctx = ground arith

  abbrev pub Answers :
      Bool → List (Option (Inspector Q)) → Context Q → Context Q × Decision → Type 0
  Answers shadow inspectors ctx (ctx', d) =
      (added : List Decision) × Made shadow inspectors ctx added
      × (ctx'.decisions ≡ ctx.decisions ++ added)
      × (ctx'.threat_score ≡ ctx.threat_score + total_score added)
      × (d.action
          ≡ expected_action (some_block added && not shadow) (ctx.threat_score + total_score added)
              (some_rate_limit (ctx.decisions ++ added)))

  Concludes-Answers :
      (shadow : Bool) (inspectors : List (Option (Inspector Q))) (ctx : Context Q)
      (r : Context Q × Decision)
      → Concludes shadow inspectors ctx r
      → Answers shadow inspectors ctx r
  Concludes-Answers shadow inspectors ctx (c, d) (added, made, more, sum, inl (alone, same)) =
      (added, made, more, sum, rw (alone, sym sum, sym more, same) (final_decision-action c))
  Concludes-Answers shadow inspectors ctx (c, d)
        (added, made, more, sum, inr (before, split, quiet, blocks, loud)) =
      let stops : (some_block added && not shadow) ≡ true =
        rw (split, some_block-append before d blocks, loud) refl in
      (added, made, more, sum, rw stops (is_block→≡ d.action blocks))

  -- With inspectors that leave the threat score and the decisions to the engine, the decisions that
  -- they make (each inspector's own action and score, asked one after the other up to the first that blocks outside shadow mode)
  -- follow those of the context, their scores are added to its threat score, and the action
  -- is: block, if one of them blocks outside shadow mode or the sum is 90 or more; else challenge, if
  -- the sum is 50 or more; else rate limit, if a decision says so; else allow.
  pub inspect-Answers :
      (e : Engine Q) (ctx : Context Q)
      → All IsQuiet e.inspectors
      → Answers e.shadow_mode e.inspectors ctx (inspect e ctx)
  unfolding inspect
  inspect-Answers e ctx h =
      Concludes-Answers e.shadow_mode e.inspectors ctx (inspect_each e e.inspectors ctx)
        (inspect_each-Concludes e e.inspectors ctx h)
