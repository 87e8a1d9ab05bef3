-- ===== src/Pipeline/Replace.antt =====
-- UpdateInspector of internal/engine/engine.go, as the following requests see it.
use fortress_waf.Base.{
  ◌≡◌, refl, ap, ◌∙◌, fun_ext, true, false, String, List, [], ◌∷◌, ◌++◌, Option, none, some, any,
  arith,
}
use fortress_waf.Pipeline.Types.{Outcome, failed, nothing, decided, Context, Decision, Inspector}
use fortress_waf.Pipeline.Engine.{
  Engine, inspect, inspect_each, conclude, complete, replace_first, has_name, update_inspector,
}

module _ {Q : Type 0} where
  replace_first-absent :
      (name : String) (new : Option (Inspector Q)) (inspectors : List (Option (Inspector Q)))
      → any (has_name name) inspectors ≡ false
      → replace_first name new inspectors ≡ inspectors
  unfolding replace_first
  replace_first-absent name new [] h = refl
  replace_first-absent name new (i ∷ rest) h = ground (arith, h, replace_first-absent name new rest)

  replace_first-split :
      (name : String) (new old : Option (Inspector Q)) (before rest : List (Option (Inspector Q)))
      → any (has_name name) before ≡ false
      → has_name name old ≡ true
      → replace_first name new (before ++ old ∷ rest) ≡ before ++ new ∷ rest
  unfolding replace_first
  replace_first-split name new old [] rest h is_old = rw is_old refl
  replace_first-split name new old (i ∷ before) rest h is_old =
      ground (arith, h, replace_first-split name new old before rest)

  conclude-update_inspector :
      (name : String) (new : Option (Inspector Q)) (e : Engine Q)
      (next : Context Q → Context Q × Decision) (n : String) (p : Context Q × Outcome)
      → conclude (update_inspector name new e) next n p ≡ conclude e next n p
  unfolding conclude complete update_inspector
  conclude-update_inspector name new e next n (c, failed) = refl
  conclude-update_inspector name new e next n (c, nothing) = refl
  conclude-update_inspector name new e next n (c, decided d) = refl

  inspect_each-update_inspector :
      (name : String) (new : Option (Inspector Q)) (e : Engine Q)
      (inspectors : List (Option (Inspector Q))) (ctx : Context Q)
      → inspect_each (update_inspector name new e) inspectors ctx ≡ inspect_each e inspectors ctx
  unfolding inspect_each
  inspect_each-update_inspector name new e [] ctx = refl
  inspect_each-update_inspector name new e (none ∷ rest) ctx =
      inspect_each-update_inspector name new e rest ctx
  inspect_each-update_inspector name new e (some i ∷ rest) ctx =
      conclude-update_inspector name new e (λ c. inspect_each (update_inspector name new e) rest c)
        i.name (i.inspect ctx)
      ∙ ap (λ next. conclude e next i.name (i.inspect ctx))
          (fun_ext (λ c. inspect_each-update_inspector name new e rest c))

  -- UpdateInspector under a name that no inspector of the pipeline has leaves every answer and every
  -- context as it was, whatever the new inspector is.
  pub inspect-update_inspector-absent :
      (name : String) (new : Option (Inspector Q)) (e : Engine Q) (ctx : Context Q)
      → any (has_name name) e.inspectors ≡ false
      → inspect (update_inspector name new e) ctx ≡ inspect e ctx
  unfolding inspect update_inspector
  inspect-update_inspector-absent name new e ctx h =
      inspect_each-update_inspector name new e (replace_first name new e.inspectors) ctx
      ∙ ap (λ l. inspect_each e l ctx) (replace_first-absent name new e.inspectors h)

  -- UpdateInspector under the name of an inspector of the pipeline puts the new inspector in the place
  -- of the first one of that name: the answers are those of the pipeline with this one exchanged.
  pub inspect-update_inspector :
      (name : String) (new old : Option (Inspector Q)) (before rest : List (Option (Inspector Q)))
      (e : Engine Q) (ctx : Context Q)
      → e.inspectors ≡ before ++ old ∷ rest
      → any (has_name name) before ≡ false
      → has_name name old ≡ true
      → inspect (update_inspector name new e) ctx ≡ inspect_each e (before ++ new ∷ rest) ctx
  unfolding inspect update_inspector
  inspect-update_inspector name new old before rest e ctx split first is_old =
      inspect_each-update_inspector name new e (replace_first name new e.inspectors) ctx
      ∙ ap (λ l. inspect_each e l ctx)
          (ap (replace_first name new) split
            ∙ replace_first-split name new old before rest first is_old)
