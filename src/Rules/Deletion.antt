-- ===== src/Rules/Deletion.antt =====
-- DeleteRule.
use fortress_waf.Base.{
  ℕ, ◌≡◌, ◌≢◌, refl, not, String, List, Option, none, some, filter, ◌⊎◌, ◌==◌, text_keys,
  number_keys, arith, Option-cases, inl, inr, agrees_self,
}
use fortress_waf.Rules.Rule.{Rule}
use fortress_waf.Rules.Registry.{Engine, Pointer, not_found, get_all_rules, get_rule, delete_rule}

module _ {R : Type 0} (compile : String → Option R) (sort : List (Rule R) → List (Rule R))
    (grow : ℕ → ℕ) where
  -- DeleteRule of an id that is not indexed reports that and changes nothing. Else it reports
  -- success, removes every rule with the id from the table and keeps the others in their order, and
  -- GetRule then finds nothing under the id.
  pub delete_rule-get_all_rules :
      (id : String) (e : Engine R)
      → ((e.by_id id ≡ none) × (delete_rule compile sort grow id e ≡ (e, some not_found)))
        ⊎ (((delete_rule compile sort grow id e).1 ≡ none)
            × (get_all_rules (delete_rule compile sort grow id e).0
                ≡ filter (λ r. not (r.id == id)) (get_all_rules e))
            × (get_rule id (delete_rule compile sort grow id e).0 ≡ none))
  unfolding delete_rule get_rule
  delete_rule-get_all_rules id e = elim (Option-cases (e.by_id id)) [
    | inl missing ↦ inl (missing, rw (missing, delete_rule) refl)
    | inr (p, present) ↦
        inr (rw (present, delete_rule) (refl, ground arith, ground (arith, agrees_self id)))
  ]

  -- Deleting one rule leaves what GetRule finds under every other id, as long as no pointer names
  -- the array that the new table takes.
  pub get_rule-delete_rule_ne :
      (id other : String) (e : Engine R)
      → id ≢ other
      → ((p : Pointer) → e.by_id other ≡ some p → p.array ≢ e.fresh)
      → get_rule other (delete_rule compile sort grow id e).0 ≡ get_rule other e
  unfolding delete_rule get_rule
  get_rule-delete_rule_ne id other e ne old = elim (Option-cases (e.by_id other)) [
    | inl missing ↦ ground (arith, text_keys.agrees_iff id other)
    | inr (p, present) ↦ ground (arith, text_keys.agrees_iff id other, old p present)
  ]
