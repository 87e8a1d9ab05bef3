-- ===== src/Rules/LostUpdate.antt =====
-- UpdateRule of internal/rules/rules.go after AddRule has added another rule.
use fortress_waf.Base.{
  ℕ, suc, ◌≡◌, ◌≢◌, refl, ap, ◌∙◌, false, String, List, [], ◌∷◌, Option, none, some, length,
  text_keys, number_keys, arith, nat_beq,
}
use fortress_waf.Base.Map.{empty}
use fortress_waf.Rules.Rule.{Rule}
use fortress_waf.Rules.Registry.{
  Engine, get_all_rules, load_rules, compile_all, add_rule, update_rule,
}
use fortress_waf.Rules.Aliasing.{last_place, point_at_lem, update_rule-get_all_rules}

module _ {R : Type 0} (compile : String → Option R) (sort : List (Rule R) → List (Rule R))
    (grow : ℕ → ℕ) where
  nat_beq-suc : (n : ℕ) → nat_beq n (suc n) ≡ false
  nat_beq-suc n = ground arith

  length-compile_all : (rs : List (Rule R)) → length (compile_all compile rs) ≡ length rs
  unfolding compile_all
  length-compile_all [] = refl
  length-compile_all (r ∷ rs) = ap suc (length-compile_all rs)

  load_rules_shape :
      (rules : List (Rule R)) (id : String) (k : ℕ) (e : Engine R)
      → length (sort (compile_all compile rules)) ≡ length (compile_all compile rules)
      → last_place 0 id (compile_all compile rules) ≡ some k
      → let e' = load_rules compile sort grow rules e in
        (e'.by_id id ≡ some (record { array = e.fresh; index = k }))
        × (e'.fresh ≡ suc e.fresh)
        × (length (get_all_rules e') ≡ e'.capacity)
  unfolding load_rules
  load_rules_shape rules id k e same_length placed = (
    point_at_lem e.fresh 0 (compile_all compile rules) empty id ∙ rw placed refl,
    refl,
    ground (arith, same_length, length-compile_all rules),
  )

  add_rule_full :
      (r : Rule R) (id : String) (e : Engine R)
      → id ≢ r.id
      → length (get_all_rules e) ≡ e.capacity
      → (add_rule compile sort grow r e).1 ≡ none
      → ((add_rule compile sort grow r e).0.by_id id ≡ e.by_id id)
        × ((add_rule compile sort grow r e).0.slice ≡ e.fresh)
  unfolding add_rule
  add_rule_full r id e ne full done = ground (arith, text_keys.agrees_iff r.id id)

  -- If a rule is loaded with others, the sort keeps their number, and another rule is then added, an
  -- update of the loaded rule reports success and changes no rule of the table: it writes to the array that the table has
  -- left, and sorts the table once more.
  pub update_rule-add_rule-load_rules :
      (rules : List (Rule R)) (r updated : Rule R) (id : String) (k : ℕ) (e : Engine R)
      → length (sort (compile_all compile rules)) ≡ length (compile_all compile rules)
      → last_place 0 id (compile_all compile rules) ≡ some k
      → id ≢ r.id
      → (add_rule compile sort grow r (load_rules compile sort grow rules e)).1 ≡ none
      → let e' = (add_rule compile sort grow r (load_rules compile sort grow rules e)).0 in
        (get_all_rules (update_rule compile sort grow id updated e').0 ≡ sort (get_all_rules e'))
        × ((update_rule compile sort grow id updated e').1 ≡ none)
  update_rule-add_rule-load_rules rules r updated id k e same_length placed ne done =
      let e1 = load_rules compile sort grow rules e in
      let (pointer, next, full) = load_rules_shape rules id k e same_length placed in
      let (kept, moved) = add_rule_full r id e1 ne full done in
      let (table, verdict) =
        update_rule-get_all_rules compile sort grow id updated
          (add_rule compile sort grow r e1).0 in
      let found = kept ∙ pointer in
      let left = moved ∙ next in
      (table ∙ rw (found, left) (rw (nat_beq-suc e.fresh) refl), verdict ∙ rw found refl)
