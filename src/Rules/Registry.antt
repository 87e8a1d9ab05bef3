-- ===== src/Rules/Registry.antt =====
-- The rule table of `Engine` in internal/rules/rules.go, with the arrays that its slice and the
-- pointers of `byID` share.
use fortress_waf.Base.{
  ℕ, suc, Bool, not, ◌||◌, String, List, [], ◌∷◌, ◌++◌, Option, none, some, ltb, if◌then◌else◌,
  length, get_elem?, set, filter, ◌==◌, text_keys, number_keys,
}
use fortress_waf.Base.Int.{ℤ}
use fortress_waf.Base.Map.{Map, empty, put, delete, get_zero}
use fortress_waf.Rules.Rule.{Rule}

-- `&e.rules[i]`: an array and a place in it.
pub record Pointer : Type 0 where
  pub array : ℕ
  pub index : ℕ

-- `arrays` gives the used part of each array, `fresh` is the next unused array, and `slice` and
-- `capacity` are those of `e.rules`.
pub record Engine (R : Type 0) : Type 0 where
  pub arrays : Map ℕ (List (Rule R))
  pub fresh : ℕ
  pub slice : ℕ
  pub capacity : ℕ
  pub by_id : Map String Pointer
  pub dry_run : Bool

pub data Error : Type 0 where
  already_exists invalid_regex not_found : Error

module _ {R : Type 0} where
  abbrev pub cells : ℕ → Engine R → List (Rule R)
  cells a e = get_zero [] e.arrays a

  -- GetAllRules
  abbrev pub get_all_rules : Engine R → List (Rule R)
  get_all_rules e = cells e.slice e

  -- GetEnabledRules
  abbrev pub get_enabled_rules : Engine R → List (Rule R)
  get_enabled_rules e = filter (λ r. r.enabled) (get_all_rules e)

  abbrev pub deref : Pointer → Engine R → Option (Rule R)
  deref p e = get_elem? (cells p.array e) p.index

  -- GetRule
  unfoldable pub get_rule : String → Engine R → Option (Rule R)
  get_rule id e = elim (e.by_id id) [ none ↦ none | some p ↦ deref p e ]

  abbrev pub is_regex : Rule R → Bool
  is_regex r = r.operator == "regex" || r.operator == "regex_match"

  -- `byID[rule.ID] = &e.rules[i]` for the rules from place `i` on.
  unfoldable pub point_at : ℕ → ℕ → List (Rule R) → Map String Pointer → Map String Pointer
  point_at a i [] by_id = by_id
  point_at a i (r ∷ rs) by_id =
      point_at a (suc i) rs (put r.id (record { array = a; index = i }) by_id)

  -- `*p = rule`
  abbrev pub store : Pointer → Rule R → Engine R → Engine R
  store p r e = record e { arrays = put p.array (set (cells p.array e) p.index r) e.arrays }

module _ {R : Type 0} (compile : String → Option R) where
  -- The compiled rule, where the pattern compiles.
  abbrev pub compiled : Rule R → Rule R
  compiled r =
      if is_regex r
      then elim (compile r.value) [ none ↦ r | some re ↦ record r { compiled_re = some re } ]
      else r

  -- The rules that the loop of LoadRules stores.
  unfoldable pub compile_all : List (Rule R) → List (Rule R)
  compile_all [] = []
  compile_all (r ∷ rs) = compiled r ∷ compile_all rs

module _ {R : Type 0} (compile : String → Option R) (sort : List (Rule R) → List (Rule R))
    (grow : ℕ → ℕ) where
  -- sortRules sorts in place: the pointers keep their places.
  unfoldable pub sort_rules : Engine R → Engine R
  sort_rules e = record e { arrays = put e.slice (sort (cells e.slice e)) e.arrays }

  -- LoadRules and, since it moves a new engine's table over, AtomicSwap.
  unfoldable pub load_rules : List (Rule R) → Engine R → Engine R
  unfolding compile_all sort_rules point_at
  load_rules rules e =
      let stored = compile_all compile rules in
      sort_rules (record e {
        arrays = put e.fresh stored e.arrays;
        fresh = suc e.fresh;
        slice = e.fresh;
        capacity = length rules;
        by_id = point_at e.fresh 0 stored empty;
      })

  -- `append(e.rules, rule)`: in place where there is room, else in a new array with the capacity
  -- that the run-time picks. The pointers are not moved.
  unfoldable pub append_rule : Rule R → Engine R → Engine R
  append_rule r e =
      let old = get_all_rules e in
      if ltb (length old) e.capacity
      then record e { arrays = put e.slice (old ++ r ∷ []) e.arrays }
      else record e {
        arrays = put e.fresh (old ++ r ∷ []) e.arrays;
        fresh = suc e.fresh;
        slice = e.fresh;
        capacity = grow (suc (length old));
      }

  unfoldable pub insert_rule : Rule R → Engine R → Engine R
  unfolding append_rule sort_rules
  insert_rule r e =
      let e' = append_rule r e in
      sort_rules (record e' {
        by_id = put r.id (record { array = e'.slice; index = length (get_all_rules e) }) e'.by_id;
      })

  -- AddRule
  unfoldable pub add_rule : Rule R → Engine R → Engine R × Option Error
  unfolding insert_rule
  add_rule r e = elim (e.by_id r.id) [
    | some _ ↦ (e, some already_exists)
    | none ↦
        if is_regex r
        then elim (compile r.value) [
          | none ↦ (e, some invalid_regex)
          | some re ↦ (insert_rule (record r { compiled_re = some re }) e, none)
        ]
        else (insert_rule r e, none)
  ]

  -- UpdateRule
  unfoldable pub update_rule : String → Rule R → Engine R → Engine R × Option Error
  unfolding sort_rules
  update_rule id updated e = elim (e.by_id id) [
    | none ↦ (e, some not_found)
    | some p ↦ (sort_rules (store p (compiled compile updated) e), none)
  ]

  -- DeleteRule
  unfoldable pub delete_rule : String → Engine R → Engine R × Option Error
  delete_rule id e = elim (e.by_id id) [
    | none ↦ (e, some not_found)
    | some _ ↦ (
      record e {
        arrays = put e.fresh (filter (λ r. not (r.id == id)) (get_all_rules e)) e.arrays;
        fresh = suc e.fresh;
        slice = e.fresh;
        capacity = length (get_all_rules e);
        by_id = delete id e.by_id;
      },
      none,
    )
  ]

  abbrev pub at_priority : ℤ → Option (Rule R) → Pointer → Engine R → Engine R
  at_priority priority none p e = e
  at_priority priority (some r) p e = store p (record r { priority = priority }) e

  -- ReorderRule
  unfoldable pub reorder_rule : String → ℤ → Engine R → Engine R × Option Error
  unfolding sort_rules
  reorder_rule id priority e = elim (e.by_id id) [
    | none ↦ (e, some not_found)
    | some p ↦ (sort_rules (at_priority priority (deref p e) p e), none)
  ]
