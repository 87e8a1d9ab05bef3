-- ===== src/Rules/Aliasing.antt =====
-- The pointers of `byID` against the sorted table.
use fortress_waf.Base.{
  ℕ, suc, ◌≡◌, ◌≢◌, refl, sym, ◌∙◌, String, List, [], ◌∷◌, Option, none, some, if◌then◌else◌,
  get_elem?, set, ◌==◌, text_keys, number_keys, arith, nat_beq, Option-cases, inl, inr,
}
use fortress_waf.Base.Map.{Map, empty, put}
use fortress_waf.Rules.Rule.{Rule}
use fortress_waf.Rules.Registry.{
  Engine, Pointer, Error, not_found, get_all_rules, get_rule, point_at, load_rules, compile_all,
  compiled, update_rule,
}

module _ {R : Type 0} where
  -- The last place of an id, counted from `i`.
  unfoldable pub last_place : ℕ → String → List (Rule R) → Option ℕ
  last_place i id [] = none
  last_place i id (r ∷ rs) =
      let rest = last_place (suc i) id rs in
      elim rest [ some k ↦ some k | none ↦ if r.id == id then some i else none ]

  pub point_at_lem :
      (a i : ℕ) (rs : List (Rule R)) (m : Map String Pointer) (id : String)
      → point_at a i rs m id ≡ elim (last_place i id rs) as (λ _. Option Pointer) [
        | none ↦ m id
        | some k ↦ some (record { array = a; index = k })
      ]
  unfolding point_at last_place
  point_at_lem a i [] m id = refl
  point_at_lem a i (r ∷ rs) m id = ground (
    arith,
    text_keys.agrees_iff r.id id,
    point_at_lem a (suc i) rs (put r.id (record { array = a; index = i }) m) id,
  )

module _ {R : Type 0} (compile : String → Option R) (sort : List (Rule R) → List (Rule R))
    (grow : ℕ → ℕ) where
  compiled-id : (r : Rule R) → (compiled compile r).id ≡ r.id
  compiled-id r = ground arith

  -- After LoadRules the table holds the sorted rules, and GetRule reads it at the place that the id
  -- had before the sorting (the last one, if it stood there more than once), whichever rule stands
  -- there now.
  pub get_rule-load_rules :
      (rules : List (Rule R)) (id : String) (e : Engine R)
      → let stored = compile_all compile rules in
        let e' = load_rules compile sort grow rules e in
        (get_all_rules e' ≡ sort stored)
        × (get_rule id e' ≡ elim (last_place 0 id stored) as (λ _. Option (Rule R)) [
          | none ↦ none
          | some k ↦ get_elem? (sort stored) k
        ])
  unfolding get_rule load_rules
  get_rule-load_rules rules id e =
      (ground arith, ground (arith, point_at_lem e.fresh 0 (compile_all compile rules) empty id))

  -- Two rules that are loaded in the wrong order: GetRule takes each one's id and returns the other.
  pub get_rule_swapped :
      (a b : Rule R) (e : Engine R)
      → a.id ≢ b.id
      → sort (compiled compile a ∷ compiled compile b ∷ [])
        ≡ compiled compile b ∷ compiled compile a ∷ []
      → let e' = load_rules compile sort grow (a ∷ b ∷ []) e in
        (get_rule a.id e' ≡ some (compiled compile b))
        × (get_rule b.id e' ≡ some (compiled compile a))
  unfolding compile_all last_place
  get_rule_swapped a b e ne swapped =
      let (ca, cb) : Rule R × Rule R = (compiled compile a, compiled compile b) in
      (
        read a.id 0 (places_first ca cb a.id (compiled-id a) (λ q. ne (sym q ∙ compiled-id b))),
        read b.id 1 (places_second ca cb b.id (compiled-id b)),
      )
    where
      places_first :
          (x y : Rule R) (id : String)
          → x.id ≡ id
          → y.id ≢ id
          → last_place 0 id (x ∷ y ∷ []) ≡ some 0
      places_first x y id p q =
          ground (arith, text_keys.agrees_iff x.id id, text_keys.agrees_iff y.id id)

      places_second :
          (x y : Rule R) (id : String) → y.id ≡ id → last_place 0 id (x ∷ y ∷ []) ≡ some 1
      places_second x y id p = ground (arith, text_keys.agrees_iff y.id id)

      read :
          (id : String) (k : ℕ)
          → last_place 0 id (compiled compile a ∷ compiled compile b ∷ []) ≡ some k
          → get_rule id (load_rules compile sort grow (a ∷ b ∷ []) e)
            ≡ get_elem? (compiled compile b ∷ compiled compile a ∷ []) k
      read id k p = (get_rule-load_rules (a ∷ b ∷ []) id e).1 ∙ rw (p, swapped) refl

  -- UpdateRule reports an id that is not indexed. Else it reports success, and the table is the
  -- sorted one with the new rule at the place that the pointer names, if that lies in the table's
  -- array; if it lies in an array that the table has left, no rule of the table changes.
  pub update_rule-get_all_rules :
      (id : String) (updated : Rule R) (e : Engine R)
      → (get_all_rules (update_rule compile sort grow id updated e).0
          ≡ elim (e.by_id id) as (λ _. List (Rule R)) [
            | none ↦ get_all_rules e
            | some p ↦ sort (
                if nat_beq p.array e.slice
                then set (get_all_rules e) p.index (compiled compile updated)
                else get_all_rules e)
          ])
        × ((update_rule compile sort grow id updated e).1
            ≡ elim (e.by_id id) as (λ _. Option Error) [ none ↦ some not_found | some _ ↦ none ])
  unfolding update_rule
  update_rule-get_all_rules id updated e = elim (Option-cases (e.by_id id)) [
    | inl missing ↦ rw (missing, update_rule) (refl, refl)
    | inr (p, present) ↦ rw (present, update_rule) (ground arith, refl)
  ]
