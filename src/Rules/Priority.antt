-- ===== src/Rules/Priority.antt =====
-- Which rule decides.
use fortress_waf.Base.{
  ℕ, ◌≡◌, refl, ◌⊎◌, inl, inr, Bool, true, false, List, [], ◌∷◌, none, some, All, arith, Bool-cases,
  ◌∙◌, sym, subst, ap, ◌+◌, ◌<◌, ◌≢◌, Option-cases,
}
use Prim.Native.String.{compare}
use Prim.Native.Nat.{Ordering}
use mathlib.Core.List.{Memᴰ}
use text.Mathlib.TextPositions.{compare_refl}
use fortress_waf.Base.Int.{ℤ, eqb_ℤ, pos_part, neg_part}
use fortress_waf.Rules.Rule.{Rule, less, text_lt}
use fortress_waf.Rules.Library.{Library}
use fortress_waf.Rules.Match.{FieldValue, evaluate_rule, extract_field}
use fortress_waf.Rules.Registry.{Engine, load_rules, compile_all}
use fortress_waf.Rules.Aliasing.{get_rule-load_rules}
use fortress_waf.Rules.Inspect.{Decision, inspect, inspect_rules, decision_of, no_match, stops}

-- a < b, for integers.
abbrev IsLess : ℤ → ℤ → Type 0
IsLess a b = pos_part a + neg_part b < pos_part b + neg_part a

-- The rule goes before the other or at its place: it has the smaller priority, or the same one and an id that is
-- not after the other's.
abbrev pub Precedes : {R : Type 0} → Rule R → Rule R → Type 0
Precedes a b =
    IsLess a.priority b.priority
    ⊎ ((pos_part a.priority + neg_part b.priority ≡ pos_part b.priority + neg_part a.priority)
        × (compare b.id a.id ≢ Ordering.lt))

-- What the sort leaves: no rule is less than one before it.
abbrev pub IsSorted : {R : Type 0} → List (Rule R) → Type 0
IsSorted [] = Unit
IsSorted (r ∷ rs) = All (λ r'. less r' r ≡ false) rs × IsSorted rs

less→Precedes : {R : Type 0} (a b : Rule R) → less b a ≡ false → Precedes a b
less→Precedes a b h = elim (Bool-cases (eqb_ℤ b.priority a.priority)) [
  | inl same ↦
      inr (
        ground (arith, same),
        λ e. absurd (true_is_not_false (sym (text_lt_lt e) ∙ (rw same at h))),
      )
  | inr differ ↦ inl (ground (arith, h, differ))
]
  where
    true_is_not_false : true ≡ false → ⊥
    true_is_not_false e = cc

    text_lt_lt : compare b.id a.id ≡ Ordering.lt → text_lt b.id a.id ≡ true
    text_lt_lt e = rw (text_lt, e) refl

Precedes-refl : {R : Type 0} (r : Rule R) → Precedes r r
Precedes-refl r = inr (refl, λ e. absurd (lt_not_eq (sym e ∙ compare_refl r.id)))
  where
    lt_not_eq : Ordering.lt ≡ Ordering.eq → ⊥
    lt_not_eq e = cc

module _ (lib : Library) where
  open lib use {Regex, compile, split_dot}

  -- An enabled rule that matches the request without an error, outside a dry run.
  abbrev pub Hits : Bool → FieldValue → Rule Regex → Type 0
  Hits dry_run f r = (r.enabled ≡ true) × (evaluate_rule lib f r ≡ some true) × (dry_run ≡ false)

  stops→Hits :
      (dry_run : Bool) (f : FieldValue) (r : Rule Regex)
      → stops lib dry_run f r ≡ true
      → Hits dry_run f r
  stops→Hits dry_run f r h = elim (Bool-cases r.enabled) [
    | inl on ↦ elim (Option-cases (evaluate_rule lib f r)) [
      | inl failed ↦ absurd (false_is_not_true (rw (failed, on) at h))
      | inr (matched, result) ↦ elim (Bool-cases matched) [
        | inl hit ↦ elim (Bool-cases dry_run) [
          | inl dry ↦ absurd (false_is_not_true (rw (result, on, hit, dry) at h))
          | inr wet ↦ (on, result ∙ ap some hit, wet)
        ]
        | inr miss ↦ absurd (false_is_not_true (rw (result, on, miss) at h))
      ]
    ]
    | inr off ↦ absurd (false_is_not_true (rw off at h))
  ]
    where
      false_is_not_true : false ≡ true → ⊥
      false_is_not_true e = cc

  Hits→stops :
      (dry_run : Bool) (f : FieldValue) (r : Rule Regex)
      → Hits dry_run f r
      → stops lib dry_run f r ≡ true
  Hits→stops dry_run f r (on, hit, wet) = rw (hit, on, wet) refl

  -- The decision on a sorted table: no rule hits, and the request is allowed, or a rule does that precedes every other one
  -- that hits.
  abbrev pub Decides : Bool → FieldValue → List (Rule Regex) → Decision → Type 0
  Decides dry_run f rules d =
      ((d ≡ no_match) × All (λ r. Hits dry_run f r → ⊥) rules)
      ⊎ ((r : Rule Regex) × Memᴰ r rules
          × (d ≡ decision_of r true)
          × Hits dry_run f r
          × All (λ r'. Hits dry_run f r' → Precedes r r') rules)

  weaken :
      (dry_run : Bool) (f : FieldValue) (r : Rule Regex) (rs : List (Rule Regex))
      → All (λ r'. less r' r ≡ false) rs
      → All (λ r'. Hits dry_run f r' → Precedes r r') rs
  weaken dry_run f r [] h = tt
  weaken dry_run f r (r' ∷ rs) h = ((λ _. less→Precedes r r' h.0), weaken dry_run f r rs h.1)

  pub inspect_rules-Decides :
      (dry_run : Bool) (f : FieldValue) (rules : List (Rule Regex))
      → IsSorted rules
      → Decides dry_run f rules (inspect_rules lib dry_run f rules)
  unfolding inspect_rules
  inspect_rules-Decides dry_run f [] h = inl (refl, tt)
  inspect_rules-Decides dry_run f (r ∷ rs) h = elim (Bool-cases (stops lib dry_run f r)) [
    | inl stop ↦ inr (
      r,
      Memᴰ.head refl,
      rw stop refl,
      stops→Hits dry_run f r stop,
      ((λ _. Precedes-refl r), weaken dry_run f r rs h.0),
    )
    | inr no_stop ↦
        let misses : Hits dry_run f r → ⊥ =
          λ hits. true_is_not_false (sym (Hits→stops dry_run f r hits) ∙ no_stop) in
        elim (inspect_rules-Decides dry_run f rs h.1) [
          | inl (nothing, all) ↦ inl (rw no_stop nothing, (misses, all))
          | inr (r', there, found, hits, least) ↦
              inr
                (r', Memᴰ.tail there, rw no_stop found, hits, ((λ hit. absurd (misses hit)), least))
        ]
  ]
    where
      true_is_not_false : true ≡ false → ⊥
      true_is_not_false e = cc

  -- After LoadRules, where the sort has put the loaded rules in order by priority and, at the same priority, by id,
  -- Inspect allows the request if no loaded rule is enabled and matches without an error, or in a dry run; else it
  -- answers by a loaded rule that does, and that precedes in that order every loaded rule that does.
  pub inspect-load_rules :
      (sort : List (Rule Regex) → List (Rule Regex)) (grow : ℕ → ℕ) (rules : List (Rule Regex))
      (f : FieldValue) (e : Engine Regex)
      → IsSorted (sort (compile_all compile rules))
      → Decides e.dry_run f
          (sort (compile_all compile rules))
          (inspect lib f (load_rules compile sort grow rules e))
  unfolding inspect load_rules
  inspect-load_rules sort grow rules f e sorts =
      subst
        (λ t.
          Decides e.dry_run f (sort (compile_all compile rules)) (inspect_rules lib e.dry_run f t))
        (sym (get_rule-load_rules compile sort grow rules "" e).0)
        (inspect_rules-Decides e.dry_run f (sort (compile_all compile rules)) sorts)

  -- A rule whose field name has no dot never matches, whatever its operator and the request.
  pub evaluate_rule_no_dot :
      (f : FieldValue) (rule : Rule Regex)
      → split_dot rule.field ≡ none
      → evaluate_rule lib f rule ≡ some false
  unfolding evaluate_rule
  evaluate_rule_no_dot f rule h = rw (h, extract_field) refl
