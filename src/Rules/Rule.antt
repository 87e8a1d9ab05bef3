-- ===== src/Rules/Rule.antt =====
-- The types of internal/rules/rules.go, over the type of a compiled regular expression, and the
-- order in which sortRules puts the rules.
use Prim.Native.String.{compare}
use Prim.Native.Nat.{Ordering}
use fortress_waf.Base.{Bool, true, false, String, List, Option, if◌then◌else◌}
use fortress_waf.Base.Int.{ℤ, ltb_ℤ, eqb_ℤ}

-- The field `Params`, which the engine never reads, is left out.
pub record Rule (R : Type 0) : Type 0 where
  pub id : String
  pub name : String
  pub description : String
  pub enabled : Bool
  pub severity : String
  pub action : String
  pub phase : String
  pub priority : ℤ
  pub field : String
  pub operator : String
  pub value : String
  pub transform : List String
  pub tags : List String
  pub compiled_re : Option R

-- `<` on texts.
abbrev pub text_lt : String → String → Bool
text_lt a b = elim (compare a b) [ Ordering.lt ↦ true | _ ↦ false ]

-- The `less` of sortRules.
abbrev pub less : {R : Type 0} → Rule R → Rule R → Bool
less a b = if eqb_ℤ a.priority b.priority then text_lt a.id b.id else ltb_ℤ a.priority b.priority
