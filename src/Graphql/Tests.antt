-- ===== src/Graphql/Tests.antt =====
-- Runs of the model of internal/engine/graphql.go on a few queries.
use fortress_waf.Base.{
  ℕ, ◌≡◌, ◌≤◌, refl, true, false, List, [], ◌∷◌, none, some, length, arith, suc,
}
use fortress_waf.Base.Int.{pos}
use fortress_waf.Pipeline.Types.{Action}
use fortress_waf.Graphql.Text.{bytes}
use fortress_waf.Graphql.Measure.{
  count_depth, calculate_cost, count_page_size, word_cost, scan, passes_at, is_blank, size_at, atoi,
}
use fortress_waf.Graphql.Measure.Depth.{
  Nested, nothing, plain, braces, written, nesting, count_depth-written,
}
use fortress_waf.Graphql.Measure.PageSize.{scan_total}
use fortress_waf.Graphql.Measure.Cost.{calculate_cost-wraps}
use fortress_waf.Graphql.Inspect.{GraphqlLibrary, GraphqlInspector, inspect}
use fortress_waf.Graphql.Inspect.Limits.{Carries, inspect-written, inspect-calculate_cost}

-- `{a{b}}`
abbrev tree : Nested
tree = braces (plain 97 (braces (plain 98 nothing) nothing)) nothing

count_depth-written_test : count_depth (written tree) ≡ nesting tree
count_depth-written_test = count_depth-written tree (((refl, refl), (((refl, refl), tt), tt)), tt)

scan_total_test :
    (passes_at is_blank
        (bytes "first: 5")
        (scan is_blank (length (bytes "first: 5")) (bytes "first: 5") 6)
      ≡ false)
    × ((6 ≤ scan is_blank (length (bytes "first: 5")) (bytes "first: 5") 6)
        × ((j : ℕ)
            → 6 ≤ j
            → suc j ≤ scan is_blank (length (bytes "first: 5")) (bytes "first: 5") 6
            → passes_at is_blank (bytes "first: 5") j ≡ true))
scan_total_test = scan_total is_blank (bytes "first: 5") 6

abbrev same : List ℕ → List ℕ
same q = q

abbrev huge : List ℕ
huge = bytes "query{a(first: 4294967296)}"

calculate_cost-wraps_example : calculate_cost same huge ≡ pos (word_cost same huge)
unfolding count_page_size size_at atoi word_cost
calculate_cost-wraps_example = calculate_cost-wraps same huge 1 (omega arith) refl

abbrev library : GraphqlLibrary
library = record {
  lower = λ q. q;
  trim_space = λ q. q;
  count_aliases = λ q. 0;
  parse_batch = λ body. none;
  parse_query_object = λ body. some (record { query = some (written tree); operation_name = none });
  count_listed_operations = λ body. some 0;
  count_listed_objects = λ body. none;
}

abbrev inspector : GraphqlInspector
inspector = record {
  max_depth = 1;
  max_cost = 1000;
  max_aliases = 15;
  max_batch_size = 1;
  max_tokens = 10000;
  block_introspection = false;
  block_schema = false;
  allowed_ops = "query" ∷ [];
  strict_validation = true;
}

carried : Carries library (bytes "application/json") 123 [] (written tree) none
carried = record { is_looked_at = refl; single = refl; parsed = refl }

inspect-written_example :
    (inspect library inspector (bytes "application/json") (123 ∷ [])).action ≡ Action.block
inspect-written_example =
    inspect-written library inspector (bytes "application/json") 123 [] tree none carried
      (((refl, refl), (((refl, refl), tt), tt)), tt) (omega arith) (omega arith)

inspect-calculate_cost_example :
    (inspect library inspector (bytes "application/json") (123 ∷ [])).action ≡ Action.block
unfolding word_cost
inspect-calculate_cost_example =
    inspect-calculate_cost library inspector (bytes "application/json") 123 [] (written tree) none
      carried refl (omega arith) (omega arith) (omega arith)
