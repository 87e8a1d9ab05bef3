-- ===== src/Graphql/Inspect/Limits.antt =====
-- Queries that Inspect of internal/engine/graphql.go blocks by its limits.
use fortress_waf.Base.{
  ℕ, ◌+◌, ◌<◌, ◌^◌, ◌≡◌, refl, true, false, String, List, ◌∷◌, Option, none, some, ltb, lt→ltb,
  ◌&&◌, ◌||◌, if◌then◌else◌, if_holds, arith, ◌∙◌,
}
use fortress_waf.Pipeline.Types.{Action}
use fortress_waf.Pipeline.Detection.{Detection, detection}
use fortress_waf.Graphql.Text.{bytes, has_prefix, contains, index}
use fortress_waf.Graphql.Measure.{count_depth, calculate_cost, word_cost}
use fortress_waf.Graphql.Measure.Depth.{Nested, written, nesting, IsPlain, count_depth-written}
use fortress_waf.Graphql.Measure.Cost.{calculate_cost-default}
use fortress_waf.Graphql.Inspect.{
  GraphqlLibrary, GraphqlInspector, query_of, analyze_query_string, parse_query, check_query,
  check_parsed, check_body, inspect, is_introspection_query, is_schema_query,
}

-- A body that holds this one query, and is looked at.
pub record Carries (lib : GraphqlLibrary) (content_type : List ℕ) (c : ℕ) (body q : List ℕ)
    (name : Option String) : Type 0 where
  pub is_looked_at :
      (contains content_type (bytes "graphql") || contains content_type (bytes "json")) ≡ true
  pub single : has_prefix (lib.trim_space (c ∷ body)) (bytes "[") ≡ false
  pub parsed :
      lib.parse_query_object (c ∷ body) ≡ some (record { query = some q; operation_name = name })

module _ (lib : GraphqlLibrary) where
  query_of-depth :
      (q : List ℕ) (name : Option String)
      → (query_of lib (record { query = some q; operation_name = name })).depth ≡ count_depth q
  unfolding query_of analyze_query_string
  query_of-depth q none = refl
  query_of-depth q (some n) = refl

  query_of-cost :
      (q : List ℕ) (name : Option String)
      → (query_of lib (record { query = some q; operation_name = name })).cost
        ≡ calculate_cost lib.lower q
  unfolding query_of analyze_query_string
  query_of-cost q none = refl
  query_of-cost q (some n) = refl

  -- Where the tests of the query block, Inspect blocks.
  inspect-Carries :
      (g : GraphqlInspector) (content_type : List ℕ) (c : ℕ) (body q : List ℕ)
      (name : Option String)
      → Carries lib content_type c body q name
      → (check_query lib g
          (c ∷ body)
          (query_of lib (record { query = some q; operation_name = name }))).action
        ≡ Action.block
      → (inspect lib g content_type (c ∷ body)).action ≡ Action.block
  unfolding inspect check_body check_parsed parse_query
  inspect-Carries g content_type c body q name k h =
      let schema_blocked =
        detection Action.block "GRAPHQL-002" "GraphQL schema query blocked" "high" 85 in
      let checked =
        check_query lib g (c ∷ body)
          (query_of lib (record { query = some q; operation_name = name })) in
      rw (inspect, k.is_looked_at, check_body, parse_query, k.single, k.parsed, check_parsed)
        (if_holds (λ (d : Detection). d.action ≡ Action.block)
          (g.block_introspection && is_introspection_query (c ∷ body))
          (detection Action.block "GRAPHQL-001" "GraphQL introspection blocked" "high" 85)
          (if g.block_schema && is_schema_query lib (c ∷ body) then schema_blocked else checked)
          refl
          (if_holds (λ (d : Detection). d.action ≡ Action.block)
            (g.block_schema && is_schema_query lib (c ∷ body)) schema_blocked checked refl h))

  -- A query whose braces all have partners, with more braces around its innermost text than the limit allows, is
  -- blocked, where there is a limit of depth, the type of the content names graphql or json, and the body holds
  -- this one query.
  pub inspect-written :
      (g : GraphqlInspector) (content_type : List ℕ) (c : ℕ) (body : List ℕ) (t : Nested)
      (name : Option String)
      → Carries lib content_type c body (written t) name
      → IsPlain t
      → 0 < g.max_depth
      → g.max_depth < nesting t
      → (inspect lib g content_type (c ∷ body)).action ≡ Action.block
  unfolding check_query
  inspect-written g content_type c body t name k plain limited deep =
      let depth = query_of-depth (written t) name ∙ count_depth-written t plain in
      inspect-Carries g content_type c body (written t) name k (
        rw (check_query, depth, lt→ltb 0 g.max_depth limited, lt→ltb g.max_depth (nesting t) deep)
          refl)

  -- A query that asks for no page size is blocked by every limit of the cost from 1 to 9999, where its words cost
  -- less than 2^62, the type of the content names graphql or json, and the body holds this one query.
  pub inspect-calculate_cost :
      (g : GraphqlInspector) (content_type : List ℕ) (c : ℕ) (body q : List ℕ)
      (name : Option String)
      → Carries lib content_type c body q name
      → index (bytes "first:") (lib.lower q) ≡ none
      → word_cost lib.lower (lib.lower q) < 2 ^ 62
      → 0 < g.max_cost
      → g.max_cost < 10000
      → (inspect lib g content_type (c ∷ body)).action ≡ Action.block
  unfolding check_query
  inspect-calculate_cost g content_type c body q name k unpaged small limited low =
      let w = word_cost lib.lower (lib.lower q) in
      let cost =
        query_of-cost q name ∙ calculate_cost-default lib.lower q (omega (arith, small)) unpaged in
      let above : ltb (g.max_cost + 0) (w + 10000 + 0) ≡ true = lt→ltb _ _ (omega (arith, low)) in
      inspect-Carries g content_type c body q name k
        (rw (check_query, cost, lt→ltb 0 g.max_cost limited, above) (ground arith))
