-- ===== src/Graphql/Inspect.antt =====
-- Inspect, parseQuery, countOperations and ValidateQuery of internal/engine/graphql.go.
pub mod Limits
use fortress_waf.Base.{
  ℕ, Bool, true, false, String, List, [], ◌∷◌, Option, none, some, any, length, ltb, ◌&&◌, ◌||◌,
  not, if◌then◌else◌, ◌==◌, text_keys,
}
use fortress_waf.Base.Int.{ℤ, pos, ltb_ℤ}
use fortress_waf.Pipeline.Types.{Action}
use fortress_waf.Pipeline.Detection.{Detection, detection, allowing}
use fortress_waf.Graphql.Text.{bytes, has_prefix, contains, count}
use fortress_waf.Graphql.Measure.{count_depth, calculate_cost}

-- What json.Unmarshal finds of a query under its two keys, where these hold texts.
pub record Fields : Type 0 where
  pub query : Option (List ℕ)
  pub operation_name : Option String

-- strings.ToLower, the TrimSpace of strings and bytes, the number of matches of the expression for aliases, and
-- the readings of a body as a list of queries, a query, an object with a list of operations, and a list of objects.
pub record GraphqlLibrary : Type 0 where
  pub lower : List ℕ → List ℕ
  pub trim_space : List ℕ → List ℕ
  pub count_aliases : List ℕ → ℕ
  pub parse_batch : List ℕ → Option (List Fields)
  pub parse_query_object : List ℕ → Option Fields
  pub count_listed_operations : List ℕ → Option ℕ
  pub count_listed_objects : List ℕ → Option ℕ

-- Without the restricted fields, which are never read. The limits are those of the configuration; one that is not
-- positive is 0. The allowed operations are the keys of the map.
pub record GraphqlInspector : Type 0 where
  pub max_depth : ℕ
  pub max_cost : ℕ
  pub max_aliases : ℕ
  pub max_batch_size : ℕ
  pub max_tokens : ℕ
  pub block_introspection : Bool
  pub block_schema : Bool
  pub allowed_ops : List String
  pub strict_validation : Bool

pub record GraphqlQuery : Type 0 where
  pub operation : String
  pub depth : ℕ
  pub cost : ℤ
  pub aliases : ℕ

abbrev no_query : GraphqlQuery
no_query = record { operation = ""; depth = 0; cost = pos 0; aliases = 0 }

abbrev pub is_introspection_query : List ℕ → Bool
is_introspection_query body =
    any (λ word. contains body word)
      (bytes "__schema" ∷ bytes "__type" ∷ bytes "IntrospectionQuery" ∷ bytes "Introspection" ∷ [])

abbrev dangerous_patterns : List (List ℕ)
dangerous_patterns =
    bytes "${"
    ∷ bytes "{{"
    ∷ bytes "__dirname"
    ∷ bytes "__filename"
    ∷ bytes "process"
    ∷ bytes "eval("
    ∷ bytes "require("
    ∷ bytes "import("
    ∷ []

module _ (lib : GraphqlLibrary) where
  open lib use {
    lower, trim_space, count_aliases, parse_batch, parse_query_object, count_listed_operations,
    count_listed_objects,
  }

  abbrev pub is_schema_query : List ℕ → Bool
  is_schema_query body =
      contains (lower body) (bytes "{ __typename }") && contains (lower body) (bytes "__type")

  abbrev operation_of : List ℕ → String
  operation_of trimmed =
      if has_prefix trimmed (bytes "query")
      then "query"
      else if has_prefix trimmed (bytes "mutation")
      then "mutation"
      else if has_prefix trimmed (bytes "subscription")
      then "subscription"
      else "query"

  unfoldable pub analyze_query_string : List ℕ → GraphqlQuery
  analyze_query_string q = record {
    operation = operation_of (trim_space q);
    depth = count_depth q;
    cost = calculate_cost lower q;
    aliases = count_aliases q;
  }

  abbrev measured : Option (List ℕ) → GraphqlQuery
  measured none = no_query
  measured (some q) = analyze_query_string q

  abbrev renamed : Option String → GraphqlQuery → GraphqlQuery
  renamed none query = query
  renamed (some name) query = record query { operation = name }

  -- The query of an object with its two keys.
  unfoldable pub query_of : Fields → GraphqlQuery
  query_of fields = renamed fields.operation_name (measured fields.query)

  abbrev first_query : Option (List Fields) → Option GraphqlQuery
  first_query none = none
  first_query (some []) = none
  first_query (some (first ∷ later)) = some (query_of first)

  -- No query is an error.
  unfoldable pub parse_query : List ℕ → Option GraphqlQuery
  parse_query body =
      if has_prefix (trim_space body) (bytes "[")
      then first_query (parse_batch body)
      else elim (parse_query_object body) [ none ↦ none | some fields ↦ some (query_of fields) ]

  unfoldable pub is_json_query : List ℕ → Bool
  is_json_query body = has_prefix (trim_space body) (bytes "{")

  -- The count where the body is no object of the first kind.
  abbrev count_objects : List ℕ → ℕ
  count_objects body = elim (count_listed_objects body) [
    | some n ↦ n
    | none ↦ count body (bytes "{\"query\"")
  ]

  unfoldable pub count_operations : List ℕ → ℕ
  count_operations body =
      if is_json_query body
      then elim (count_listed_operations body) [ some n ↦ n | none ↦ count_objects body ]
      else count body (bytes "{\"query\"")

  abbrev pub exceeds : ℕ → ℕ → Bool
  exceeds limit n = ltb 0 limit && ltb limit n

  abbrev is_empty : List String → Bool
  is_empty [] = true
  is_empty (t ∷ ts) = false

  abbrev check_operation : GraphqlInspector → String → Detection
  check_operation g operation =
      if (not (is_empty g.allowed_ops) && not (operation == ""))
        && not (any (λ op. op == operation) g.allowed_ops)
      then detection Action.block "GRAPHQL-008" "GraphQL operation not allowed" "high" 80
      else allowing

  -- The tests of a query that was read.
  unfoldable pub check_query : GraphqlInspector → List ℕ → GraphqlQuery → Detection
  check_query g body query =
      if exceeds g.max_depth query.depth
      then detection Action.block "GRAPHQL-004" "GraphQL depth limit exceeded" "high" 80
      else if ltb 0 g.max_cost && ltb_ℤ (pos g.max_cost) query.cost
      then detection Action.block "GRAPHQL-005" "GraphQL cost limit exceeded" "high" 80
      else if exceeds g.max_aliases query.aliases
      then detection Action.block "GRAPHQL-006" "GraphQL alias limit exceeded" "medium" 65
      else if exceeds g.max_batch_size (count_operations body)
      then detection Action.block "GRAPHQL-007" "GraphQL batch size exceeded" "high" 75
      else check_operation g query.operation

  unfoldable pub check_parsed : GraphqlInspector → List ℕ → Option GraphqlQuery → Detection
  check_parsed g body none =
      if g.strict_validation
      then detection Action.block "GRAPHQL-003" "GraphQL parse error" "medium" 60
      else allowing
  check_parsed g body (some query) = check_query g body query

  unfoldable pub check_body : GraphqlInspector → List ℕ → Detection
  check_body g body =
      if g.block_introspection && is_introspection_query body
      then detection Action.block "GRAPHQL-001" "GraphQL introspection blocked" "high" 85
      else if g.block_schema && is_schema_query body
      then detection Action.block "GRAPHQL-002" "GraphQL schema query blocked" "high" 85
      else check_parsed g body (parse_query body)

  -- The type of the content and the body.
  unfoldable pub inspect : GraphqlInspector → List ℕ → List ℕ → Detection
  inspect g content_type [] = allowing
  inspect g content_type (c ∷ body) =
      if contains content_type (bytes "graphql") || contains content_type (bytes "json")
      then check_body g (c ∷ body)
      else allowing

  -- Whether the text passes; the reasons are texts.
  unfoldable pub validate_query : GraphqlInspector → List ℕ → Bool
  validate_query g q =
      if exceeds g.max_tokens (length q)
      then false
      else not (any (λ word. contains (lower q) word) dangerous_patterns)
