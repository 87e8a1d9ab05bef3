-- ===== src/Rules/Match.antt =====
-- extractField, applyTransforms, applyOperator and evaluateRule of internal/rules/rules.go.
use fortress_waf.Base.{
  ℕ, Bool, false, not, String, List, [], ◌∷◌, Option, none, some, if◌then◌else◌, any, ◌==◌,
  text_keys,
}
use fortress_waf.Base.Map.{Map}
use fortress_waf.Rules.Rule.{Rule}
use fortress_waf.Rules.Library.{Library}

-- `header_order` is the order in which a loop visits the keys of `headers`. A nil body is `none`.
pub record FieldValue : Type 0 where
  pub query_params : Map String (List String)
  pub form_params : Map String (List String)
  pub headers : Map String String
  pub header_order : List String
  pub cookies : Map String String
  pub body : Option String
  pub path : String
  pub method : String
  pub real_ip : String
  pub user_agent : String
  pub content_type : String
  pub country : String
  pub asn : ℕ
  pub session_id : String
  pub user_id : String
  pub host : String

abbrev or_empty : Option String → String
or_empty none = ""
or_empty (some v) = v

-- The first value, of a key with any.
abbrev first_or_empty : Option (List String) → String
first_or_empty none = ""
first_or_empty (some []) = ""
first_or_empty (some (v ∷ _)) = v

module _ (lib : Library) where
  open lib use {
    Regex, compile, matches, parse_ip, show_ip, parse_cidr, within, scan, greater, split_dot,
    split_comma, equal_fold, contains, has_prefix, has_suffix, to_lower, to_upper, trim_space,
    compress_whitespace, replace_all, show_number,
  }

  -- The loop over the headers, for a name that differs in case only.
  unfoldable pub find_folded : String → Map String String → List String → String
  find_folded key headers [] = ""
  find_folded key headers (k ∷ order) =
      let rest = find_folded key headers order in
      elim (headers k) [ none ↦ rest | some v ↦ if equal_fold k key then v else rest ]

  unfoldable pub field_of : String → String → FieldValue → String
  unfolding find_folded
  field_of category key f =
      if category == "headers"
      then elim (f.headers key) [ some v ↦ v | none ↦ find_folded key f.headers f.header_order ]
      else if category == "query"
      then first_or_empty (f.query_params key)
      else if category == "form"
      then first_or_empty (f.form_params key)
      else if category == "cookies"
      then or_empty (f.cookies key)
      else if category == "path"
      then f.path
      else if category == "method"
      then f.method
      else if category == "ip"
      then f.real_ip
      else if category == "user_agent"
      then f.user_agent
      else if category == "content_type"
      then f.content_type
      else if category == "country"
      then f.country
      else if category == "asn"
      then show_number f.asn
      else if category == "session"
      then f.session_id
      else if category == "user_id"
      then f.user_id
      else if category == "host"
      then f.host
      else if category == "body"
      then or_empty f.body
      else ""

  unfoldable pub extract_field : String → FieldValue → String
  unfolding field_of
  extract_field field_name f = elim (split_dot field_name) [
    | none ↦ ""
    | some (category, key) ↦ field_of category key f
  ]

  -- A row of `ReplaceAll` calls.
  unfoldable pub replace_each : List (String × String) → String → String
  replace_each [] s = s
  replace_each ((old, new) ∷ rest) s = replace_each rest (replace_all s old new)

  abbrev escapes : List (String × String)
  escapes =
      ("%25", "%")
      ∷ ("%20", " ")
      ∷ ("%3C", "<")
      ∷ ("%3E", ">")
      ∷ ("%27", "'")
      ∷ ("%22", "\"")
      ∷ ("%3B", ";")
      ∷ ("%2F", "/")
      ∷ ("%3D", "=")
      ∷ ("%26", "&")
      ∷ ("%23", "#")
      ∷ ("%3F", "?")
      ∷ []

  unfoldable pub apply_transform : String → String → String
  unfolding replace_each
  apply_transform t s =
      let name = to_lower t in
      if name == "lowercase"
      then to_lower s
      else if name == "uppercase"
      then to_upper s
      else if name == "trim"
      then trim_space s
      else if name == "urldecode"
      then replace_each escapes s
      else if name == "remove_null"
      then replace_all s "\0" ""
      else if name == "remove_comments"
      then replace_each (("/*", " ") ∷ ("*/", " ") ∷ ("--", " ") ∷ []) s
      else if name == "normalize_path"
      then replace_each (("//", "/") ∷ ("/./", "/") ∷ []) s
      else if name == "compress_whitespace"
      then compress_whitespace s
      else s

  unfoldable pub apply_transforms : String → List String → String
  unfolding apply_transform
  apply_transforms s [] = s
  apply_transforms s (t ∷ ts) = apply_transforms (apply_transform t s) ts

  abbrev listed : String → String → Bool
  listed value choices = any (λ p. trim_space p == value) (split_comma choices)

  abbrev matches_ip : String → String → Bool
  matches_ip value choice = elim (parse_ip value) [
    | none ↦ false
    | some ip ↦ elim (parse_cidr choice) [
      | none ↦ show_ip ip == choice
      | some cidr ↦ within cidr ip
    ]
  ]

  -- `none` is the error of a pattern that does not compile. What the code stores in `compiledRE` it
  -- stores in a copy of the rule.
  abbrev matches_regex : String → Rule Regex → Option Bool
  matches_regex value rule = elim rule.compiled_re [
    | some re ↦ some (matches re value)
    | none ↦ elim (compile rule.value) [ none ↦ none | some re ↦ some (matches re value) ]
  ]

  unfoldable pub apply_operator : String → Rule Regex → Option Bool
  apply_operator value rule =
      if rule.operator == "equals"
      then some (value == rule.value)
      else if rule.operator == "contains"
      then some (contains value rule.value)
      else if rule.operator == "regex"
      then matches_regex value rule
      else if rule.operator == "prefix"
      then some (has_prefix value rule.value)
      else if rule.operator == "suffix"
      then some (has_suffix value rule.value)
      else if rule.operator == "ip_match"
      then some (matches_ip value rule.value)
      else if rule.operator == "geo_match"
      then some (equal_fold value rule.value)
      else if rule.operator == "exists"
      then some (not (value == ""))
      else if rule.operator == "gt"
      then some (greater (scan value) (scan rule.value))
      else if rule.operator == "lt"
      then some (greater (scan rule.value) (scan value))
      else if rule.operator == "in"
      then some (listed value rule.value)
      else if rule.operator == "not_in"
      then some (not (listed value rule.value))
      else some false

  -- evaluateRule
  unfoldable pub evaluate_rule : FieldValue → Rule Regex → Option Bool
  unfolding extract_field apply_transforms apply_operator
  evaluate_rule f rule =
      let value = extract_field rule.field f in
      let transformed = apply_transforms value rule.transform in
      if value == ""
      then some false
      else if transformed == ""
      then some false
      else apply_operator transformed rule
