-- ===== src/Rules/Tests.antt =====
-- The rule engine of internal/rules/rules.go at concrete inputs: two rules on the request's path, with
-- texts in place of the compiled patterns and of the addresses.
use fortress_waf.Base.{
  All, ℕ, ◌+◌, ◌≡◌, ◌≢◌, ◌⊎◌, refl, ap, true, false, not, String, List, [], ◌∷◌, none, some, filter,
  arith, agrees_false→ne, text_keys, ◌==◌, ltb, if◌then◌else◌,
}
use fortress_waf.Base.Map.{empty}
use fortress_waf.Base.Int.{pos}
use fortress_waf.Rules.Rule.{Rule, less}
use fortress_waf.Rules.Library.{Library}
use fortress_waf.Rules.Match.{FieldValue, evaluate_rule}
use fortress_waf.Rules.Inspect.{inspect}
use fortress_waf.Rules.Registry.{
  Engine, Pointer, not_found, get_all_rules, get_rule, load_rules, add_rule, insert_rule,
  sort_rules, update_rule, delete_rule, compile_all, point_at,
}
use fortress_waf.Rules.Aliasing.{
  last_place, get_rule-load_rules, get_rule_swapped, update_rule-get_all_rules,
}
use fortress_waf.Rules.LostUpdate.{update_rule-add_rule-load_rules}
use fortress_waf.Rules.Deletion.{delete_rule-get_all_rules, get_rule-delete_rule_ne}
use fortress_waf.Rules.Priority.{Decides, inspect-load_rules}
use fortress_waf.Rules.Defaults.{default_rules, evaluate_rule-default_rules}

-- A stand-in for Go's library in which texts are matched by equality.
abbrev library : Library
library = record {
  Regex = String;
  Address = String;
  Network = String;
  Number = ℕ;
  compile = (λ pattern. some pattern);
  matches = (λ re text. re == text);
  parse_ip = (λ text. some text);
  show_ip = (λ address. address);
  parse_cidr = (λ text. none);
  within = (λ network address. false);
  scan = (λ text. 0);
  greater = (λ a b. ltb b a);
  split_dot = (λ text. if text == "path.raw" then some ("path", "raw") else none);
  split_comma = (λ text. text ∷ []);
  equal_fold = (λ a b. a == b);
  contains = (λ a b. a == b);
  has_prefix = (λ a b. a == b);
  has_suffix = (λ a b. a == b);
  to_lower = (λ text. text);
  to_upper = (λ text. text);
  trim_space = (λ text. text);
  compress_whitespace = (λ text. text);
  replace_all = (λ text old new. text);
  show_number = (λ n. "");
}

abbrev rule : String → ℕ → String → Rule String
rule id priority field = record {
  id = id;
  name = id;
  description = "";
  enabled = true;
  severity = "high";
  action = "block";
  phase = "request";
  priority = pos priority;
  field = field;
  operator = "equals";
  value = "/admin";
  transform = [];
  tags = [];
  compiled_re = none;
}

abbrev late : Rule String
late = rule "R1" 20 "path.raw"

abbrev early : Rule String
early = rule "R2" 10 "path.raw"

abbrev request : FieldValue
request = record {
  query_params = empty;
  form_params = empty;
  headers = empty;
  header_order = [];
  cookies = empty;
  body = none;
  path = "/admin";
  method = "GET";
  real_ip = "10.0.0.1";
  user_agent = "curl";
  content_type = "";
  country = "";
  asn = 0;
  session_id = "";
  user_id = "";
  host = "";
}

abbrev engine : Engine String
engine = record {
  arrays = empty;
  fresh = 0;
  slice = 0;
  capacity = 0;
  by_id = empty;
  dry_run = false;
}

-- Insertion by priority, as a sort of the tables below.
abbrev put_in : Rule String → List (Rule String) → List (Rule String)
put_in r [] = r ∷ []
put_in r (s ∷ rs) = let rest = put_in r rs in if less s r then s ∷ rest else r ∷ s ∷ rs

abbrev sort : List (Rule String) → List (Rule String)
sort [] = []
sort (r ∷ rs) = put_in r (sort rs)

abbrev grow : ℕ → ℕ
grow n = n + n

abbrev loaded : Engine String
loaded = load_rules library.compile sort grow (late ∷ early ∷ []) engine

inspect-load_rules_example :
    Decides library false request (early ∷ late ∷ []) (inspect library request loaded)
unfolding compile_all
inspect-load_rules_example =
    inspect-load_rules library sort grow (late ∷ early ∷ []) request engine ((refl, tt), (tt, tt))

get_rule-load_rules_test :
    (get_all_rules loaded ≡ early ∷ late ∷ []) × (get_rule "R1" loaded ≡ some early)
unfolding compile_all last_place
get_rule-load_rules_test =
    get_rule-load_rules library.compile sort grow (late ∷ early ∷ []) "R1" engine

get_rule_swapped_test : (get_rule "R1" loaded ≡ some early) × (get_rule "R2" loaded ≡ some late)
get_rule_swapped_test =
    get_rule_swapped library.compile sort grow late early engine (agrees_false→ne "R1" "R2" refl)
      refl

update_rule-get_all_rules_test :
    (get_all_rules (update_rule library.compile sort grow "R9" late loaded).0
      ≡ get_all_rules loaded)
    × ((update_rule library.compile sort grow "R9" late loaded).1 ≡ some not_found)
unfolding load_rules compile_all sort_rules point_at
update_rule-get_all_rules_test =
    update_rule-get_all_rules library.compile sort grow "R9" late loaded

abbrev third : Rule String
third = rule "R3" 30 "path.raw"

abbrev grown : Engine String
grown = (add_rule library.compile sort grow third loaded).0

update_rule-add_rule-load_rules_example :
    (get_all_rules (update_rule library.compile sort grow "R1" third grown).0
      ≡ sort (get_all_rules grown))
    × ((update_rule library.compile sort grow "R1" third grown).1 ≡ none)
unfolding compile_all last_place add_rule insert_rule load_rules point_at sort_rules
update_rule-add_rule-load_rules_example =
    update_rule-add_rule-load_rules library.compile sort grow (late ∷ early ∷ []) third third "R1" 0
      engine refl refl (agrees_false→ne "R1" "R3" refl) refl

delete_rule-get_all_rules_test :
    ((loaded.by_id "R1" ≡ none)
      × (delete_rule library.compile sort grow "R1" loaded ≡ (loaded, some not_found)))
    ⊎ (((delete_rule library.compile sort grow "R1" loaded).1 ≡ none)
        × (get_all_rules (delete_rule library.compile sort grow "R1" loaded).0
            ≡ filter (λ r. not (r.id == "R1")) (get_all_rules loaded))
        × (get_rule "R1" (delete_rule library.compile sort grow "R1" loaded).0 ≡ none))
delete_rule-get_all_rules_test = delete_rule-get_all_rules library.compile sort grow "R1" loaded

old_array : (p : Pointer) → loaded.by_id "R2" ≡ some p → p.array ≢ loaded.fresh
unfolding load_rules compile_all sort_rules point_at
old_array p named =
    let first : ◌≡◌ {A = ℕ} 0 p.array =
      ap (λ found. elim found [ none ↦ 0 | some q ↦ q.array ]) named in
    omega (arith, first)

get_rule-delete_rule_ne_test :
    get_rule "R2" (delete_rule library.compile sort grow "R1" loaded).0 ≡ get_rule "R2" loaded
unfolding load_rules compile_all sort_rules point_at
get_rule-delete_rule_ne_test =
    get_rule-delete_rule_ne library.compile sort grow "R1" "R2" loaded
      (agrees_false→ne "R1" "R2" refl) (λ p named. old_array p named)

evaluate_rule-default_rules_test :
    All (λ r. (r.id ≡ "PLATFORM003") ⊎ (evaluate_rule library request r ≡ some false)) default_rules
evaluate_rule-default_rules_test = evaluate_rule-default_rules library request refl refl refl
