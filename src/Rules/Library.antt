-- ===== src/Rules/Library.antt =====
-- What the rule engine takes from Go's standard library: `regexp`, `net`, `strings`, `fmt`.
use fortress_waf.Base.{ℕ, Bool, String, List, Option}

-- `split_dot` is `strings.SplitN(s, ".", 2)`, with `none` for a text with no dot, and `split_comma`
-- is `strings.Split(s, ",")`. `scan` is the `%f` of `fmt.Sscanf`, with its zero where nothing is
-- read, and `greater` is `>` on float64.
pub record Library : Type 1 where
  pub Regex : Type 0
  pub Address : Type 0
  pub Network : Type 0
  pub Number : Type 0
  pub compile : String → Option Regex
  pub matches : Regex → String → Bool
  pub parse_ip : String → Option Address
  pub show_ip : Address → String
  pub parse_cidr : String → Option Network
  pub within : Network → Address → Bool
  pub scan : String → Number
  pub greater : Number → Number → Bool
  pub split_dot : String → Option (String × String)
  pub split_comma : String → List String
  pub equal_fold : String → String → Bool
  pub contains : String → String → Bool
  pub has_prefix : String → String → Bool
  pub has_suffix : String → String → Bool
  pub to_lower : String → String
  pub to_upper : String → String
  pub trim_space : String → String
  pub compress_whitespace : String → String
  pub replace_all : String → String → String → String
  pub show_number : ℕ → String
