-- ===== src/Ddos/CacheBusting.antt =====
-- detectCacheBusting of internal/engine/ddos.go.
use Prim.Native.String.{len}
use fortress_waf.Base.{
  ℕ, suc, ◌+◌, ◌/◌, Bool, true, String, List, [], ◌∷◌, Option, none, some, ◌&&◌, ◌||◌, leb, length,
  if◌then◌else◌,
}
use fortress_waf.Pipeline.Types.{Action}
use fortress_waf.Pipeline.Detection.{Detection, detection}
use fortress_waf.Ddos.Flood.{Request}

-- A hexadecimal digit in ASCII. A byte outside of ASCII belongs to a rune that is no digit.
abbrev pub is_hex_digit : ℕ → Bool
is_hex_digit c = (leb 48 c && leb c 57) || (leb 97 c && leb c 102) || (leb 65 c && leb c 70)

abbrev pub is_hex : List ℕ → Bool
is_hex [] = true
is_hex (c ∷ cs) = is_hex_digit c && is_hex cs

abbrev pub is_random : List ℕ → Bool
is_random value =
    leb 8 (length value) && leb (length value) 32 && (is_hex value || leb 16 (length value))

unfoldable pub count_values : List (List ℕ) → ℕ
count_values [] = 0
count_values (value ∷ values) =
    let rest = count_values values in if is_random value then suc rest else rest

module _ (to_lower : String → String) (contains : String → String → Bool) where
  abbrev pub is_suspect : String → Bool
  is_suspect k =
      let lower = to_lower k in
      contains lower "cache"
      || contains lower "rand"
      || contains lower "t"
      || (contains lower "_" && leb (len k) 3)

  unfoldable pub random_patterns : List (String × List (List ℕ)) → ℕ
  random_patterns [] = 0
  random_patterns ((k, values) ∷ params) =
      let rest = random_patterns params in if is_suspect k then count_values values + rest else rest

  unfoldable pub detect_cache_busting : Request → Option Detection
  detect_cache_busting ctx =
      let param_count = length ctx.query_params in
      if leb 5 param_count && leb (param_count / 2) (random_patterns ctx.query_params)
      then some (detection Action.monitor "DDoS006" "Cache Busting Attack" "medium" 40)
      else none
