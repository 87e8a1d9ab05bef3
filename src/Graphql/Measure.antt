-- ===== src/Graphql/Measure.antt =====
-- countDepth, countPageSize and calculateCost of internal/engine/graphql.go.
pub mod Depth
pub mod PageSize
pub mod Cost
use fortress_waf.Base.{
  ℕ, zero, suc, ◌+◌, ◌-◌, ◌*◌, ◌%◌, ◌^◌, Bool, true, false, ◌&&◌, ◌||◌, List, [], ◌∷◌, Option, none,
  some, length, drop, get_elem?, ltb, leb, nat_beq, if◌then◌else◌, max,
}
use fortress_waf.Base.Bytes.{take}
use fortress_waf.Base.Int.{ℤ, signed}
use fortress_waf.Graphql.Text.{bytes, index, count, split_lines}

-- The two counters of countDepth: the greatest depth and the depth here.
pub record Depths : Type 0 where
  pub greatest : ℕ
  pub current : ℕ

-- One rune of a line. The bytes of other runes are never those of a brace.
unfoldable pub step_rune : ℕ → Depths → Depths
step_rune c d =
    if nat_beq c 123
    then record { greatest = max d.greatest (d.current + 1); current = d.current + 1 }
    else if nat_beq c 125
    then record d { current = d.current - 1 }
    else d

abbrev pub step_line : List ℕ → Depths → Depths
step_line [] d = d
step_line (c ∷ line) d = step_line line (step_rune c d)

abbrev pub step_lines : List (List ℕ) → Depths → Depths
step_lines [] d = d
step_lines (line ∷ lines) d = step_lines lines (step_line line d)

unfoldable pub count_depth : List ℕ → ℕ
count_depth q = (step_lines (split_lines q) (record { greatest = 0; current = 0 })).greatest

-- Whether the text goes on at a position, with a byte that passes.
abbrev pub passes_at : (ℕ → Bool) → List ℕ → ℕ → Bool
passes_at p q i = elim (get_elem? q i) [ none ↦ false | some c ↦ p c ]

-- `for i < len(q) && p(q[i]) { i++ }`, for at most so many rounds.
abbrev pub scan : (ℕ → Bool) → ℕ → List ℕ → ℕ → ℕ
scan p zero q i = i
scan p (suc rounds) q i = let rest = scan p rounds q (i + 1) in if passes_at p q i then rest else i

abbrev pub is_blank : ℕ → Bool
is_blank c = nat_beq c 32 || nat_beq c 9

abbrev pub is_digit : ℕ → Bool
is_digit c = leb 48 c && leb c 57

abbrev pub decimal_from : ℕ → List ℕ → ℕ
decimal_from acc [] = acc
decimal_from acc (c ∷ digits) = decimal_from (acc * 10 + (c - 48)) digits

-- `strconv.Atoi` of digits.
unfoldable pub atoi : List ℕ → Option ℕ
atoi digits = if ltb (decimal_from 0 digits) (2 ^ 63) then some (decimal_from 0 digits) else none

-- The size that digits give, or the one of before.
abbrev pub size_of : List ℕ → ℕ
size_of digits = elim (atoi digits) [ none ↦ 100 | some size ↦ size ]

-- The size that is read from a position on, with as many rounds for each loop as the text has bytes.
unfoldable pub size_at : List ℕ → ℕ → ℕ
size_at q i =
    let start = scan is_blank (length q) q i in
    let end = scan is_digit (length q) q start in
    if ltb start end then size_of (take (end - start) (drop start q)) else 100

-- `lower` is strings.ToLower.
module _ (lower : List ℕ → List ℕ) where
  unfoldable pub count_page_size : List ℕ → ℕ
  count_page_size q = elim (index (bytes "first:") (lower q)) [
    | none ↦ 100
    | some first_pos ↦ size_at q (first_pos + 6)
  ]

  -- The sum of the costs of the words.
  unfoldable pub word_cost : List ℕ → ℕ
  word_cost text =
      count text (bytes "query")
      + count text (bytes "mutation") * 10
      + count text (bytes "subscription") * 100
      + count text (bytes "fragment") * 5
      + count text (bytes "... on") * 20
      + count text (bytes "@include") * 2
      + count text (bytes "@skip") * 2
      + count text (bytes "@deprecated")

  -- The cost as an int, which wraps around.
  unfoldable pub calculate_cost : List ℕ → ℤ
  calculate_cost q = signed ((word_cost (lower q) + count_page_size q * count_page_size q) % 2 ^ 64)
