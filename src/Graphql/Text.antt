-- ===== src/Graphql/Text.antt =====
-- The functions of strings on bytes that internal/engine/graphql.go calls: Index, Count, Contains and Split.
use Prim.Native.Char.{code}
use Prim.Native.String.{String}
use fortress_waf.Base.{
  ℕ, zero, suc, ◌+◌, ◌-◌, Bool, true, false, ◌&&◌, List, [], ◌∷◌, Option, none, some, length,
  nat_beq, if◌then◌else◌,
}

-- The bytes of an ASCII text.
abbrev pub bytes : String → List ℕ
bytes String.[] = []
bytes (String.◌∷◌ c s) = code c ∷ bytes s

-- `strings.HasPrefix`
abbrev pub has_prefix : List ℕ → List ℕ → Bool
has_prefix text [] = true
has_prefix [] (p ∷ ps) = false
has_prefix (c ∷ text) (p ∷ ps) = nat_beq c p && has_prefix text ps

-- `strings.Index`, where `i` bytes stand before the text.
abbrev pub index_from : List ℕ → ℕ → List ℕ → Option ℕ
index_from pattern_text i [] = if has_prefix [] pattern_text then some i else none
index_from pattern_text i (c ∷ text) =
    let later = index_from pattern_text (i + 1) text in
    if has_prefix (c ∷ text) pattern_text then some i else later

abbrev pub index : List ℕ → List ℕ → Option ℕ
index pattern_text text = index_from pattern_text 0 text

abbrev pub contains : List ℕ → List ℕ → Bool
contains text pattern_text = elim (index pattern_text text) [ none ↦ false | some i ↦ true ]

-- `strings.Count` of a text that is not empty; `skip` bytes belong to the last one that was counted.
abbrev pub count_from : List ℕ → ℕ → List ℕ → ℕ
count_from pattern_text skip [] = 0
count_from pattern_text (suc skip) (c ∷ text) = count_from pattern_text skip text
count_from pattern_text zero (c ∷ text) =
    let found = count_from pattern_text (length pattern_text - 1) text in
    let missed = count_from pattern_text zero text in
    if has_prefix (c ∷ text) pattern_text then suc found else missed

abbrev pub count : List ℕ → List ℕ → ℕ
count text pattern_text = count_from pattern_text zero text

-- The line that begins, before the lines that follow.
abbrev pub add_to_first : ℕ → List (List ℕ) → List (List ℕ)
add_to_first c [] = (c ∷ []) ∷ []
add_to_first c (line ∷ lines) = (c ∷ line) ∷ lines

-- `strings.Split(text, "\n")`
abbrev pub split_lines : List ℕ → List (List ℕ)
split_lines [] = [] ∷ []
split_lines (c ∷ text) =
    let rest = split_lines text in if nat_beq c 10 then [] ∷ rest else add_to_first c rest
