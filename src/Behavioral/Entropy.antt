-- ===== src/Behavioral/Entropy.antt =====
-- checkPathEntropy of internal/engine/behavioral.go. A part of the path is a list of
-- runes, the text being valid UTF-8. The comparison of
-- the normalized entropy with 0.85 is multiplied out: with l bytes, r runes and c of them alike for each rune
-- of the part, it is l^(100 r) > l^(85 l) * (product of the c^(100 c)), without the rounding of float64.
use fortress_waf.Base.{
  ℕ, ◌+◌, ◌*◌, ◌^◌, min, Bool, String, List, [], ◌∷◌, ltb, nat_beq, filter, length, ◌&&◌, ◌||◌,
  if◌then◌else◌, ◌==◌, text_keys,
}

-- The bytes of a rune in UTF-8.
abbrev rune_len : ℕ → ℕ
rune_len c = if ltb c 128 then 1 else if ltb c 2048 then 2 else if ltb c 65536 then 3 else 4

abbrev byte_len : List ℕ → ℕ
byte_len [] = 0
byte_len (c ∷ part) = rune_len c + byte_len part

abbrev occurrences : ℕ → List ℕ → ℕ
occurrences c part = length (filter (λ d. nat_beq d c) part)

-- The product of c^(100 c) over the different runes of `rest`, each counted in `part`; `seen` are those before.
abbrev spread : List ℕ → List ℕ → List ℕ → ℕ
spread part seen [] = 1
spread part seen (c ∷ rest) =
    let later = spread part (c ∷ seen) rest in
    let count = occurrences c part in
    if nat_beq (occurrences c seen) 0 then count ^ (100 * count) * later else later

-- `normalized > 0.85`
unfoldable pub is_uneven : List ℕ → Bool
is_uneven part =
    let l = byte_len part in ltb (l ^ (85 * l) * spread part [] part) (l ^ (100 * length part))

-- The functions of the packages strings and regexp: the parts of a path, as `parts` takes them, and the test
-- of the expression for names that look random.
module _ (parts : String → List (List ℕ)) (looks_random : List ℕ → Bool) where
  -- What one part adds.
  unfoldable pub part_score : List ℕ → ℕ
  part_score part =
      let l = byte_len part in
      if ltb l 4
      then 0
      else (if looks_random part then 15 else 0)
        + (if ltb 8 l && is_uneven part then 20 else 0)
        + (if ltb 16 l then 10 else 0)

  unfoldable pub sum_parts : List (List ℕ) → ℕ
  sum_parts [] = 0
  sum_parts (part ∷ rest) = part_score part + sum_parts rest

  unfoldable pub check_path_entropy : String → ℕ
  check_path_entropy path = if path == "" || path == "/" then 0 else min (sum_parts (parts path)) 50
