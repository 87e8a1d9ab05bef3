-- ===== src/Graphql/Measure/Depth.antt =====
-- countDepth of internal/engine/graphql.go on texts with matching braces.
use fortress_waf.Base.{
  ℕ, ◌+◌, ◌-◌, ◌≤◌, ◌≡◌, refl, sym, append_nil, ◌∙◌, ap, true, false, List, [], ◌∷◌, ◌++◌,
  append_assoc, nat_beq, nat_beq_iff, max, Bool-cases, inl, inr, arith,
}
use fortress_waf.Graphql.Text.{split_lines, add_to_first}
use fortress_waf.Graphql.Measure.{Depths, step_rune, step_line, step_lines, count_depth}

-- A text in which every brace has its partner.
pub data Nested : Type 0 where
  nothing : Nested
  plain : ℕ → Nested → Nested
  braces : Nested → Nested → Nested

abbrev pub written : Nested → List ℕ
written nothing = []
written (plain c later) = c ∷ written later
written (braces inner later) = 123 ∷ (written inner ++ 125 ∷ written later)

-- How many braces stand around the innermost text.
abbrev pub nesting : Nested → ℕ
nesting nothing = 0
nesting (plain c later) = nesting later
nesting (braces inner later) = max (nesting inner + 1) (nesting later)

-- The other characters are no braces.
abbrev pub IsPlain : Nested → Type 0
IsPlain nothing = Unit
IsPlain (plain c later) = ((nat_beq c 123 ≡ false) × (nat_beq c 125 ≡ false)) × IsPlain later
IsPlain (braces inner later) = IsPlain inner × IsPlain later

abbrev depths : ℕ → ℕ → Depths
depths g c = record { greatest = g; current = c }

step_lines-add_to_first :
    (c : ℕ) (lines : List (List ℕ)) (d : Depths)
    → step_lines (add_to_first c lines) d ≡ step_lines lines (step_rune c d)
step_lines-add_to_first c [] d = refl
step_lines-add_to_first c (line ∷ lines) d = refl

plain_step :
    (c : ℕ) (d : Depths) → nat_beq c 123 ≡ false → nat_beq c 125 ≡ false → step_rune c d ≡ d
unfolding step_rune
plain_step c d no_open no_close = rw (step_rune, no_open, no_close) refl

newline : (c : ℕ) (d : Depths) → nat_beq c 10 ≡ true → step_rune c d ≡ d
unfolding step_rune
newline c d h =
    let e = (nat_beq_iff c 10).0 h in
    let open_brace : nat_beq c 123 ≡ false = rw e refl in
    let close_brace : nat_beq c 125 ≡ false = rw e refl in
    rw (step_rune, open_brace, close_brace) refl

-- The lines are no matter.
step_lines-split_lines : (q : List ℕ) (d : Depths) → step_lines (split_lines q) d ≡ step_line q d
step_lines-split_lines [] d = refl
step_lines-split_lines (c ∷ q) d = elim (Bool-cases (nat_beq c 10)) [
  | inl ends ↦ rw (ends, newline c d ends) (step_lines-split_lines q d)
  | inr other ↦
      rw other
        (step_lines-add_to_first c (split_lines q) d ∙ step_lines-split_lines q (step_rune c d))
]

step_line-written :
    (t : Nested) (rest : List ℕ) (g c : ℕ)
    → IsPlain t
    → c ≤ g
    → step_line (written t ++ rest) (depths g c) ≡ step_line rest (depths (max g (c + nesting t)) c)
unfolding step_rune
step_line-written nothing rest g c p h = let e : max g (c + 0) ≡ g = omega (arith, h) in rw e refl
step_line-written (plain x later) rest g c ((no_open, no_close), p) h =
    ap (λ d. step_line (written later ++ rest) d) (plain_step x (depths g c) no_open no_close)
    ∙ step_line-written later rest g c p h
step_line-written (braces inner later) rest g c (p, q) h =
    let regroup : (written inner ++ 125 ∷ written later) ++ rest
        ≡ written inner ++ 125 ∷ (written later ++ rest) =
      append_assoc (written inner) (125 ∷ written later) rest in
    let inside =
      step_line-written inner (125 ∷ (written later ++ rest)) (max g (c + 1)) (c + 1) p
        (omega (arith, h)) in
    let back : c + 1 - 1 ≡ c = omega arith in
    let after =
      step_line-written later rest (max (max g (c + 1)) (c + 1 + nesting inner)) c q
        (omega (arith, h)) in
    let total : max (max (max g (c + 1)) (c + 1 + nesting inner)) (c + nesting later)
        ≡ max g (c + max (nesting inner + 1) (nesting later)) =
      omega (arith, h) in
    ap (λ text. step_line text (depths (max g (c + 1)) (c + 1))) regroup
    ∙ inside
    ∙ ap
        (λ k.
          step_line (written later ++ rest)
            (depths (max (max g (c + 1)) (c + 1 + nesting inner)) k))
        back
    ∙ after
    ∙ ap (λ k. step_line rest (depths k c)) total

-- countDepth of a text in which every brace has its partner is how deep the braces nest, over all lines.
pub count_depth-written : (t : Nested) → IsPlain t → count_depth (written t) ≡ nesting t
unfolding count_depth
count_depth-written t p =
    let nil : written t ++ [] ≡ written t = append_nil (written t) in
    let e = step_line-written t [] 0 0 p (omega arith) in
    let whole : step_line (written t) (depths 0 0) ≡ depths (max 0 (0 + nesting t)) 0 =
      ap (λ text. step_line text (depths 0 0)) (sym nil) ∙ e in
    ap (λ (d : Depths). d.greatest) (step_lines-split_lines (written t) (depths 0 0) ∙ whole)
    ∙ omega arith
