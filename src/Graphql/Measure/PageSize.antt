-- ===== src/Graphql/Measure/PageSize.antt =====
-- The loops of countPageSize of internal/engine/graphql.go.
use fortress_waf.Base.{
  ℕ, zero, suc, ◌+◌, ◌≤◌, ◌≡◌, refl, Bool, true, false, List, [], ◌∷◌, none, length, get_elem?,
  Bool-cases, inl, inr, arith, leb, leb→le, leb_false→lt,
}
use fortress_waf.Graphql.Measure.{passes_at, scan}

-- A position behind the text.
get_elem?-end : (q : List ℕ) (i : ℕ) → length q ≤ i → get_elem? q i ≡ none
get_elem?-end [] i h = refl
get_elem?-end (c ∷ q) zero h = absurd (omega (arith, h))
get_elem?-end (c ∷ q) (suc i) h = get_elem?-end q i (omega (arith, h))

-- The loop ends by its test.
scan-stops :
    (p : ℕ → Bool) (rounds : ℕ) (q : List ℕ) (i : ℕ)
    → length q ≤ rounds + i
    → passes_at p q (scan p rounds q i) ≡ false
scan-stops p zero q i h =
    let e : length q ≤ i = omega (arith, h) in rw (passes_at, get_elem?-end q i e) refl
scan-stops p (suc rounds) q i h = elim (Bool-cases (passes_at p q i)) [
  | inl passes ↦ rw passes (scan-stops p rounds q (i + 1) (omega (arith, h)))
  | inr fails ↦ rw fails fails
]

scan-from : (p : ℕ → Bool) (rounds : ℕ) (q : List ℕ) (i : ℕ) → i ≤ scan p rounds q i
scan-from p zero q i = omega arith
scan-from p (suc rounds) q i = elim (Bool-cases (passes_at p q i)) [
  | inl passes ↦ let e = scan-from p rounds q (i + 1) in rw passes (omega (arith, e))
  | inr fails ↦ rw fails (omega arith)
]

-- Every position that the loop passes holds a byte that passes the test.
scan-passes :
    (p : ℕ → Bool) (rounds : ℕ) (q : List ℕ) (i j : ℕ)
    → i ≤ j
    → suc j ≤ scan p rounds q i
    → passes_at p q j ≡ true
scan-passes p zero q i j h k = absurd (omega (arith, h, k))
scan-passes p (suc rounds) q i j h k = elim (Bool-cases (passes_at p q i)) [
  | inr fails ↦ let e : suc j ≤ i = rw fails at k in absurd (omega (arith, h, e))
  | inl passes ↦
      let e : suc j ≤ scan p rounds q (i + 1) = rw passes at k in
      elim (Bool-cases (leb j i)) [
        | inl first ↦ let same : j ≡ i = omega (arith, h, leb→le j i first) in rw same passes
        | inr later ↦ scan-passes p rounds q (i + 1) j (omega (arith, leb_false→lt j i later)) e
      ]
]

-- A loop of countPageSize that may take as many rounds as the text has bytes ends by its test: it leaves the first
-- position from its start on where the text ends or a byte does not pass.
pub scan_total :
    (p : ℕ → Bool) (q : List ℕ) (i : ℕ)
    → (passes_at p q (scan p (length q) q i) ≡ false)
      × ((i ≤ scan p (length q) q i)
          × ((j : ℕ) → i ≤ j → suc j ≤ scan p (length q) q i → passes_at p q j ≡ true))
scan_total p q i = (
  scan-stops p (length q) q i (omega arith),
  (scan-from p (length q) q i, λ j. scan-passes p (length q) q i j),
)
