-- ===== src/Graphql/Measure/Cost.antt =====
-- calculateCost of internal/engine/graphql.go at the two ends of a page size.
use fortress_waf.Base.{
  ℕ, ◌+◌, ◌*◌, ◌%◌, ◌^◌, ◌<◌, ◌≡◌, refl, sym, ◌∙◌, ap, List, none, lt→ltb, arith,
}
use native.Mathlib.Nat.{add-mul-mod_self_right, mul_assoc, mul_comm, mod-eq_of_lt}
use fortress_waf.Base.Int.{pos, signed}
use fortress_waf.Graphql.Text.{bytes, index}
use fortress_waf.Graphql.Measure.{count_page_size, word_cost, calculate_cost}

square_of_multiple : (k : ℕ) → (k * 2 ^ 32) * (k * 2 ^ 32) ≡ (k * k) * 2 ^ 64
square_of_multiple k =
    mul_assoc k (2 ^ 32) (k * 2 ^ 32)
    ∙ ap (λ n. k * n) (mul_comm (2 ^ 32) (k * 2 ^ 32) ∙ mul_assoc k (2 ^ 32) (2 ^ 32))
    ∙ sym (mul_assoc k k (2 ^ 64))

wrapped : (w k : ℕ) → w < 2 ^ 63 → (w + (k * 2 ^ 32) * (k * 2 ^ 32)) % 2 ^ 64 ≡ w
wrapped w k small =
    ap (λ n. (w + n) % 2 ^ 64) (square_of_multiple k)
    ∙ add-mul-mod_self_right w (k * k) (2 ^ 64)
    ∙ mod-eq_of_lt (omega (arith, small))

-- A page size that is a multiple of 2^32 costs nothing: the cost is that of the words, where that is below 2^63.
pub calculate_cost-wraps :
    (lower : List ℕ → List ℕ) (q : List ℕ) (k : ℕ)
    → word_cost lower (lower q) < 2 ^ 63
    → count_page_size lower q ≡ k * 2 ^ 32
    → calculate_cost lower q ≡ pos (word_cost lower (lower q))
unfolding calculate_cost
calculate_cost-wraps lower q k small size =
    let w = word_cost lower (lower q) in
    let e : (w + count_page_size lower q * count_page_size lower q) % 2 ^ 64 ≡ w =
      ap (λ p. (w + p * p) % 2 ^ 64) size ∙ wrapped w k small in
    let low = lt→ltb w (2 ^ 63) small in ap (λ n. signed n) e ∙ rw low refl

-- A text without a page size is priced as one of 100.
pub calculate_cost-default :
    (lower : List ℕ → List ℕ) (q : List ℕ)
    → word_cost lower (lower q) + 10000 < 2 ^ 63
    → index (bytes "first:") (lower q) ≡ none
    → calculate_cost lower q ≡ pos (word_cost lower (lower q) + 10000)
unfolding calculate_cost count_page_size
calculate_cost-default lower q small missing =
    let w = word_cost lower (lower q) in
    let size : count_page_size lower q ≡ 100 = rw (count_page_size, missing) refl in
    let e : (w + count_page_size lower q * count_page_size lower q) % 2 ^ 64 ≡ w + 10000 =
      ap (λ p. (w + p * p) % 2 ^ 64) size ∙ mod-eq_of_lt (omega (arith, small)) in
    let low = lt→ltb (w + 10000) (2 ^ 63) small in ap (λ n. signed n) e ∙ rw low refl
