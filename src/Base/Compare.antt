-- ===== src/Base/Compare.antt =====
-- Types whose values can be compared, as Go's `==` compares map keys.
use Prim.Native.Nat.{ℕ}
use Prim.Native.String.{String}
use mathlib.Core.Path.{◌≡◌}
use mathlib.Core.Logic.{◌↔◌, ◌≢◌}
use mathlib.Core.Bool.{Bool, true, false, ◌&&◌}
use native.Mathlib.Omega.{arith}
use text.Mathlib.Text.{◌==◌ as str_eq}
use text.Mathlib.TextEquality.{eq_iff}
use fortress_waf.Base.Tests.{nat_beq, nat_beq_iff}

-- The keys of a map: their test, and what it decides.
pub record Comparable {κ} (K : Type κ) : Type κ where
  pub agrees : K → K → Bool
  pub agrees_iff : (j k : K) → (agrees j k ≡ true) ↔ (j ≡ k)

module _ {κ} {K L : Type κ} ⦃d : Comparable K⦄ ⦃e : Comparable L⦄ where
  abbrev pub pair_agrees : K × L → K × L → Bool
  pair_agrees (j, l) (j', l') = d.agrees j j' && e.agrees l l'

  pub pair_agrees_iff : (p q : K × L) → (pair_agrees p q ≡ true) ↔ (p ≡ q)
  pair_agrees_iff p q = ground (arith, d.agrees_iff p.0 q.0, e.agrees_iff p.1 q.1)

instance abbrev pub text_keys : Comparable String
text_keys = record { agrees_iff = eq_iff; agrees = str_eq }

instance abbrev pub pair_keys {κ} :
    {K L : Type κ} ⦃d : Comparable K⦄ ⦃e : Comparable L⦄ → Comparable (K × L)
pair_keys = record { agrees_iff = pair_agrees_iff; agrees = pair_agrees }

instance abbrev pub number_keys : Comparable ℕ
number_keys = record { agrees_iff = nat_beq_iff; agrees = nat_beq }

module _ {κ} {K : Type κ} ⦃keys : Comparable K⦄ where
  pub agrees_self : (k : K) → keys.agrees k k ≡ true
  agrees_self k = ground (arith, keys.agrees_iff k k)

  pub agrees_ne : (j k : K) → j ≢ k → keys.agrees j k ≡ false
  agrees_ne j k h = ground (arith, keys.agrees_iff j k)

  pub agrees_false→ne : (j k : K) → keys.agrees j k ≡ false → j ≢ k
  agrees_false→ne j k h = ground (arith, keys.agrees_iff j k)

infix 50 ◌==◌
abbrev pub ◌==◌ {κ} : {K : Type κ} ⦃keys : Comparable K⦄ (j k : K) → Bool
◌==◌ ⦃keys⦄ j k = keys.agrees j k
