-- ===== src/Base/Member.antt =====
-- Membership in a list, and the test of an element.
use mathlib.Core.Path.{◌≡◌, refl, sym}
use mathlib.Core.Logic.{◌⊎◌, inl, inr}
use mathlib.Core.Bool.{Bool, true, false, ◌||◌, ◌&&◌, not}
use mathlib.Core.List.{List, [], ◌∷◌, Memᴰ}
use mathlib.Core.List.Memᴰ as Memᴰ
use native.Mathlib.Omega.{arith}
use fortress_waf.Base.Lists.{any}
use fortress_waf.Base.Compare.{Comparable, ◌==◌}

pub or-true : (a b : Bool) → (a || b) ≡ true → (a ≡ true) ⊎ (b ≡ true)
or-true true b h = inl refl
or-true false b h = inr h

pub not_and-true : (a b : Bool) → not (a && b) ≡ true → (a ≡ false) ⊎ (b ≡ false)
not_and-true true b h = inr (ground (arith, h))
not_and-true false b h = inl refl

module _ {ℓ} {A : Type ℓ} where
  pub any-Mem : (p : A → Bool) (xs : List A) → any p xs ≡ true → (x : A) × Memᴰ x xs × (p x ≡ true)
  any-Mem p [] h = absurd (ground (arith, h))
  any-Mem p (x ∷ xs) h = elim (or-true (p x) (any p xs) h) [
    | inl first ↦ (x, Memᴰ.head refl, first)
    | inr later ↦ let (y, member, passes) = any-Mem p xs later in (y, Memᴰ.tail member, passes)
  ]

module _ {κ} {K : Type κ} ⦃keys : Comparable K⦄ where
  pub listed-Mem : (k : K) (ks : List K) → any (λ j. j == k) ks ≡ true → Memᴰ k ks
  listed-Mem k ks h =
      let (j, member, same) = any-Mem (λ j. j == k) ks h in
      Memᴰ.cast (sym ((keys.agrees_iff j k).0 same)) member

  pub Mem-listed : (k : K) (ks : List K) → Memᴰ k ks → any (λ j. j == k) ks ≡ true
  Mem-listed k [] member = absurd (Memᴰ.not-nil member)
  Mem-listed k (j ∷ ks) (Memᴰ.head same) = rw ((keys.agrees_iff j k).1 (sym same)) refl
  Mem-listed k (j ∷ ks) (Memᴰ.tail later) = ground (arith, Mem-listed k ks later)
