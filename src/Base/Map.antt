-- ===== src/Base/Map.antt =====
-- Go's maps. A map is the function that looks a key up; a loop over a map takes the keys in the
-- order of the visit, which Go leaves open, as an argument.
use mathlib.Core.Path.{◌≡◌, refl}
use mathlib.Core.Logic.{◌≢◌}
use mathlib.Core.Option.{Option, none, some}
use fortress_waf.Base.Tests.{if◌then◌else◌}
use fortress_waf.Base.Compare.{Comparable, agrees_self, agrees_ne}

abbrev pub Map {ℓ κ} : Type ℓ → Type κ → Type (ℓ ⊔ κ)
Map K V = K → Option V

abbrev pub empty {ℓ κ} : {K : Type ℓ} {V : Type κ} → Map K V
empty k = none

module _ {ℓ κ} {K : Type ℓ} {V : Type κ} ⦃e : Comparable K⦄ where
  -- `m[k] = v`
  abbrev pub put : K → V → Map K V → Map K V
  put k v m j = if e.agrees k j then some v else m j

  -- `delete(m, k)`
  abbrev pub delete : K → Map K V → Map K V
  delete k m j = if e.agrees k j then none else m j

  pub put_self : (k : K) (v : V) (m : Map K V) → put k v m k ≡ some v
  put_self k v m = rw (agrees_self k)

  pub put_ne : (k j : K) (v : V) (m : Map K V) → k ≢ j → put k v m j ≡ m j
  put_ne k j v m h = rw (agrees_ne k j h)

  pub delete_self : (k : K) (m : Map K V) → delete k m k ≡ none
  delete_self k m = rw (agrees_self k)

  pub delete_ne : (k j : K) (m : Map K V) → k ≢ j → delete k m j ≡ m j
  delete_ne k j m h = rw (agrees_ne k j h)

-- `m[k]` in a Go map gives the zero value where the key is missing.
abbrev pub get_zero {ℓ κ} : {K : Type ℓ} {V : Type κ} → V → Map K V → K → V
get_zero z m k = elim (m k) [ none ↦ z | some v ↦ v ]

module _ {ℓ κ} {K : Type ℓ} {V : Type κ} ⦃e : Comparable K⦄ where
  pub get_zero-put_self : (z : V) (k : K) (v : V) (m : Map K V) → get_zero z (put k v m) k ≡ v
  get_zero-put_self z k v m = rw (get_zero, agrees_self k) refl

  pub get_zero-put_ne :
      (z : V) (k j : K) (v : V) (m : Map K V) → k ≢ j → get_zero z (put k v m) j ≡ get_zero z m j
  get_zero-put_ne z k j v m h = rw (get_zero, agrees_ne k j h) refl
