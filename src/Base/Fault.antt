-- ===== src/Base/Fault.antt =====
-- Code that may stop by a Go run-time panic.

pub data Fault {ℓ} (A : Type ℓ) : Type ℓ where
  ok : A → Fault A
  panic : Fault A

infixl 5 ◌>>=◌
abbrev pub ◌>>=◌ {ℓ κ} : {A : Type ℓ} {B : Type κ} → Fault A → (A → Fault B) → Fault B
ok a >>= f = f a
panic >>= f = panic
