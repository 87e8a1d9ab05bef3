-- ===== src/Base/Bytes.antt =====
-- Byte strings as lists of numbers, and the exclusive or of two bytes.
use Prim.Native.Nat.{ℕ, zero, suc, ◌+◌, ◌*◌, ◌≤◌, ◌<◌, bit_xor}
use mathlib.Core.Path.{◌≡◌, refl, ap}
use mathlib.Core.Bool.{Bool, true, ◌&&◌}
use mathlib.Core.List.{List, [], ◌∷◌, ◌++◌}
use native.Mathlib.Omega.{arith}
use fortress_waf.Base.Tests.{nat_beq, nat_beq_iff}
use fortress_waf.Base.Lists.{All, length, drop}

-- Whether every number below `n` passes the test.
abbrev below : ℕ → (ℕ → Bool) → Bool
below zero p = true
below (suc n) p = p n && below n p

below_sound : (n : ℕ) (p : ℕ → Bool) (x : ℕ) → below n p ≡ true → x < n → p x ≡ true
below_sound zero p x h lt = absurd (omega arith)
below_sound (suc n) p x h lt = ground (arith, below_sound n p x)

xor_table : below 256 (λ k. below 256 (λ b. nat_beq (bit_xor (bit_xor b k) k) b)) ≡ true
xor_table = refl

pub xor_twice : (b k : ℕ) → b < 256 → k < 256 → bit_xor (bit_xor b k) k ≡ b
xor_twice b k hb hk =
    let row =
      below_sound 256 (λ k. below 256 (λ b. nat_beq (bit_xor (bit_xor b k) k) b)) k xor_table hk in
    (nat_beq_iff (bit_xor (bit_xor b k) k) b).0
      (below_sound 256 (λ b. nat_beq (bit_xor (bit_xor b k) k) b) b row hb)

-- The number that bytes stand for, the highest byte first.
abbrev pub big_endian_from : ℕ → List ℕ → ℕ
big_endian_from acc [] = acc
big_endian_from acc (b ∷ bs) = big_endian_from (acc * 256 + b) bs

module _ {ℓ} {A : Type ℓ} where
  -- `xs[:n]`
  abbrev pub take : ℕ → List A → List A
  take zero xs = []
  take (suc n) [] = []
  take (suc n) (x ∷ xs) = x ∷ take n xs

  pub take-append_length : (xs ys : List A) → take (length xs) (xs ++ ys) ≡ xs
  take-append_length [] ys = refl
  take-append_length (x ∷ xs) ys = ap (λ l. x ∷ l) (take-append_length xs ys)

  pub take-all : (xs : List A) → take (length xs) xs ≡ xs
  take-all [] = refl
  take-all (x ∷ xs) = ap (λ l. x ∷ l) (take-all xs)

  pub drop-append_length : (xs ys : List A) → drop (length xs) (xs ++ ys) ≡ ys
  drop-append_length [] ys = refl
  drop-append_length (x ∷ xs) ys = drop-append_length xs ys

  pub drop-add : (k : ℕ) (xs ys : List A) → drop (length xs + k) (xs ++ ys) ≡ drop k ys
  drop-add k [] ys = let e : 0 + k ≡ k = omega arith in rw e refl
  drop-add k (x ∷ xs) ys =
      let e : suc (length xs) + k ≡ suc (length xs + k) = omega arith in rw e (drop-add k xs ys)

-- The number of `k` bytes of 255 after `m`.
abbrev pub top_from : ℕ → ℕ → ℕ
top_from zero m = m
top_from (suc k) m = top_from k (m * 256 + 255)

top_from_ge : (k m acc : ℕ) → acc ≤ m → acc ≤ top_from k m
top_from_ge zero m acc h = h
top_from_ge (suc k) m acc h = top_from_ge k (m * 256 + 255) acc (omega arith)

-- The number of the first `k` bytes of a byte string.
pub big_endian_from-le :
    (k acc m : ℕ) (bytes : List ℕ)
    → acc ≤ m
    → All (λ b. b < 256) bytes
    → big_endian_from acc (take k bytes) ≤ top_from k m
big_endian_from-le zero acc m bytes le h = le
big_endian_from-le (suc k) acc m [] le h = top_from_ge k (m * 256 + 255) acc (omega arith)
big_endian_from-le (suc k) acc m (b ∷ bytes) le (hb, h) =
    big_endian_from-le k (acc * 256 + b) (m * 256 + 255) bytes (omega arith) h
