-- ===== src/Billing/License/Tests.antt =====
-- A run of the model of internal/billing/license.go with simple functions in place of the libraries.
use fortress_waf.Base.{
  ℕ, ◌+◌, ◌-◌, ◌≡◌, ◌≤◌, refl, Bool, true, false, List, [], ◌∷◌, ◌++◌, map, drop, Option, none,
  some, inl, inr, arith, nat_beq, nat_beq_iff, ◌&&◌, if◌then◌else◌,
}
use fortress_waf.Base.Bytes.{take}
use fortress_waf.Billing.License.{
  LicenseClaims, LicenseLibrary, generate, invalid_signature, license_prefix, trial_claims,
  validate,
}
use fortress_waf.Billing.License.Prefix.{IsDotless, validate-generate}

abbrev equal : List ℕ → List ℕ → Bool
equal [] [] = true
equal [] (y ∷ ys) = false
equal (x ∷ xs) [] = false
equal (x ∷ xs) (y ∷ ys) = nat_beq x y && equal xs ys

equal_sound : (xs ys : List ℕ) → equal xs ys ≡ true → xs ≡ ys
equal_sound [] [] h = refl
equal_sound [] (y ∷ ys) h = ground (arith, h)
equal_sound (x ∷ xs) [] h = ground (arith, h)
equal_sound (x ∷ xs) (y ∷ ys) h =
    let e : x ≡ y = ground (arith, h, nat_beq_iff x y) in
    let es : xs ≡ ys = equal_sound xs ys (ground (arith, h)) in rw (e, es) refl

abbrev push : ℕ → List (List ℕ) → List (List ℕ)
push c [] = []
push c (p ∷ ps) = (c ∷ p) ∷ ps

abbrev split : List ℕ → List (List ℕ)
split [] = [] ∷ []
split (c ∷ cs) = let rest = split cs in if nat_beq c 46 then [] ∷ rest else push c rest

split_dotless : (y : List ℕ) → IsDotless y → split y ≡ y ∷ []
split_dotless [] h = refl
split_dotless (c ∷ y) (hc, h) =
    let e : nat_beq c 46 ≡ false = ground (arith, hc) in rw (e, split_dotless y h) refl

split-SplitsDots : (x y : List ℕ) → IsDotless x → IsDotless y → split (x ++ 46 ∷ y) ≡ x ∷ y ∷ []
split-SplitsDots [] y hx hy = rw (split_dotless y hy) refl
split-SplitsDots (c ∷ x) y (hc, hx) hy =
    let e : nat_beq c 46 ≡ false = ground (arith, hc) in rw (e, split-SplitsDots x y hx hy) refl

abbrev shift : List ℕ → List ℕ
shift = map (λ b. b + 100)

abbrev unshift : List ℕ → List ℕ
unshift = map (λ b. b - 100)

-- The first four letters stand for three bytes.
abbrev decode_text : List ℕ → Option (List ℕ)
decode_text text =
    if equal (take 4 text) license_prefix
    then some (21 ∷ 98 ∷ 254 ∷ unshift (drop 4 text))
    else some (unshift text)

abbrev claims : LicenseClaims
claims = trial_claims "TRIAL-1" 1000

-- The claims are written as one byte.
abbrev library : LicenseLibrary ℕ
library = record {
  marshal = λ c. some (7 ∷ []);
  unmarshal = λ json. if equal json (7 ∷ []) then some claims else none;
  encode = shift;
  decode = decode_text;
  hash = λ text. text;
  sign = λ key h. some h;
  verify = λ key h signature. equal h signature;
  split_dot = split;
}

abbrev value : List ℕ → Option (List ℕ) → List ℕ
value z none = z
value z (some v) = v

abbrev token : List ℕ
token = 107 ∷ 46 ∷ 107 ∷ []

validate-generate_example :
    (generate library 0 claims ≡ inr (license_prefix ++ token))
    × (validate library 0 2000 (license_prefix ++ token) ≡ inl invalid_signature)
    × (2000 ≤ claims.grace_until → validate library 0 2000 token ≡ inr claims)
validate-generate_example =
    validate-generate library 0 2000 claims (7 ∷ []) (7 ∷ []) split-SplitsDots refl refl refl refl
      refl ((λ e. omega (arith, e)), tt) ((λ e. omega (arith, e)), tt) refl refl refl
