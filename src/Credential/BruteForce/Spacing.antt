-- ===== src/Credential/BruteForce/Spacing.antt =====
-- How often detectBruteForce of internal/engine/credential.go lets an address through.
use fortress_waf.Base.{
  ℕ, suc, ◌+◌, ◌*◌, ◌≡◌, ◌≢◌, ◌≤◌, refl, subst, ◌∙◌, Bool, true, false, String, List, [], ◌∷◌,
  Option, none, some, arith, ltb, ◌&&◌, if◌then◌else◌, ◌==◌, text_keys, Option-cases, Bool-cases,
  ◌⊎◌, inl, inr, agrees_self, agrees_false→ne,
}
use text.Mathlib.TextEquality.{eq_iff}
use fortress_waf.Base.Map.{put, put_self, put_ne}
use fortress_waf.Pipeline.Detection.{Detection}
use fortress_waf.Credential.State.{BruteForceTracker, CredentialProtection, second}
use fortress_waf.Credential.BruteForce.{detect_brute_force, retry}

abbrev is_passed : Option Detection → Bool
is_passed none = true
is_passed (some d) = false

-- The times at which a request of the address passes, of requests of any addresses.
unfoldable pub let_through : String → List (String × ℕ) → CredentialProtection → List ℕ
let_through ip [] c = []
let_through ip ((from, now) ∷ requests) c =
    let (c', answer) = detect_brute_force from now c in
    let rest = let_through ip requests c' in
    if is_passed answer && (from == ip) then now ∷ rest else rest

-- Times of which the first is not before `from`, and each is at least `gap` after the one before.
abbrev pub IsSpaced : ℕ → ℕ → List ℕ → Type 0
IsSpaced gap from [] = Unit
IsSpaced gap from (t ∷ times) = (from ≤ t) × IsSpaced gap (t + gap) times

retry_late :
    (now : ℕ) (tracker : BruteForceTracker)
    → 20 ≤ tracker.attempts
    → (20 ≤ ((retry now tracker).0).attempts)
      × ((is_passed ((retry now tracker).1) ≡ false)
            × (((retry now tracker).0).next_try ≡ tracker.next_try)
          ⊎ (is_passed ((retry now tracker).1) ≡ true)
            × (tracker.next_try ≤ now)
            × (((retry now tracker).0).next_try ≡ now + 1800 * second))
unfolding retry
retry_late now tracker many = elim (Bool-cases (ltb now tracker.next_try)) [
  | inl early ↦ rw (retry, early) (omega arith, inl (refl, refl))
  | inr late ↦
      let e : ltb 20 (suc tracker.attempts) ≡ true = ground arith in
      rw (retry, late, e) (omega arith, inr (refl, ground (arith, late), refl))
]

detect_brute_force_known :
    (ip : String) (now : ℕ) (c : CredentialProtection) (tracker : BruteForceTracker)
    → c.brute_force ip ≡ some tracker
    → detect_brute_force ip now c ≡ (
      record c { brute_force = put ip ((retry now tracker).0) c.brute_force },
      (retry now tracker).1,
    )
unfolding detect_brute_force
detect_brute_force_known ip now c tracker found = rw (detect_brute_force, found) refl

detect_brute_force_ne :
    (from ip : String) (now : ℕ) (c : CredentialProtection)
    → from ≢ ip
    → ((detect_brute_force from now c).0).brute_force ip ≡ c.brute_force ip
unfolding detect_brute_force
detect_brute_force_ne from ip now c other = elim (Option-cases (c.brute_force from)) [
  | inl e ↦ rw (detect_brute_force, e) (put_ne from ip _ c.brute_force other)
  | inr (tracker, e) ↦ rw (detect_brute_force, e) (put_ne from ip _ c.brute_force other)
]

-- Once twenty requests of an address, of any kind, are counted, it is let through at most once in every half hour,
-- whatever it and others request and however long that lasts.
pub let_through-IsSpaced :
    (ip : String) (requests : List (String × ℕ)) (c : CredentialProtection)
    (tracker : BruteForceTracker)
    → c.brute_force ip ≡ some tracker
    → 20 ≤ tracker.attempts
    → IsSpaced (1800 * second) tracker.next_try (let_through ip requests c)
unfolding let_through
let_through-IsSpaced ip [] c tracker found many = tt
let_through-IsSpaced ip ((from, now) ∷ requests) c tracker found many =
    elim (Bool-cases (from == ip)) [
      | inl same ↦
          let e : from ≡ ip = (eq_iff from ip).0 same in
          let tracker' = (retry now tracker).0 in
          let c' : CredentialProtection = record c {
            brute_force = put ip ((retry now tracker).0) c.brute_force;
          } in
          let (many', answers) = retry_late now tracker many in
          let rest =
            let_through-IsSpaced ip requests c' tracker' (put_self ip tracker' c.brute_force)
              many' in
          rw (e, agrees_self ip, detect_brute_force_known ip now c tracker found)
            (elim answers [
              | inl (refused, next) ↦
                  rw refused
                    (subst (λ n. IsSpaced (1800 * second) n (let_through ip requests c')) next rest)
              | inr (passed, late, next) ↦ rw passed (
                late,
                subst (λ n. IsSpaced (1800 * second) n (let_through ip requests c')) next rest,
              )
            ])
      | inr other ↦
          let kept = detect_brute_force_ne from ip now c (agrees_false→ne from ip other) in
          let rest =
            let_through-IsSpaced ip requests ((detect_brute_force from now c).0) tracker
              (kept ∙ found) many in
          let skipped : (is_passed ((detect_brute_force from now c).1) && (from == ip)) ≡ false =
            rw other (ground arith) in
          rw skipped rest
    ]
