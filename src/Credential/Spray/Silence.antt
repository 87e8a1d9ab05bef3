-- ===== src/Credential/Spray/Silence.antt =====
-- What detectPasswordSpray of internal/engine/credential.go finds.
use fortress_waf.Base.{
  ℕ, ◌≡◌, refl, sym, ◌∙◌, ap, String, List, [], ◌∷◌, Option, none, some, arith, text_keys, ◌==◌,
  Bool-cases, inl, inr, agrees_false→ne, Option-cases,
}
use text.Mathlib.TextEquality.{eq_iff}
use fortress_waf.Base.Map.{put, put_self, put_ne}
use fortress_waf.Credential.State.{CredentialProtection, LoginRequest, SprayTracker, passwords}
use fortress_waf.Credential.Spray.{count_spray, detect_password_spray, judge_spray}

abbrev names_of : Option SprayTracker → List (String × ℕ)
names_of none = []
names_of (some tracker) = tracker.usernames

-- No tracker has seen a name.
abbrev pub IsNameless : CredentialProtection → Type 0
IsNameless c = (h : String) → names_of (c.password_spray h) ≡ []

judge_spray_nameless :
    (tracker : SprayTracker) → tracker.usernames ≡ [] → judge_spray tracker ≡ none
unfolding judge_spray
judge_spray_nameless tracker nameless = rw nameless (ground arith)

put-IsNameless :
    (h : String) (tracker : SprayTracker) (c : CredentialProtection)
    → tracker.usernames ≡ []
    → IsNameless c
    → IsNameless (record c { password_spray = put h tracker c.password_spray })
put-IsNameless h tracker c empty nameless other = elim (Bool-cases (h == other)) [
  | inl same ↦
      let e : h ≡ other = (eq_iff h other).0 same in
      rw e (rw (put_self other tracker c.password_spray) empty)
  | inr differ ↦
      rw (put_ne h other tracker c.password_spray (agrees_false→ne h other differ)) (nameless other)
]

count_spray-IsNameless :
    (h : String) (now : ℕ) (c : CredentialProtection)
    → IsNameless c
    → IsNameless ((count_spray h now c).0) × ((count_spray h now c).1 ≡ none)
unfolding count_spray
count_spray-IsNameless h now c nameless = elim (Option-cases (c.password_spray h)) [
  | inl e ↦ rw (count_spray, e) (put-IsNameless h _ c refl nameless, refl)
  | inr (tracker, e) ↦
      let empty : tracker.usernames ≡ [] = sym (ap names_of e) ∙ nameless h in
      rw (count_spray, e) (put-IsNameless h _ c empty nameless, judge_spray_nameless _ empty)
]

-- The requests that detectPasswordSpray sees.
unfoldable pub sprays :
    (String → String) → List (ℕ × LoginRequest) → CredentialProtection → CredentialProtection
sprays hash [] c = c
sprays hash ((now, ctx) ∷ requests) c =
    sprays hash requests ((detect_password_spray hash ctx now c).0)

detect_password_spray-IsNameless :
    (hash : String → String) (ctx : LoginRequest) (now : ℕ) (c : CredentialProtection)
    → IsNameless c
    → IsNameless ((detect_password_spray hash ctx now c).0)
      × ((detect_password_spray hash ctx now c).1 ≡ none)
unfolding detect_password_spray
detect_password_spray-IsNameless hash ctx now c nameless = by_passwords (passwords ctx) refl
  where
    by_passwords :
        (ps : List String)
        → passwords ctx ≡ ps
        → IsNameless ((detect_password_spray hash ctx now c).0)
          × ((detect_password_spray hash ctx now c).1 ≡ none)
    by_passwords [] e = rw (detect_password_spray, e) (nameless, refl)
    by_passwords (p ∷ ps) e =
        rw (detect_password_spray, e) (count_spray-IsNameless (hash p) now c nameless)

sprays-IsNameless :
    (hash : String → String) (requests : List (ℕ × LoginRequest)) (c : CredentialProtection)
    → IsNameless c
    → IsNameless (sprays hash requests c)
unfolding sprays
sprays-IsNameless hash [] c nameless = nameless
sprays-IsNameless hash ((now, ctx) ∷ requests) c nameless =
    sprays-IsNameless hash requests ((detect_password_spray hash ctx now c).0)
      ((detect_password_spray-IsNameless hash ctx now c nameless).0)

-- detectPasswordSpray finds nothing: from a state in which no tracker has seen a name, as that of a new
-- protection, no requests whatever, of however many names with one password, make it answer.
pub detect_password_spray-sprays :
    (hash : String → String) (requests : List (ℕ × LoginRequest)) (ctx : LoginRequest) (now : ℕ)
    (c : CredentialProtection)
    → IsNameless c
    → (detect_password_spray hash ctx now (sprays hash requests c)).1 ≡ none
detect_password_spray-sprays hash requests ctx now c nameless =
    (detect_password_spray-IsNameless hash ctx now (sprays hash requests c)
      (sprays-IsNameless hash requests c nameless)).1
