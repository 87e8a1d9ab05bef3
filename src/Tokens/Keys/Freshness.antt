-- ===== src/Tokens/Keys/Freshness.antt =====
-- How old a key of getKey of internal/engine/auth.go can be.
use mathlib.Core.List.{Memᴰ}
use fortress_waf.Base.{
  ℕ, ◌+◌, ◌<◌, ◌≡◌, refl, String, List, [], ◌∷◌, map, none, some, ltb, ltb→lt, ◌==◌, text_keys, ◌⊎◌,
  inl, inr, ap, arith, true, Bool-cases, false, Option-cases, sym, ◌∙◌,
}
use fortress_waf.Base.Map.{Map}
use fortress_waf.Tokens.Types.{
  Jwk, Result, ok, or_fail-ok, fail, fail-ne-ok, ok_injective, no_jwks_url,
}
use fortress_waf.Tokens.Keys.{
  JwtValidator, new_jwt_validator, hour, Fetched, answered, get_key, refresh_jwks, cached_key,
  refreshed_key,
}
use fortress_waf.Tokens.Keys.Filled.{IsFilled, Holds, from_empty, IsFilled-more, refresh-IsFilled}

-- A call of getKey: the clock, what the key server answers if it is asked, and the name of a key.
pub record Ask : Type 0 where
  pub now : ℕ
  pub fetched : Fetched
  pub kid : String

-- The last call stands first.
abbrev pub after_asks : List Ask → JwtValidator → JwtValidator
after_asks [] v = v
after_asks (ask ∷ earlier) v = (get_key ask.now ask.fetched ask.kid (after_asks earlier v)).0

-- The state after a second look is the one after the refresh.
refreshed_key-state :
    (kid : String) (r : JwtValidator × Result Unit) → (refreshed_key kid r).0 ≡ r.0
refreshed_key-state kid (v, ok u) = refl
refreshed_key-state kid (v, fail error) = refl

refreshed_key-ok :
    (kid : String) (key : Jwk) (r : JwtValidator × Result Unit)
    → (refreshed_key kid r).1 ≡ ok key
    → (u : Unit) × (r.1 ≡ ok u) × ((r.0).keys kid ≡ some key)
refreshed_key-ok kid key (v, ok u) h = (u, refl, or_fail-ok _ _ key h)
refreshed_key-ok kid key (v, fail error) h = absurd (fail-ne-ok h)

-- Where a key comes from: the answer to this call, or an answer less than an hour before.
FromAnswer : ℕ → Fetched → List Fetched → String → Jwk → Type 0
FromAnswer now fetched answers kid key =
    (t : ℕ) × (keys : List Jwk) × Holds keys kid key
    × ((fetched ≡ answered t 200 (some keys))
        ⊎ (Memᴰ (answered t 200 (some keys)) answers × (now < t + hour)))

cached-FromAnswer :
    (now : ℕ) (fetched : Fetched) (answers : List Fetched) (kid : String) (key : Jwk)
    (v : JwtValidator)
    → IsFilled answers v
    → cached_key now kid v ≡ some key
    → FromAnswer now fetched answers kid key
unfolding FromAnswer
cached-FromAnswer now fetched answers kid key v f h = elim (Bool-cases (ltb now v.expires_at)) [
  | inr stale ↦ let e : none ≡ some key = rw stale at h in absurd (ground (arith, e))
  | inl fresh ↦
      let held : v.keys kid ≡ some key = rw fresh at h in
      let early = ltb→lt now v.expires_at fresh in
      elim f.filled [
        | inl never ↦ absurd (omega (arith, early, never))
        | inr (t, keys, member, same, due) ↦ (
          t,
          keys,
          from_empty keys kid key (ap (λ (m : Map String Jwk). m kid) (sym same) ∙ held),
          inr (member, omega (arith, early, due)),
        )
      ]
]

-- A call with a key that is not in the cache.
missed :
    (now : ℕ) (fetched : Fetched) (kid : String) (v : JwtValidator)
    → cached_key now kid v ≡ none
    → (v.jwks_url == "") ≡ false
    → get_key now fetched kid v ≡ refreshed_key kid (refresh_jwks fetched v)
unfolding get_key
missed now fetched kid v absent served = rw (get_key, absent, served) refl

unserved :
    (now : ℕ) (fetched : Fetched) (kid : String) (v : JwtValidator)
    → cached_key now kid v ≡ none
    → (v.jwks_url == "") ≡ true
    → get_key now fetched kid v ≡ (v, fail no_jwks_url)
unfolding get_key
unserved now fetched kid v absent empty_url = rw (get_key, absent, empty_url) refl

cached :
    (now : ℕ) (fetched : Fetched) (kid : String) (v : JwtValidator) (key : Jwk)
    → cached_key now kid v ≡ some key
    → get_key now fetched kid v ≡ (v, ok key)
unfolding get_key
cached now fetched kid v key found = rw (get_key, found) refl

get_key-IsFilled :
    (now : ℕ) (fetched : Fetched) (kid : String) (answers : List Fetched) (v : JwtValidator)
    → IsFilled answers v
    → IsFilled (fetched ∷ answers) (get_key now fetched kid v).0
get_key-IsFilled now fetched kid answers v f = elim (Option-cases (cached_key now kid v)) [
  | inr (key, found) ↦ rw (cached now fetched kid v key found) (IsFilled-more fetched answers v f)
  | inl absent ↦ elim (Bool-cases (v.jwks_url == "")) [
    | inl empty_url ↦
        rw (unserved now fetched kid v absent empty_url) (IsFilled-more fetched answers v f)
    | inr served ↦
        rw
          (missed now fetched kid v absent served, refreshed_key-state kid (refresh_jwks fetched v))
          (refresh-IsFilled fetched answers v f).0
  ]
]

get_key-FromAnswer :
    (now : ℕ) (fetched : Fetched) (kid : String) (answers : List Fetched) (v : JwtValidator)
    (key : Jwk)
    → IsFilled answers v
    → (get_key now fetched kid v).1 ≡ ok key
    → FromAnswer now fetched answers kid key
unfolding FromAnswer
get_key-FromAnswer now fetched kid answers v key f h = elim (Option-cases (cached_key now kid v)) [
  | inr (stored, found) ↦
      let e : Result.ok stored ≡ ok key = rw (cached now fetched kid v stored found) at h in
      cached-FromAnswer now fetched answers kid key v f (found ∙ ap (λ k. some k) (ok_injective e))
  | inl absent ↦ elim (Bool-cases (v.jwks_url == "")) [
    | inl empty_url ↦ absurd (fail-ne-ok (rw (unserved now fetched kid v absent empty_url) at h))
    | inr served ↦
        let (u, refreshed, held) =
          refreshed_key-ok kid key (refresh_jwks fetched v)
            (rw (missed now fetched kid v absent served) at h) in
        let (t, keys, is_answer, same) = (refresh-IsFilled fetched answers v f).1 u refreshed in
        (
          t,
          keys,
          from_empty keys kid key (ap (λ (m : Map String Jwk). m kid) (sym same) ∙ held),
          inl is_answer,
        )
  ]
]

after_asks-IsFilled :
    (asks : List Ask) (v : JwtValidator)
    → IsFilled [] v
    → IsFilled (map (λ (a : Ask). a.fetched) asks) (after_asks asks v)
after_asks-IsFilled [] v f = f
after_asks-IsFilled (ask ∷ earlier) v f =
    get_key-IsFilled ask.now ask.fetched ask.kid (map (λ (a : Ask). a.fetched) earlier)
      (after_asks earlier v) (after_asks-IsFilled earlier v f)

new-IsFilled :
    (url : String) (issuers audiences algorithms : List String) (secret : String)
    → IsFilled [] (new_jwt_validator url issuers audiences algorithms secret)
unfolding new_jwt_validator
new-IsFilled url issuers audiences algorithms secret = record { one_hour = refl; filled = inl refl }

-- A key that getKey gives, after any calls of it on a new validator, has the name that was asked for and stands
-- in an answer of the key server with status 200: the answer to this call, or the answer to an earlier call less
-- than an hour before.
pub get_key-IsFresh :
    (url : String) (issuers audiences algorithms : List String) (secret : String)
    (earlier : List Ask) (now : ℕ) (fetched : Fetched) (kid : String) (key : Jwk)
    → (get_key now fetched kid
        (after_asks earlier (new_jwt_validator url issuers audiences algorithms secret))).1
      ≡ ok key
    → (t : ℕ) × (keys : List Jwk) × (Memᴰ key keys × (key.kid ≡ kid))
      × ((fetched ≡ answered t 200 (some keys))
          ⊎ (Memᴰ (answered t 200 (some keys)) (map (λ (a : Ask). a.fetched) earlier)
              × (now < t + hour)))
unfolding FromAnswer
get_key-IsFresh url issuers audiences algorithms secret earlier now fetched kid key h =
    get_key-FromAnswer now fetched kid (map (λ (a : Ask). a.fetched) earlier) _ key
      (after_asks-IsFilled earlier _ (new-IsFilled url issuers audiences algorithms secret)) h
