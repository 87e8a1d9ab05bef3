-- ===== src/Tokens/Introspection/Revocation.antt =====
-- How long the introspector of internal/engine/auth.go goes without the answer of the server.
use fortress_waf.Base.{
  ℕ, ◌*◌, ◌≤◌, ◌≡◌, ◌≢◌, refl, sym, ◌∙◌, true, String, List, [], ◌∷◌, none, some, inl, inr,
  le→ltb_false, nat_beq, ◌==◌, text_keys, All, Bool-cases, Option-cases, agrees_false→ne, agrees_ne,
  arith,
}
use text.Mathlib.TextEquality.{eq_iff}
use fortress_waf.Base.Int.{pos, ltb_ℤ, pos_part}
use fortress_waf.Base.Map.{Map, put_self, put_ne}
use fortress_waf.Pipeline.Detection.{allowing}
use fortress_waf.Tokens.Types.{TokenLibrary}
use fortress_waf.Tokens.Jwt.{carried_token}
use fortress_waf.Tokens.Introspection.{
  OauthIntrospector, TokenInfo, CachedToken, Reply, not_sent, replied, introspect, get_cached,
  cache_token, accept_reply, inspect_oauth,
}

pub record Call : Type 0 where
  pub now : ℕ
  pub reply : Reply
  pub token : String

-- The first call stands first.
abbrev pub after_calls : List Call → OauthIntrospector → OauthIntrospector
after_calls [] o = o
after_calls (call ∷ later) o = after_calls later (introspect call.now call.reply call.token o).0

-- The cache holds this for the token.
abbrev Keeps : String → CachedToken → OauthIntrospector → Type 0
Keeps token cached o = o.tokens token ≡ some cached

accept_reply-Keeps :
    (token other : String) (cached : CachedToken) (reply : Reply) (o : OauthIntrospector)
    → other ≢ token
    → Keeps token cached o
    → Keeps token cached (accept_reply other reply o).0
unfolding cache_token
accept_reply-Keeps token other cached not_sent o ne k = k
accept_reply-Keeps token other cached (replied t status none) o ne k =
    elim (Bool-cases (nat_beq status 200)) [
      | inl accepted ↦ rw accepted k
      | inr refused ↦ rw refused k
    ]
accept_reply-Keeps token other cached (replied t status (some info)) o ne k =
    elim (Bool-cases (nat_beq status 200)) [
      | inl accepted ↦ rw accepted (put_ne other token _ o.tokens ne ∙ k)
      | inr refused ↦ rw refused k
    ]

get_cached-Keeps :
    (now : ℕ) (token : String) (cached : CachedToken) (o : OauthIntrospector)
    → now ≤ cached.expires_at
    → Keeps token cached o
    → get_cached now token o ≡ some cached.info
unfolding get_cached
get_cached-Keeps now token cached o in_time k =
    rw (get_cached, k, le→ltb_false cached.expires_at now in_time) refl

introspect-Keeps :
    (now : ℕ) (reply : Reply) (token other : String) (cached : CachedToken) (o : OauthIntrospector)
    → now ≤ cached.expires_at
    → Keeps token cached o
    → Keeps token cached (introspect now reply other o).0
unfolding introspect
introspect-Keeps now reply token other cached o in_time k =
    elim (Option-cases (get_cached now other o)) [
      | inr (info, found) ↦ rw (introspect, found) k
      | inl absent ↦ elim (Bool-cases (o.introspection_url == "")) [
        | inl empty_url ↦ rw (introspect, absent, empty_url) k
        | inr served ↦ elim (Bool-cases (other == token)) [
          | inl same ↦ absurd (
              let found = get_cached-Keeps now token cached o in_time k in
              let missing = rw ((eq_iff other token).0 same) at absent in
              let e : none ≡ some cached.info = sym missing ∙ found in ground (arith, e))
          | inr differ ↦
              rw (introspect, absent, served)
                (accept_reply-Keeps token other cached reply o (agrees_false→ne other token differ)
                  k)
        ]
      ]
    ]

after_calls-Keeps :
    (token : String) (cached : CachedToken) (calls : List Call) (o : OauthIntrospector)
    → All (λ (c : Call). c.now ≤ cached.expires_at) calls
    → Keeps token cached o
    → Keeps token cached (after_calls calls o)
after_calls-Keeps token cached [] o in_time k = k
after_calls-Keeps token cached (call ∷ later) o in_time k =
    after_calls-Keeps token cached later _ in_time.1
      (introspect-Keeps call.now call.reply token call.token cached o in_time.0 k)

-- What is kept of an answer with an expiry of its own.
abbrev expiring : TokenInfo → CachedToken
expiring info = record { info = info; expires_at = pos_part info.expires_at * 1000000000 }

first-Keeps :
    (first t : ℕ) (token : String) (info : TokenInfo) (o : OauthIntrospector)
    → get_cached first token o ≡ none
    → o.introspection_url ≢ ""
    → ltb_ℤ (pos 0) info.expires_at ≡ true
    → Keeps token (expiring info) (introspect first (replied t 200 (some info)) token o).0
unfolding introspect cache_token
first-Keeps first t token info o absent served lives =
    rw (introspect, absent, agrees_ne o.introspection_url "" served, lives)
      (put_self token (expiring info) o.tokens)

-- Where there is a URL of introspection, and the server has answered with status 200 for a token that was not in the
-- cache that it is active, to an expiry of its own, Inspect admits a request with that token to that expiry, as
-- the user of the answer, whatever the server answers then, and whatever tokens were introspected in between, none
-- later than the expiry.
pub inspect_oauth-introspect :
    (lib : TokenLibrary) (first t now : ℕ) (token user : String) (info : TokenInfo) (reply : Reply)
    (between : List Call) (headers : Map String String) (o : OauthIntrospector)
    → get_cached first token o ≡ none
    → o.introspection_url ≢ ""
    → info.active ≡ true
    → ltb_ℤ (pos 0) info.expires_at ≡ true
    → All (λ (c : Call). c.now ≤ pos_part info.expires_at * 1000000000) between
    → now ≤ pos_part info.expires_at * 1000000000
    → carried_token lib headers ≡ some token
    → (inspect_oauth lib now reply headers user
        (after_calls between (introspect first (replied t 200 (some info)) token o).0)).1
      ≡ (info.subject, allowing)
unfolding inspect_oauth introspect cache_token
inspect_oauth-introspect lib first t now token user info reply between headers o absent served
      is_active lives calls in_time carried =
    let cached = expiring info in
    let start = (introspect first (replied t 200 (some info)) token o).0 in
    let found = get_cached-Keeps now token cached (after_calls between start) in_time (
      after_calls-Keeps token cached between start calls
        (first-Keeps first t token info o absent served lives)) in
    rw (inspect_oauth, carried, introspect, found, is_active) refl
