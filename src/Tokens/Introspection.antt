-- ===== src/Tokens/Introspection.antt =====
-- The introspection of OAuth tokens of internal/engine/auth.go. The names of the client and the hint are sent with
-- the request and not read otherwise. The seconds of an expiry are taken to fit the library's times.
pub mod Revocation
use fortress_waf.Base.{
  ℕ, ◌+◌, ◌*◌, Bool, String, List, Option, none, some, ◌⊎◌, inl, inr, ltb, nat_beq, if◌then◌else◌,
  ◌==◌, text_keys,
}
use fortress_waf.Base.Int.{ℤ, pos, ltb_ℤ, pos_part}
use fortress_waf.Base.Map.{Map, empty, put}
use fortress_waf.Pipeline.Types.{Action}
use fortress_waf.Pipeline.Detection.{Detection, detection, allowing}
use fortress_waf.Tokens.Types.{TokenLibrary}
use fortress_waf.Tokens.Jwt.{carried_token}

-- The times are seconds.
pub record TokenInfo : Type 0 where
  pub active : Bool
  pub scope : String
  pub client_id : String
  pub username : String
  pub token_type : String
  pub expires_at : ℤ
  pub issued_at : ℤ
  pub not_before : ℤ
  pub subject : String
  pub audience : String
  pub roles : List String

pub record CachedToken : Type 0 where
  pub info : TokenInfo
  pub expires_at : ℕ

-- OAuthIntrospector, the cache within it.
pub record OauthIntrospector : Type 0 where
  pub introspection_url : String
  pub tokens : Map String CachedToken
  pub ttl : ℕ

abbrev pub five_minutes : ℕ
five_minutes = 300 * 1000000000

unfoldable pub new_oauth_introspector : String → OauthIntrospector
new_oauth_introspector url = record { introspection_url = url; tokens = empty; ttl = five_minutes }

pub data IntrospectionError : Type 0 where
  url_not_configured request_failed status_not_ok body_not_json : IntrospectionError

-- What comes of the request: an error, or at a time a status with a body, which may not decode.
pub data Reply : Type 0 where
  not_sent : Reply
  replied : (now status : ℕ) → Option TokenInfo → Reply

unfoldable pub get_cached : ℕ → String → OauthIntrospector → Option TokenInfo
get_cached now token o = elim (o.tokens token) [
  | none ↦ none
  | some cached ↦ if ltb cached.expires_at now then none else some cached.info
]

-- The time to which an answer of this time is kept.
abbrev pub kept_until : ℕ → TokenInfo → ℕ → ℕ
kept_until now info ttl =
    if ltb_ℤ (pos 0) info.expires_at then pos_part info.expires_at * 1000000000 else now + ttl

unfoldable pub cache_token : ℕ → String → TokenInfo → OauthIntrospector → OauthIntrospector
cache_token now token info o = record o {
  tokens = put token (record { info = info; expires_at = kept_until now info o.ttl }) o.tokens;
}

abbrev pub accept_body :
    ℕ
    → String
    → Option TokenInfo
    → OauthIntrospector
    → OauthIntrospector × (IntrospectionError ⊎ TokenInfo)
accept_body now token none o = (o, inl body_not_json)
accept_body now token (some info) o = (cache_token now token info o, inr info)

abbrev pub accept_reply :
    String → Reply → OauthIntrospector → OauthIntrospector × (IntrospectionError ⊎ TokenInfo)
accept_reply token not_sent o = (o, inl request_failed)
accept_reply token (replied now status body) o =
    if nat_beq status 200 then accept_body now token body o else (o, inl status_not_ok)

unfoldable pub introspect :
    ℕ → Reply → String → OauthIntrospector → OauthIntrospector × (IntrospectionError ⊎ TokenInfo)
introspect now reply token o = elim (get_cached now token o) [
  | some info ↦ (o, inr info)
  | none ↦
      if o.introspection_url == "" then (o, inl url_not_configured) else accept_reply token reply o
]

-- The decision, and the user that the request then has.
abbrev pub oauth_verdict : String → IntrospectionError ⊎ TokenInfo → String × Detection
oauth_verdict user (inl error) =
    (user, detection Action.block "OAUTH-001" "OAuth token introspection failed" "high" 80)
oauth_verdict user (inr info) =
    if info.active
    then (info.subject, allowing)
    else (user, detection Action.block "OAUTH-002" "OAuth token inactive" "high" 90)

module _ (lib : TokenLibrary) where
  unfoldable pub inspect_oauth :
      ℕ
      → Reply
      → Map String String
      → String
      → OauthIntrospector
      → OauthIntrospector × (String × Detection)
  inspect_oauth now reply headers user o = elim (carried_token lib headers) [
    | none ↦ (o, (user, allowing))
    | some token ↦ let (p, result) = introspect now reply token o in (p, oauth_verdict user result)
  ]
