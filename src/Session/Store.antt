-- ===== src/Session/Store.antt =====
-- The operations of `Store` in internal/session/session.go.
use fortress_waf.Base.{
  ℕ, ◌+◌, Bool, false, not, ◌&&◌, String, List, [], ◌∷◌, ◌++◌, Option, none, some, ltb,
  if◌then◌else◌, filter, ◌==◌, text_keys,
}
use fortress_waf.Base.Map.{Map, put, delete, get_zero}
use fortress_waf.Session.State.{Session, Store, minute}

-- `id` is the random text of generateID, `created` and `seen` are the two calls of `time.Now()`.
unfoldable pub new_session : String → String → String → ℕ → ℕ → Session
new_session id ip user_agent created seen = record {
  id = id;
  user_id = "";
  real_ip = ip;
  user_agent = user_agent;
  country = "";
  asn = 0;
  created_at = created;
  last_seen = seen;
  request_count = 0;
  risk_score = 0;
  tags = [];
  blocked = false;
  decisions = [];
  fingerprint = "";
}

unfoldable pub create : String → String → String → ℕ → ℕ → Store → Store × Session
unfolding new_session
create id ip user_agent created seen s =
    let session = new_session id ip user_agent created seen in
    (
      record s {
        sessions = put id session s.sessions;
        by_ip = put ip (get_zero [] s.by_ip ip ++ id ∷ []) s.by_ip;
      },
      session,
    )

abbrev pub get : String → Store → Option Session
get id s = s.sessions id

abbrev pub seen_again : ℕ → Session → Session
seen_again now session = record session {
  last_seen = now;
  request_count = session.request_count + 1;
}

-- updateLastSeen
unfoldable pub update_last_seen : String → ℕ → Session → Store → Store × Session
update_last_seen id now session s =
    let session' = seen_again now session in
    (record s { sessions = put id session' s.sessions }, session')

unfoldable pub get_or_create : String → String → String → String → ℕ → ℕ → Store → Store × Session
unfolding create update_last_seen
get_or_create id ip user_agent fresh created now s =
    if id == "" then create fresh ip user_agent created now s else elim (get id s) [
      | none ↦ create fresh ip user_agent created now s
      | some session ↦ update_last_seen id now session s
    ]

-- `fn` is the caller's function on the session.
unfoldable pub update : String → (Session → Session) → ℕ → Store → Store
update id fn now s = elim (s.sessions id) [
  | none ↦ s
  | some session ↦ record s {
    sessions = put id (record (fn session) { last_seen = now }) s.sessions;
  }
]

abbrev pub drop_user : String → Session → Map String String → Map String String
drop_user id session by_user = elim (by_user session.user_id) [
  | none ↦ by_user
  | some user_sid ↦ if user_sid == id then delete session.user_id by_user else by_user
]

-- `filtered` of the source.
abbrev pub without : String → List String → List String
without id = filter (λ sid. not (sid == id))

abbrev pub drop_ip : String → Session → Map String (List String) → Map String (List String)
drop_ip id session by_ip = elim (by_ip session.real_ip) [
  | none ↦ by_ip
  | some ips ↦ elim (without id ips) [
    | [] ↦ delete session.real_ip by_ip
    | sid ∷ sids ↦ put session.real_ip (sid ∷ sids) by_ip
  ]
]

-- The part that Delete and cleanupLoop share: what is done to a session that is there.
unfoldable pub remove : String → Session → Store → Store
remove id session s = record s {
  sessions = delete id s.sessions;
  by_user = drop_user id session s.by_user;
  by_ip = drop_ip id session s.by_ip;
}

-- Delete
unfoldable pub delete_session : String → Store → Store
unfolding remove
delete_session id s = elim (s.sessions id) [ none ↦ s | some session ↦ remove id session s ]

unfoldable pub get_by_user : String → Store → Option Session
get_by_user user_id s = elim (s.by_user user_id) [ none ↦ none | some id ↦ s.sessions id ]

-- The loop of GetByIP.
unfoldable pub collect : Map String Session → List String → List Session
collect sessions [] = []
collect sessions (id ∷ ids) =
    let rest = collect sessions ids in
    elim (sessions id) [ none ↦ rest | some session ↦ session ∷ rest ]

unfoldable pub get_by_ip : String → Store → List Session
unfolding collect
get_by_ip ip s = collect s.sessions (get_zero [] s.by_ip ip)

abbrev pub capped : ℕ → ℕ
capped score = if ltb 100 score then 100 else score

unfoldable pub add_risk_score : String → ℕ → String → String → ℕ → Store → Store
add_risk_score id score rule_id action now s = elim (s.sessions id) [
  | none ↦ s
  | some session ↦ record s {
    sessions =
        put id
          (record session {
            risk_score = capped (session.risk_score + score);
            decisions =
                session.decisions
                ++ record { rule_id = rule_id; action = action; score = score; timestamp = now }
                  ∷ [];
          })
          s.sessions;
  }
]

unfoldable pub detect_session_fixation : String → String → ℕ → Store → Bool
detect_session_fixation new_session_id old_session_id now s =
    if not (old_session_id == "") && not (new_session_id == "")
    then elim (get old_session_id s) [
      | none ↦ false
      | some old_session ↦ ltb now (old_session.created_at + minute)
    ]
    else false

-- The body of the loop of Deserialize, at one key of the decoded sessions.
unfoldable pub index_one : String → Option Session → Store → Store
index_one id none s = s
index_one id (some session) s = record s {
  by_ip = put session.real_ip (get_zero [] s.by_ip session.real_ip ++ id ∷ []) s.by_ip;
  by_user = if session.user_id == "" then s.by_user else put session.user_id id s.by_user;
}

-- The loop, over the keys in the order of the visit.
unfoldable pub reindex : Map String Session → List String → Store → Store
reindex decoded [] s = s
reindex decoded (id ∷ order) s = reindex decoded order (index_one id (decoded id) s)

-- Deserialize, after json.Unmarshal has decoded the sessions.
unfoldable pub deserialize : Map String Session → List String → Store → Store
unfolding reindex index_one
deserialize decoded order s = reindex decoded order (record s { sessions = decoded })
