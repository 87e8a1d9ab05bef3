-- ===== src/Adaptive/Challenge.antt =====
-- The state and the operations of internal/engine/adaptive.go. A score is a whole number, and a time a
-- number of nanoseconds; all the readings of the clock of one request give the same time. The token of a
-- new challenge, which crypto/rand and SHA-256 make, is given.
use fortress_waf.Base.{
  ℕ, suc, ◌+◌, ◌*◌, Bool, false, String, Option, none, some, not, leb, ltb, nat_beq, if◌then◌else◌,
  ◌==◌, text_keys,
}
use fortress_waf.Base.Map.{Map, empty, put, delete}
use fortress_waf.Pipeline.Types.{Action}
use fortress_waf.Pipeline.Detection.{Detection, detection}

pub data ChallengeLevel : Type 0 where
  no_challenge js_challenge captcha tarpit block_level : ChallengeLevel

-- The number of a level.
abbrev pub number : ChallengeLevel → ℕ
number no_challenge = 0
number js_challenge = 1
number captcha = 2
number tarpit = 3
number block_level = 4

pub record ChallengeState : Type 0 where
  pub score : ℕ
  pub last_seen : ℕ
  pub level : ChallengeLevel
  pub request_cnt : ℕ

pub record IssuedChallenge : Type 0 where
  pub token : String
  pub ip : String
  pub level : ChallengeLevel
  pub expires_at : ℕ
  pub solved : Bool

pub record AdaptiveChallenge : Type 0 where
  pub challenge_ttl : ℕ
  pub ip_scores : Map String ChallengeState
  pub challenges : Map String IssuedChallenge

unfoldable pub new_adaptive_challenge : ℕ → AdaptiveChallenge
new_adaptive_challenge ttl_seconds = record {
  challenge_ttl = ttl_seconds * 1000000000;
  ip_scores = empty;
  challenges = empty;
}

unfoldable pub determine_level : ℕ → ChallengeLevel
determine_level score =
    if leb 90 score
    then block_level
    else if leb 70 score
    then tarpit
    else if leb 50 score
    then captcha
    else if leb 20 score
    then js_challenge
    else no_challenge

-- The state of a new address.
abbrev pub new_state : ChallengeState
new_state = record { score = 0; last_seen = 0; level = no_challenge; request_cnt = 0 }

-- getOrCreateState; the new state is put into the map with what Inspect makes of it.
unfoldable pub get_or_create_state : String → AdaptiveChallenge → ChallengeState
get_or_create_state ip ac = elim (ac.ip_scores ip) [ none ↦ new_state | some st ↦ st ]

-- The test for the top level.
abbrev pub is_blocked : ChallengeLevel → Bool
is_blocked level = leb 4 (number level)

-- The state after a request, of an address that is not blocked.
unfoldable pub escalate : ℕ → ℕ → ChallengeState → ChallengeState
escalate threat_score now st =
    let score = if nat_beq threat_score 0 then st.score else threat_score in
    let level = determine_level score in
    record st {
      score = score;
      last_seen = now;
      level = if ltb (number st.level) (number level) then level else st.level;
    }

-- The decision at a level.
unfoldable pub response : ChallengeLevel → Option Detection
response no_challenge = none
response js_challenge = some (detection Action.challenge "ADAPT_001" "JS Challenge" "medium" 30)
response captcha = some (detection Action.challenge "ADAPT_002" "CAPTCHA Challenge" "high" 60)
response tarpit = some (detection Action.monitor "ADAPT_003" "Tarpit Applied" "high" 80)
response block_level = some (detection Action.block "ADAPT_004" "Adaptive Block" "critical" 95)

-- The challenges after the decision at a level.
unfoldable pub issue :
    String → String → ℕ → ChallengeLevel → AdaptiveChallenge → Map String IssuedChallenge
issue ip fresh now js_challenge ac =
    put fresh
      (record {
        token = fresh;
        ip = ip;
        level = js_challenge;
        expires_at = now + ac.challenge_ttl;
        solved = false;
      })
      ac.challenges
issue ip fresh now captcha ac =
    put fresh
      (record {
        token = fresh;
        ip = ip;
        level = captcha;
        expires_at = now + ac.challenge_ttl;
        solved = false;
      })
      ac.challenges
issue ip fresh now _ ac = ac.challenges

-- Inspect from getOrCreateState on.
unfoldable pub inspect_state :
    String → ℕ → String → ℕ → AdaptiveChallenge → AdaptiveChallenge × Option Detection
inspect_state ip threat_score fresh now ac =
    let st = get_or_create_state ip ac in
    let counted : ChallengeState = record st { request_cnt = suc st.request_cnt } in
    if is_blocked st.level
    then (record ac { ip_scores = put ip counted ac.ip_scores }, response block_level)
    else (let next = escalate threat_score now counted in
        (
          record ac {
            ip_scores = put ip next ac.ip_scores;
            challenges = issue ip fresh now next.level ac;
          },
          response next.level,
        ))

-- Whether the token is that of a challenge that is not solved.
unfoldable pub is_open : String → AdaptiveChallenge → Bool
is_open token ac =
    if token == ""
    then false
    else elim (ac.challenges token) [ none ↦ false | some c ↦ not c.solved ]

unfoldable pub inspect :
    String → String → ℕ → String → ℕ → AdaptiveChallenge → AdaptiveChallenge × Option Detection
inspect ip token threat_score fresh now ac =
    if ip == ""
    then (ac, none)
    else if is_open token ac
    then (
      record ac { challenges = delete token ac.challenges },
      some (detection Action.allow "ADAPT_000" "Challenge Solved" "info" 0),
    )
    else inspect_state ip threat_score fresh now ac

unfoldable pub record_event : String → ℕ → ℕ → AdaptiveChallenge → AdaptiveChallenge
record_event ip score now ac = record ac {
  ip_scores =
      put ip (record (get_or_create_state ip ac) { score = score; last_seen = now }) ac.ip_scores;
}

-- What a tick of the cleanup keeps of a challenge, and of the state of an address.
abbrev keep_challenge : ℕ → Option IssuedChallenge → Option IssuedChallenge
keep_challenge now none = none
keep_challenge now (some c) = if ltb c.expires_at now then none else some c

abbrev keep_state : ℕ → ℕ → Option ChallengeState → Option ChallengeState
keep_state now ttl none = none
keep_state now ttl (some st) = if ltb (st.last_seen + ttl * 2) now then none else some st

unfoldable pub cleanup : ℕ → AdaptiveChallenge → AdaptiveChallenge
cleanup now ac = record ac {
  ip_scores = λ ip. keep_state now ac.challenge_ttl (ac.ip_scores ip);
  challenges = λ token. keep_challenge now (ac.challenges token);
}
