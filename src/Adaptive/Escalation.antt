-- ===== src/Adaptive/Escalation.antt =====
-- How internal/engine/adaptive.go answers the requests of one address.
use fortress_waf.Base.{
  ℕ, ◌≡◌, ◌≤◌, ◌≢◌, refl, String, List, [], ◌∷◌, Option, none, some, max, leb, ltb, nat_beq,
  if◌then◌else◌, text_keys, agrees_ne,
}
use fortress_waf.Base.Map.{Map}
use fortress_waf.Pipeline.Types.{Action}
use fortress_waf.Pipeline.Detection.{Detection, detection}
use fortress_waf.Adaptive.Challenge.{
  AdaptiveChallenge, ChallengeLevel, determine_level, get_or_create_state, inspect, inspect_state,
  is_open, number, block_level, tarpit, captcha, js_challenge, no_challenge,
}

-- The higher of two levels.
abbrev higher : ChallengeLevel → ChallengeLevel → ChallengeLevel
higher a b = if ltb (number a) (number b) then b else a

of_number : ℕ → ChallengeLevel
of_number n =
    if nat_beq n 4
    then block_level
    else if nat_beq n 3
    then tarpit
    else if nat_beq n 2
    then captcha
    else if nat_beq n 1
    then js_challenge
    else no_challenge

-- The state of an address whose highest score is `m`.
record Peaks (m : ℕ) (ip : String) (ac : AdaptiveChallenge) : Type 0 where
  level : (get_or_create_state ip ac).level ≡ determine_level m
  score : (get_or_create_state ip ac).score ≤ m

-- A request of the address without a token: its threat score, the token of a new challenge, the time.
pub record Visit : Type 0 where
  pub threat_score : ℕ
  pub fresh : String
  pub now : ℕ

abbrev pub visit : String → Visit → AdaptiveChallenge → AdaptiveChallenge × Option Detection
visit ip v ac = inspect ip "" v.threat_score v.fresh v.now ac

unfoldable pub visits : String → List Visit → AdaptiveChallenge → AdaptiveChallenge
visits ip [] ac = ac
visits ip (v ∷ vs) ac = visits ip vs ((visit ip v ac).0)

-- The highest threat score of the requests, and of one before.
unfoldable pub peak : ℕ → List Visit → ℕ
peak m [] = m
peak m (v ∷ vs) = peak (max m v.threat_score) vs

pub visit-state :
    (ip : String) (v : Visit) (ac : AdaptiveChallenge)
    → ip ≢ ""
    → visit ip v ac ≡ inspect_state ip v.threat_score v.fresh v.now ac
unfolding inspect is_open
visit-state ip v ac named = rw (agrees_ne ip "" named) refl

-- The answer for a highest threat score: nothing below 20, a JavaScript challenge from 20, a CAPTCHA from
-- 50, a tarpit from 70 and a block from 90 on.
abbrev pub answer_to : ℕ → Option Detection
answer_to s =
    if leb 90 s
    then some (detection Action.block "ADAPT_004" "Adaptive Block" "critical" 95)
    else if leb 70 s
    then some (detection Action.monitor "ADAPT_003" "Tarpit Applied" "high" 80)
    else if leb 50 s
    then some (detection Action.challenge "ADAPT_002" "CAPTCHA Challenge" "high" 60)
    else if leb 20 s
    then some (detection Action.challenge "ADAPT_001" "JS Challenge" "medium" 30)
    else none
