-- ===== src/Adaptive/Tests.antt =====
-- Runs of the model of internal/engine/adaptive.go on a few requests.
use fortress_waf.Base.{◌≡◌, refl, false, [], ◌∷◌, none, some, arith, text_keys, agrees_false→ne}
use fortress_waf.Base.Map.{put}
use fortress_waf.Pipeline.Types.{Action}
use fortress_waf.Pipeline.Detection.{detection}
use fortress_waf.Adaptive.Challenge.{
  AdaptiveChallenge, ChallengeState, IssuedChallenge, block_level, cleanup, inspect, is_open,
  js_challenge, new_adaptive_challenge, response,
}
use fortress_waf.Adaptive.Escalation.{Visit, visit, visits}
use fortress_waf.Adaptive.Forgetting.{cleanup-BlockedAt}

-- Challenges that live for a minute.
abbrev start : AdaptiveChallenge
start = new_adaptive_challenge 60

abbrev suspect : Visit
suspect = record { threat_score = 55; fresh = "t1"; now = 1000 }

abbrev calm : Visit
calm = record { threat_score = 0; fresh = "t2"; now = 2000 }

abbrev state : ChallengeState
state = record { score = 95; last_seen = 1000; level = block_level; request_cnt = 1 }

-- An address that is blocked.
abbrev blocked : AdaptiveChallenge
blocked = record start { ip_scores = put "10.0.0.1" state (start.ip_scores) }

cleanup-BlockedAt_example :
    ((visit "10.0.0.1" calm (visits "10.0.0.1" (suspect ∷ []) blocked)).1 ≡ response block_level)
    × ((cleanup 120000001001
            ((visit "10.0.0.1" calm (visits "10.0.0.1" (suspect ∷ []) blocked)).0)).ip_scores
          "10.0.0.1"
        ≡ none)
unfolding new_adaptive_challenge
cleanup-BlockedAt_example =
    cleanup-BlockedAt 1000 120000001001 "10.0.0.1" (suspect ∷ []) calm blocked
      (agrees_false→ne "10.0.0.1" "" refl) (state, refl, refl, refl) (omega arith)

abbrev issued : IssuedChallenge
issued = record {
  token = "t1";
  ip = "10.0.0.1";
  level = js_challenge;
  expires_at = 60;
  solved = false;
}

-- A token that was issued to another address and has expired, before a tick of the cleanup, on a blocked one.
foreign_token_test :
    (inspect "10.0.0.9" "t1" 95 "t2" 1000
      (record start { challenges = put "t1" issued (start.challenges) })).1
    ≡ some (detection Action.allow "ADAPT_000" "Challenge Solved" "info" 0)
unfolding inspect is_open
foreign_token_test = refl
