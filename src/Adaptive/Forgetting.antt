-- ===== src/Adaptive/Forgetting.antt =====
-- How internal/engine/adaptive.go forgets a blocked address.
use fortress_waf.Base.{
  ℕ, suc, ◌+◌, ◌*◌, ◌<◌, ◌≡◌, ◌≢◌, refl, ◌∙◌, true, String, List, [], ◌∷◌, none, some, ltb, arith,
  text_keys,
}
use fortress_waf.Base.Map.{put_self}
use fortress_waf.Adaptive.Challenge.{
  AdaptiveChallenge, ChallengeState, block_level, cleanup, get_or_create_state, inspect_state,
  response,
}
use fortress_waf.Adaptive.Escalation.{Visit, visit, visit-state, visits}

-- The address is blocked, and was last seen at `seen`.
abbrev pub BlockedAt : ℕ → String → AdaptiveChallenge → Type 0
BlockedAt seen ip ac =
    (st : ChallengeState) × (ac.ip_scores ip ≡ some st)
    × (st.level ≡ block_level)
    × (st.last_seen ≡ seen)

visit-BlockedAt :
    (seen : ℕ) (ip : String) (v : Visit) (ac : AdaptiveChallenge)
    → ip ≢ ""
    → BlockedAt seen ip ac
    → BlockedAt seen ip ((visit ip v ac).0)
      × ((visit ip v ac).1 ≡ response block_level)
      × (((visit ip v ac).0).challenge_ttl ≡ ac.challenge_ttl)
unfolding inspect_state get_or_create_state
visit-BlockedAt seen ip v ac named (st, found, level, last) =
    rw (visit-state ip v ac named, inspect_state, get_or_create_state, found, level)
      (
        (
          record st { level = block_level; request_cnt = suc st.request_cnt },
          put_self ip _ ac.ip_scores,
          refl,
          last,
        ),
        refl,
        refl,
      )

visits-BlockedAt :
    (seen : ℕ) (ip : String) (vs : List Visit) (ac : AdaptiveChallenge)
    → ip ≢ ""
    → BlockedAt seen ip ac
    → BlockedAt seen ip (visits ip vs ac) × ((visits ip vs ac).challenge_ttl ≡ ac.challenge_ttl)
unfolding visits
visits-BlockedAt seen ip [] ac named blocked = (blocked, refl)
visits-BlockedAt seen ip (v ∷ vs) ac named blocked =
    let (still, _, ttl) = visit-BlockedAt seen ip v ac named blocked in
    let (last, same) = visits-BlockedAt seen ip vs ((visit ip v ac).0) named still in
    (last, same ∙ ttl)

-- A blocked address is blocked for every request without a token, but the requests do not prolong the block:
-- the first cleanup later than twice the lifetime of a challenge after the last request before the block
-- forgets the address, however many requests it has sent since.
pub cleanup-BlockedAt :
    (seen now : ℕ) (ip : String) (vs : List Visit) (v : Visit) (ac : AdaptiveChallenge)
    → ip ≢ ""
    → BlockedAt seen ip ac
    → seen + ac.challenge_ttl * 2 < now
    → ((visit ip v (visits ip vs ac)).1 ≡ response block_level)
      × ((cleanup now ((visit ip v (visits ip vs ac)).0)).ip_scores ip ≡ none)
unfolding cleanup
cleanup-BlockedAt seen now ip vs v ac named blocked late =
    let (still, ttl) = visits-BlockedAt seen ip vs ac named blocked in
    let ((st, found, level, last), verdict, same) =
      visit-BlockedAt seen ip v (visits ip vs ac) named still in
    let forgotten : ltb (st.last_seen + ((visit ip v (visits ip vs ac)).0).challenge_ttl * 2) now
        ≡ true =
      rw (last, same, ttl) (ground (arith, late)) in
    (verdict, rw (found, forgotten) refl)
