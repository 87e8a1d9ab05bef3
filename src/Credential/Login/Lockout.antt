-- ===== src/Credential/Login/Lockout.antt =====
-- The attempts under one name in detectCredentialStuffing of internal/engine/credential.go.
use fortress_waf.Base.{
  ℕ, suc, ◌+◌, ◌*◌, ◌≡◌, ◌<◌, ◌≤◌, refl, sym, ap, ◌∙◌, true, false, String, List, [], ◌∷◌, Option,
  none, some, All, arith, ltb, leb, length, if◌then◌else◌, text_keys, Bool-cases, inl, inr,
}
use fortress_waf.Base.Map.{put_self}
use fortress_waf.Pipeline.Types.{Action}
use fortress_waf.Pipeline.Detection.{Detection, detection}
use fortress_waf.Credential.State.{CredentialProtection, LoginTracker}
use fortress_waf.Credential.Login.{attempt, count_attempt, first_attempt}

-- The answer to the attempt of the given number, before a lock ends.
abbrev pub answer_of : ℕ → ℕ → Option Detection
answer_of max_attempts k =
    if leb k max_attempts
    then none
    else if leb k (max_attempts * 3)
    then some (detection Action.rate_limit "CRED003" "Excessive Login Attempts" "medium" 50)
    else if leb k (max_attempts * 3 + 1)
    then some (detection Action.block "CRED002" "Credential Stuffing Detected" "critical" 90)
    else some (detection Action.block "CRED001" "Account Locked" "high" 80)

-- The attempts under the name with the hash, at the given times.
unfoldable pub count_attempts : String → List ℕ → CredentialProtection → CredentialProtection
count_attempts user_hash [] c = c
count_attempts user_hash (now ∷ times) c =
    count_attempts user_hash times ((count_attempt user_hash now c).0)

-- The tracker after `k` attempts, the first of them at `start`.
record Counts (max_attempts start k : ℕ) (tracker : LoginTracker) : Type 0 where
  attempts : tracker.attempts ≡ k
  locked : tracker.locked ≡ ltb (max_attempts * 3) k
  lockout : tracker.locked ≡ true → start ≤ tracker.lockout_at

answer_locked :
    (max_attempts k : ℕ)
    → 0 < max_attempts
    → ltb (max_attempts * 3) k ≡ true
    → answer_of max_attempts (suc k)
      ≡ some (detection Action.block "CRED001" "Account Locked" "high" 80)
answer_locked max_attempts k positive locked = ground (arith, locked)

answer_full :
    (max_attempts k : ℕ)
    → 0 < max_attempts
    → ltb (max_attempts * 3) k ≡ false
    → ltb (max_attempts * 3) (suc k) ≡ true
    → answer_of max_attempts (suc k)
      ≡ some (detection Action.block "CRED002" "Credential Stuffing Detected" "critical" 90)
answer_full max_attempts k positive free full = ground (arith, free, full)

answer_many :
    (max_attempts k : ℕ)
    → ltb max_attempts (suc k) ≡ true
    → ltb (max_attempts * 3) (suc k) ≡ false
    → answer_of max_attempts (suc k)
      ≡ some (detection Action.rate_limit "CRED003" "Excessive Login Attempts" "medium" 50)
answer_many max_attempts k many room = ground (arith, many, room)

answer_few :
    (max_attempts k : ℕ) → ltb max_attempts (suc k) ≡ false → answer_of max_attempts (suc k) ≡ none
answer_few max_attempts k few = ground (arith, few)

attempt-Counts :
    (max_attempts duration start k now : ℕ) (tracker : LoginTracker)
    → 0 < max_attempts
    → 0 < k
    → (start ≤ now) × (now < start + duration)
    → Counts max_attempts start k tracker
    → Counts max_attempts start (suc k) ((attempt max_attempts duration now tracker).0)
      × ((attempt max_attempts duration now tracker).1 ≡ answer_of max_attempts (suc k))
unfolding attempt
attempt-Counts max_attempts duration start k now tracker positive begun (from, before) counts =
    let e = counts.attempts in
    let l = counts.locked in
    elim (Bool-cases (ltb (max_attempts * 3) k)) [
      | inl locked ↦
          let on : tracker.locked ≡ true = l ∙ locked in
          let later = counts.lockout on in
          let open_lock : ltb now (tracker.lockout_at + duration) ≡ true = ground (arith, later) in
          let still : ltb (max_attempts * 3) (suc k) ≡ true = ground (arith, locked) in
          rw (attempt, on, open_lock)
            (
              record { attempts = ap suc e; locked = sym still; lockout = λ p. later },
              sym (answer_locked max_attempts k positive locked),
            )
      | inr free ↦
          let off : tracker.locked ≡ false = l ∙ free in
          elim (Bool-cases (ltb (max_attempts * 3) (suc k))) [
            | inl full ↦
                let over : ltb (max_attempts * 3) (suc tracker.attempts) ≡ true = rw e full in
                rw (attempt, off, over)
                  (
                    record { attempts = ap suc e; locked = sym full; lockout = λ p. from },
                    sym (answer_full max_attempts k positive free full),
                  )
            | inr room ↦
                let under : ltb (max_attempts * 3) (suc tracker.attempts) ≡ false = rw e room in
                elim (Bool-cases (ltb max_attempts (suc k))) [
                  | inl many ↦
                      let limited : ltb max_attempts (suc tracker.attempts) ≡ true = rw e many in
                      rw (attempt, off, under, limited)
                        (
                          record {
                            attempts = ap suc e;
                            locked = sym room;
                            lockout = λ p. ground (arith, p);
                          },
                          sym (answer_many max_attempts k many room),
                        )
                  | inr few ↦
                      let free_try : ltb max_attempts (suc tracker.attempts) ≡ false = rw e few in
                      rw (attempt, off, under, free_try)
                        (
                          record {
                            attempts = ap suc e;
                            locked = sym room;
                            lockout = λ p. ground (arith, p);
                          },
                          sym (answer_few max_attempts k few),
                        )
                ]
          ]
    ]

-- In the time of one lock from the first attempt on.
abbrev pub IsWithin : ℕ → CredentialProtection → ℕ → Type 0
IsWithin start first now = (start ≤ now) × (now < start + first.lockout_duration)

module _ (user_hash : String) (start : ℕ) where
  -- The tracker of the name after `k` attempts in the time of one lock from the first of them on.
  Tracks : ℕ → CredentialProtection → CredentialProtection → Type 0
  Tracks k first c =
      (tracker : LoginTracker) × (c.login_attempts user_hash ≡ some tracker)
      × Counts first.max_attempts start k tracker
      × (c.max_attempts ≡ first.max_attempts)
      × (c.lockout_duration ≡ first.lockout_duration)

  count_attempt-Tracks :
      (k now : ℕ) (first c : CredentialProtection)
      → 0 < first.max_attempts
      → 0 < k
      → IsWithin start first now
      → Tracks k first c
      → Tracks (suc k) first ((count_attempt user_hash now c).0)
        × ((count_attempt user_hash now c).1 ≡ answer_of first.max_attempts (suc k))
  unfolding count_attempt Tracks
  count_attempt-Tracks k now first c positive begun within
        (tracker, found, counts, same_max, same_lock) =
      let (counts', answer) =
        attempt-Counts first.max_attempts first.lockout_duration start k now tracker positive begun
          within counts in
      rw (count_attempt, found, same_max, same_lock)
        (
          (
            (attempt first.max_attempts first.lockout_duration now tracker).0,
            put_self user_hash _ c.login_attempts,
            counts',
            refl,
            refl,
          ),
          answer,
        )

  count_attempts-Tracks :
      (k : ℕ) (times : List ℕ) (first c : CredentialProtection)
      → 0 < first.max_attempts
      → 0 < k
      → All (IsWithin start first) times
      → Tracks k first c
      → Tracks (k + length times) first (count_attempts user_hash times c)
  unfolding count_attempts
  count_attempts-Tracks k [] first c positive begun within tracks =
      let e : k + 0 ≡ k = omega arith in rw e tracks
  count_attempts-Tracks k (now ∷ times) first c positive begun (here, within) tracks =
      let e : k + suc (length times) ≡ suc k + length times = omega arith in
      rw e (
        count_attempts-Tracks (suc k) times first ((count_attempt user_hash now c).0) positive
          (omega arith) within ((count_attempt-Tracks k now first c positive begun here tracks).0))

count_attempt_first :
    (user_hash : String) (start : ℕ) (c : CredentialProtection)
    → 0 < c.max_attempts
    → c.login_attempts user_hash ≡ none
    → Tracks user_hash start 1 c ((count_attempt user_hash start c).0)
unfolding count_attempt Tracks
count_attempt_first user_hash start c positive fresh =
    let few : ltb (c.max_attempts * 3) 1 ≡ false = ground (arith, positive) in
    rw (count_attempt, fresh)
      (
        first_attempt start,
        put_self user_hash (first_attempt start) c.login_attempts,
        record { attempts = refl; locked = sym few; lockout = λ p. ground (arith, p) },
        refl,
        refl,
      )

-- With a limit that is not 0 and no earlier attempt, the answer to the login attempts under one name, failed or not and from whatever address, is a matter of their
-- number: within the time of one lock from the first attempt on, they pass up to the limit, are limited up to
-- three times the limit, and the one after that locks the name for all that follow.
pub count_attempt-count_attempts :
    (user_hash : String) (start now : ℕ) (times : List ℕ) (c : CredentialProtection)
    → 0 < c.max_attempts
    → c.login_attempts user_hash ≡ none
    → All (IsWithin start c) times
    → IsWithin start c now
    → (count_attempt user_hash now (count_attempts user_hash (start ∷ times) c)).1
      ≡ answer_of c.max_attempts (length times + 2)
unfolding count_attempts
count_attempt-count_attempts user_hash start now times c positive fresh within here =
    let begun = count_attempt_first user_hash start c positive fresh in
    let tracks =
      count_attempts-Tracks user_hash start 1 times c ((count_attempt user_hash start c).0) positive
        (omega arith) within begun in
    let e : length times + 2 ≡ suc (1 + length times) = omega arith in
    rw e (
      (count_attempt-Tracks user_hash start (1 + length times) now c
        (count_attempts user_hash times ((count_attempt user_hash start c).0)) positive
        (omega arith) here tracks).1)
