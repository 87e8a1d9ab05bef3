-- ===== src/Behavioral/Inspect.antt =====
-- The state and the operations of internal/engine/behavioral.go. The counts of reputation are integers; a
-- score is a whole number.
use fortress_waf.Base.{
  ℕ, ◌+◌, ◌*◌, Bool, true, false, String, List, Option, none, some, ltb, leb, if◌then◌else◌, ◌==◌,
  text_keys,
}
use fortress_waf.Base.Int.{ℤ, pos, add_ℤ, ltb_ℤ}
use fortress_waf.Base.Map.{Map, empty, put, get_zero}
use fortress_waf.Base.Fault.{Fault, ok, ◌>>=◌}
use fortress_waf.Pipeline.Types.{Action}
use fortress_waf.Pipeline.Detection.{Detection, detection}
use fortress_waf.Behavioral.Window.{SlidingWindow, new_sliding_window, add}
use fortress_waf.Behavioral.Entropy.{check_path_entropy}

pub record BehavioralEngine : Type 0 where
  pub dev_mode : Bool
  pub reputation : Bool
  pub velocity : Bool
  pub path_entropy : Bool
  pub threshold : ℕ
  pub window_sec : ℕ
  pub max_requests : ℕ
  pub ip_requests : Map String SlidingWindow
  pub ip_reputation : Map String ℤ
  pub bad_ips : Map String Bool
  pub blocked_ips : Map String ℕ

unfoldable pub new_behavioral_engine : Bool → Bool → Bool → Bool → ℕ → ℕ → ℕ → BehavioralEngine
new_behavioral_engine dev_mode reputation velocity path_entropy threshold window_sec max_requests =
    record {
      dev_mode = dev_mode;
      reputation = reputation;
      velocity = velocity;
      path_entropy = path_entropy;
      threshold = threshold;
      window_sec = window_sec;
      max_requests = max_requests;
      ip_requests = empty;
      ip_reputation = empty;
      bad_ips = empty;
      blocked_ips = empty;
    }

-- getWindow; the new window is put into the map with what add makes of it.
unfoldable pub get_window : String → BehavioralEngine → SlidingWindow
get_window ip e = elim (e.ip_requests ip) [
  | none ↦ new_sliding_window (e.window_sec * 1000000000) (e.max_requests * 10)
  | some sw ↦ sw
]

-- What a part of Inspect answers: a decision, or the score so far.
pub data Verdict : Type 0 where
  answered : Detection → Verdict
  scored : ℕ → Verdict

-- The tests of the number of requests in the window.
unfoldable pub check_velocity : ℕ → BehavioralEngine → Verdict
check_velocity count e =
    let high = detection Action.block "BEH_002" "High Request Velocity" "critical" 65 in
    if ltb e.max_requests count
    then (if e.dev_mode
        then answered (detection Action.rate_limit "BEH_001" "Request Velocity Exceeded" "high" 35)
        else if ltb (e.max_requests * 2) count
        then answered high
        else scored 35)
    else if ltb (e.max_requests * 2) count
    then answered high
    else scored 0

unfoldable pub check_reputation : String → ℕ → BehavioralEngine → Verdict
check_reputation ip score e =
    let rep = get_zero (pos 0) e.ip_reputation ip in
    elim (e.bad_ips ip) [
      | some _ ↦ answered (detection Action.block "BEH_010" "Known Bad IP" "critical" 90)
      | none ↦
          if ltb_ℤ (pos 50) rep
          then answered (detection Action.block "BEH_011" "Poor IP Reputation" "high" 45)
          else if ltb_ℤ (pos 10) rep
          then scored (score + 20)
          else scored score
    ]

-- The last test.
unfoldable pub check_threshold : ℕ → BehavioralEngine → Option Detection
check_threshold score e =
    if leb e.threshold score
    then some (detection Action.monitor "BEH_099" "Behavioral Threat Detected" "medium" score)
    else none

module _ (parts : String → List (List ℕ)) (looks_random : List ℕ → Bool) where
  unfoldable pub check_path : String → ℕ → BehavioralEngine → Option Detection
  check_path path score e =
      let path_score = check_path_entropy parts looks_random path in
      if e.path_entropy
      then (if ltb 20 path_score
          then some (detection Action.monitor "BEH_020" "High Path Entropy" "medium" path_score)
          else check_threshold (score + path_score) e)
      else check_threshold score e

  -- From the test of the reputation on.
  unfoldable pub inspect_reputation : String → String → ℕ → BehavioralEngine → Option Detection
  inspect_reputation ip path score e =
      elim (if e.reputation then check_reputation ip score e else scored score) [
        | answered d ↦ some d
        | scored s ↦ check_path path s e
      ]

  -- From the test of the velocity on.
  unfoldable pub inspect_velocity :
      String → String → ℕ → BehavioralEngine → Verdict → BehavioralEngine × Option Detection
  inspect_velocity ip path count e (answered d) = (e, some d)
  inspect_velocity ip path count e (scored s) = (e, inspect_reputation ip path s e)

  -- The window of the address, and the tests of its count.
  unfoldable pub inspect_window :
      String → String → ℕ → BehavioralEngine → Fault (BehavioralEngine × Option Detection)
  inspect_window ip path now e = do
    (sw, count) ← add now (get_window ip e)
    ok (
        inspect_velocity ip path count (record e { ip_requests = put ip sw e.ip_requests })
          (check_velocity count e))

  unfoldable pub inspect :
      String → String → ℕ → BehavioralEngine → Fault (BehavioralEngine × Option Detection)
  inspect ip path now e =
      if ip == ""
      then ok (e, none)
      else if e.velocity
      then inspect_window ip path now e
      else ok (e, inspect_reputation ip path 0 e)

unfoldable pub report_bad_ip : String → BehavioralEngine → BehavioralEngine
report_bad_ip ip e = record e { bad_ips = put ip true e.bad_ips }

unfoldable pub increment_reputation : String → ℤ → BehavioralEngine → BehavioralEngine
increment_reputation ip delta e =
    let rep = add_ℤ (get_zero (pos 0) e.ip_reputation ip) delta in
    record e {
      ip_reputation = put ip rep e.ip_reputation;
      bad_ips = if ltb_ℤ (pos 100) rep then put ip true e.bad_ips else e.bad_ips;
    }

unfoldable pub block_ip : String → ℕ → ℕ → BehavioralEngine → BehavioralEngine
block_ip ip duration now e = record e {
  blocked_ips = put ip (now + duration) e.blocked_ips;
  bad_ips = put ip true e.bad_ips;
}

-- Whether a tick of the cleanup ends the block of an address.
abbrev is_over : ℕ → Option ℕ → Bool
is_over now none = false
is_over now (some until) = ltb until now

-- A tick of the cleanup. `dropped` are the addresses whose windows it deletes where there are more than
-- 10,000 of them: the first 1,001 that the loop visits.
unfoldable pub cleanup : ℕ → (String → Bool) → BehavioralEngine → BehavioralEngine
cleanup now dropped e = record e {
  blocked_ips = λ ip. if is_over now (e.blocked_ips ip) then none else e.blocked_ips ip;
  bad_ips = λ ip. if is_over now (e.blocked_ips ip) then none else e.bad_ips ip;
  ip_reputation = λ ip. if is_over now (e.blocked_ips ip) then none else e.ip_reputation ip;
  ip_requests = λ ip. if dropped ip then none else e.ip_requests ip;
}
