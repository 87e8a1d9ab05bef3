-- ===== src/Ddos/Slow.antt =====
-- detectSlowloris and detectSlowPOST of internal/engine/ddos.go. The rate of a body is compared by
-- multiplication, without the rounding of float64.
pub mod SecondPost
use fortress_waf.Base.{
  ℕ, ◌+◌, ◌-◌, ◌*◌, Bool, true, false, String, Option, none, some, not, ◌&&◌, ltb, if◌then◌else◌,
  ◌==◌, text_keys,
}
use fortress_waf.Base.Int.{ℤ, pos, ltb_ℤ}
use fortress_waf.Base.Map.{Map, put}
use fortress_waf.Pipeline.Types.{Action}
use fortress_waf.Pipeline.Detection.{Detection, detection}
use fortress_waf.Ddos.Counter.{DdosProtection, second}
use fortress_waf.Ddos.Flood.{Request}

unfoldable pub detect_slowloris : Request → ℕ → DdosProtection → DdosProtection × Option Detection
detect_slowloris ctx now d =
    let started = record d { slow_loris_timers = put ctx.real_ip now d.slow_loris_timers } in
    if not (ctx.expect == "")
    then (started, none)
    else if ctx.content_length == "" && ctx.method == "POST"
    then elim (d.slow_loris_timers ctx.real_ip) [
      | none ↦ (started, none)
      | some start ↦ (
        d,
        (if ltb (start + 30 * second) now
            then some (detection Action.block "DDoS004" "Slowloris Attack" "high" 85)
            else none),
      )
    ]
    else (d, none)

-- `scan` is Sscanf with the format "%d", which leaves a 0 where it reads no number.
unfoldable pub detect_slow_post :
    (String → ℤ) → Request → ℕ → DdosProtection → DdosProtection × Option Detection
detect_slow_post scan ctx now d = elim ctx.body_length [
  | none ↦ (d, none)
  | some received ↦
      if not (ctx.method == "POST")
      then (d, none)
      else if ctx.content_length == ""
      then (d, none)
      else if ltb_ℤ (pos 1048576) (scan ctx.content_length)
      then elim (d.slow_post_timers ctx.real_ip) [
        | none ↦ (record d { slow_post_timers = put ctx.real_ip now d.slow_post_timers }, none)
        | some start ↦ (
          d,
          (if ltb (start + 10 * second) now && ltb (received * second) (1024 * (now - start))
              then some (detection Action.block "DDoS005" "Slow POST Attack" "high" 80)
              else none),
        )
      ]
      else (d, none)
]
