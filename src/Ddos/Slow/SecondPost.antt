-- ===== src/Ddos/Slow/SecondPost.antt =====
-- What detectSlowloris of internal/engine/ddos.go remembers of an address.
use fortress_waf.Base.{
  ℕ, ◌+◌, ◌*◌, ◌≡◌, refl, ◌∙◌, ap, String, List, [], ◌∷◌, Option, none, some, All, not, ◌&&◌, ltb,
  if◌then◌else◌, ◌==◌, text_keys, agrees_false→ne, Bool-cases, if_holds, elim_holds, inl, inr,
}
use text.Mathlib.TextEquality.{eq_iff}
use fortress_waf.Base.Map.{put, put_self, put_ne}
use fortress_waf.Pipeline.Types.{Action}
use fortress_waf.Pipeline.Detection.{Detection, detection}
use fortress_waf.Ddos.Counter.{DdosProtection, second}
use fortress_waf.Ddos.Flood.{Request}
use fortress_waf.Ddos.Slow.{detect_slowloris}

-- A POST without a Content-Length, as a chunked upload is.
abbrev pub IsChunkedPost : Request → Type 0
IsChunkedPost ctx = (ctx.expect ≡ "") × (ctx.content_length ≡ "") × (ctx.method ≡ "POST")

-- The requests that detectSlowloris sees.
unfoldable pub visits : List (ℕ × Request) → DdosProtection → DdosProtection
visits [] d = d
visits ((now, ctx) ∷ requests) d = visits requests ((detect_slowloris ctx now d).0)

-- A request that does not start the timer of the address anew.
abbrev pub IsPlainFor : String → ℕ × Request → Type 0
IsPlainFor ip (now, ctx) = ctx.real_ip ≡ ip → ctx.expect ≡ ""

detect_slowloris-timer :
    (ip : String) (start now : ℕ) (ctx : Request) (d : DdosProtection)
    → IsPlainFor ip (now, ctx)
    → d.slow_loris_timers ip ≡ some start
    → ((detect_slowloris ctx now d).0).slow_loris_timers ip ≡ some start
unfolding detect_slowloris
detect_slowloris-timer ip start now ctx d plain timer =
    let kept : DdosProtection × Option Detection → Type 0 =
      λ r. (r.0).slow_loris_timers ip ≡ some start in
    let is_post = ctx.content_length == "" && ctx.method == "POST" in
    elim (Bool-cases (ctx.real_ip == ip)) [
      | inl same ↦
          let e : ctx.real_ip ≡ ip = (eq_iff ctx.real_ip ip).0 same in
          let running : d.slow_loris_timers ctx.real_ip ≡ some start =
            ap d.slow_loris_timers e ∙ timer in
          rw (plain e, running) (if_holds kept is_post _ _ timer timer)
      | inr other ↦
          let started : put ctx.real_ip now d.slow_loris_timers ip ≡ some start =
            put_ne ctx.real_ip ip now d.slow_loris_timers (agrees_false→ne ctx.real_ip ip other)
            ∙ timer in
          if_holds kept (not (ctx.expect == "")) _ _ started (
            if_holds kept is_post _ _
              (elim_holds kept (d.slow_loris_timers ctx.real_ip) _ _ started (λ n _. timer)) timer)
    ]

visits-timer :
    (ip : String) (start : ℕ) (requests : List (ℕ × Request)) (d : DdosProtection)
    → All (IsPlainFor ip) requests
    → d.slow_loris_timers ip ≡ some start
    → (visits requests d).slow_loris_timers ip ≡ some start
unfolding visits
visits-timer ip start [] d plain timer = timer
visits-timer ip start ((now, ctx) ∷ requests) d (plain, rest) timer =
    visits-timer ip start requests ((detect_slowloris ctx now d).0) rest
      (detect_slowloris-timer ip start now ctx d plain timer)

detect_slowloris-chunked :
    (now : ℕ) (ctx : Request) (d : DdosProtection)
    → IsChunkedPost ctx
    → detect_slowloris ctx now d ≡ elim (d.slow_loris_timers ctx.real_ip) [
      | none ↦ (record d { slow_loris_timers = put ctx.real_ip now d.slow_loris_timers }, none)
      | some start ↦ (
        d,
        (if ltb (start + 30 * second) now
            then some (detection Action.block "DDoS004" "Slowloris Attack" "high" 85)
            else none),
      )
    ]
unfolding detect_slowloris
detect_slowloris-chunked now ctx d (expect, len, method) = rw (expect, len, method) refl

-- The first chunked POST of an address starts its timer, and until a cleanup or a request with Expect
-- nothing of what the address or others send stops it: a later chunked POST of the address is blocked
-- exactly where more than 30 seconds have passed since the first, however quick each of them was.
pub detect_slowloris-visits :
    (first now : ℕ) (ctx ctx' : Request) (requests : List (ℕ × Request)) (d : DdosProtection)
    → IsChunkedPost ctx
    → IsChunkedPost ctx'
    → ctx'.real_ip ≡ ctx.real_ip
    → d.slow_loris_timers ctx.real_ip ≡ none
    → All (IsPlainFor ctx.real_ip) requests
    → ((detect_slowloris ctx first d).1 ≡ none)
      × ((detect_slowloris ctx' now (visits requests ((detect_slowloris ctx first d).0))).1 ≡ (
          if ltb (first + 30 * second) now
          then some (detection Action.block "DDoS004" "Slowloris Attack" "high" 85)
          else none))
detect_slowloris-visits first now ctx ctx' requests d chunked chunked' same fresh plain =
    let ip = ctx.real_ip in
    let begun : detect_slowloris ctx first d
        ≡ (record d { slow_loris_timers = put ip first d.slow_loris_timers }, none) =
      detect_slowloris-chunked first ctx d chunked ∙ rw fresh refl in
    let timer : ((detect_slowloris ctx first d).0).slow_loris_timers ip ≡ some first =
      rw begun (put_self ip first d.slow_loris_timers) in
    let later = visits-timer ip first requests ((detect_slowloris ctx first d).0) plain timer in
    (
      ap (λ r. r.1) begun,
      ap (λ r. r.1)
            (detect_slowloris-chunked now ctx' (visits requests ((detect_slowloris ctx first d).0))
              chunked')
          ∙ rw (same, later) refl,
    )
