-- ===== src/Ddos/Inspect/Steps.antt =====
-- What one request does, in Inspect of internal/engine/ddos.go, to the counter of an address.
use fortress_waf.Base.{
  ℕ, ◌≡◌, inl, inr, refl, ◌∙◌, ap, Bool, String, Option, none, some, arith, ◌&&◌, ◌==◌, not,
  text_keys, if_holds, elim_holds,
}
use fortress_waf.Base.Int.{ℤ, pos, ltb_ℤ}
use fortress_waf.Base.Map.{Map, put}
use fortress_waf.Pipeline.Detection.{Detection}
use fortress_waf.Ddos.Counter.{DdosProtection}
use fortress_waf.Ddos.Flood.{Request, detect_http_flood}
use fortress_waf.Ddos.Flood.Steps.{times_of, stored, is_none, Keeps, Steps, detect_http_flood-Steps}
use fortress_waf.Ddos.Slow.{detect_slowloris, detect_slow_post}
use fortress_waf.Ddos.Inspect.{or_else, inspect}

Keeps-self : (d : DdosProtection) → Keeps d d
Keeps-self d = record { same_window = refl; same_rate = refl; same_counters = refl }

Keeps-slow_loris_timers :
    (d : DdosProtection) (m : Map String ℕ) → Keeps d (record d { slow_loris_timers = m })
Keeps-slow_loris_timers d m = record { same_window = refl; same_rate = refl; same_counters = refl }

Keeps-slow_post_timers :
    (d : DdosProtection) (m : Map String ℕ) → Keeps d (record d { slow_post_timers = m })
Keeps-slow_post_timers d m = record { same_window = refl; same_rate = refl; same_counters = refl }

detect_slowloris-Keeps :
    (ctx : Request) (now : ℕ) (d : DdosProtection) → Keeps d ((detect_slowloris ctx now d).0)
unfolding detect_slowloris
detect_slowloris-Keeps ctx now d =
    let keeps : DdosProtection × Option Detection → Type 0 = λ r. Keeps d r.0 in
    let started = Keeps-slow_loris_timers d (put ctx.real_ip now d.slow_loris_timers) in
    let same = Keeps-self d in
    if_holds keeps (not (ctx.expect == "")) _ _ started (
      if_holds keeps (ctx.content_length == "" && ctx.method == "POST") _ _
        (elim_holds keeps (d.slow_loris_timers ctx.real_ip) _ _ started (λ n e. same)) same)

detect_slow_post-Keeps :
    (scan : String → ℤ) (ctx : Request) (now : ℕ) (d : DdosProtection)
    → Keeps d ((detect_slow_post scan ctx now d).0)
unfolding detect_slow_post
detect_slow_post-Keeps scan ctx now d =
    let keeps : DdosProtection × Option Detection → Type 0 = λ r. Keeps d r.0 in
    let started = Keeps-slow_post_timers d (put ctx.real_ip now d.slow_post_timers) in
    let same = Keeps-self d in
    elim_holds keeps ctx.body_length _ _ same (λ n _.
      if_holds keeps (not (ctx.method == "POST")) _ _ same (
        if_holds keeps (ctx.content_length == "") _ _ same (
          if_holds keeps (ltb_ℤ (pos 1048576) (scan ctx.content_length)) _ _
            (elim_holds keeps (d.slow_post_timers ctx.real_ip) _ _ started (λ k e. same)) same)))

or_else-Keeps :
    (d : DdosProtection) (r : DdosProtection × Option Detection)
    (next : DdosProtection → DdosProtection × Option Detection)
    → Keeps d r.0
    → ((d1 : DdosProtection) → Keeps d1 ((next d1).0))
    → Keeps d ((or_else r next).0)
unfolding or_else
or_else-Keeps d (d1, some dec) next keeps later = keeps
or_else-Keeps d (d1, none) next keeps later =
    let k = later d1 in
    record {
      same_window = k.same_window ∙ keeps.same_window;
      same_rate = k.same_rate ∙ keeps.same_rate;
      same_counters = k.same_counters ∙ keeps.same_counters;
    }

or_else-Steps :
    (ip : String) (ctx : Request) (now : ℕ) (d : DdosProtection)
    (r : DdosProtection × Option Detection)
    (next : DdosProtection → DdosProtection × Option Detection)
    → Steps ip ctx now d r.0 (is_none r.1)
    → ((d1 : DdosProtection) → Keeps d1 ((next d1).0))
    → Steps ip ctx now d ((or_else r next).0) (is_none ((or_else r next).1))
unfolding or_else
or_else-Steps ip ctx now d (d1, some dec) next steps later = steps
or_else-Steps ip ctx now d (d1, none) next steps later =
    let k = later d1 in
    let same : stored ip ((next d1).0) ≡ stored ip d1 = ap (λ m. times_of (m ip)) k.same_counters in
    record {
      same_window = k.same_window ∙ steps.same_window;
      same_rate = k.same_rate ∙ steps.same_rate;
      times = elim (steps.times) [
        | inl (e, other) ↦ inl (same ∙ e, ground (arith, other))
        | inr (e, room) ↦ inr (same ∙ e, λ p. room refl)
      ];
    }

module _ (to_lower : String → String) (contains : String → String → Bool) (scan : String → ℤ) where
  pub inspect-Steps :
      (ip : String) (ctx : Request) (now : ℕ) (d : DdosProtection)
      → Steps ip ctx now d
          ((inspect to_lower contains scan ctx now d).0)
          (is_none ((inspect to_lower contains scan ctx now d).1))
  unfolding inspect
  inspect-Steps ip ctx now d =
      or_else-Steps ip ctx now d (detect_http_flood ctx now d) _
        (detect_http_flood-Steps ip ctx now d)
        (λ d1.
          or_else-Keeps d1 (detect_slowloris ctx now d1) _ (detect_slowloris-Keeps ctx now d1)
            (λ d2.
              or_else-Keeps d2 (detect_slow_post scan ctx now d2) _
                (detect_slow_post-Keeps scan ctx now d2) (λ d3. Keeps-self d3)))
