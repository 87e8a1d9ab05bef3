-- ===== src/Ddos/Flood.antt =====
-- detectHTTPFlood of internal/engine/ddos.go.
pub mod Steps
use fortress_waf.Base.{
  ℕ, Bool, true, false, String, List, Option, none, some, if◌then◌else◌, ◌==◌, text_keys,
}
use fortress_waf.Base.Map.{Map}
use fortress_waf.Pipeline.Types.{Action}
use fortress_waf.Pipeline.Detection.{Detection, detection}
use fortress_waf.Ddos.Counter.{DdosProtection, SlidingWindowCounter, check_rate, check_key}

-- What the detectors read of a RequestContext. `content_length` is the header Content-Length, or the empty
-- text; a nil body is `none`, and one that is there is given by its length. The values of the query are
-- byte strings, the parameters in the order of the visit.
pub record Request : Type 0 where
  pub real_ip : String
  pub path : String
  pub session_id : String
  pub method : String
  pub expect : String
  pub content_length : String
  pub body_length : Option ℕ
  pub query_params : List (String × List (List ℕ))

-- The last test, for a request with a session.
unfoldable pub check_session : Request → ℕ → DdosProtection → DdosProtection × Option Detection
check_session ctx now d =
    if ctx.session_id == ""
    then (d, none)
    else (let (counters, fits) =
          check_key d d.session_counters ctx.session_id d.per_session_rate now in
        (
          record d { session_counters = counters },
          (if fits
              then none
              else some (detection Action.rate_limit "DDoS003" "HTTP Flood - Session" "medium" 50)),
        ))

-- The test by the path, and what follows.
unfoldable pub check_endpoint : Request → ℕ → DdosProtection → DdosProtection × Option Detection
check_endpoint ctx now d =
    let (counters, fits) = check_key d d.endpoint_counters ctx.path d.per_endpoint_rate now in
    let d' = record d { endpoint_counters = counters } in
    if fits
    then check_session ctx now d'
    else (d', some (detection Action.rate_limit "DDoS002" "HTTP Flood - Endpoint" "high" 60))

-- The test by the address, and what follows.
unfoldable pub check_ip : Request → ℕ → DdosProtection → DdosProtection × Option Detection
check_ip ctx now d =
    let (counters, fits) = check_key d d.ip_counters ctx.real_ip d.per_ip_rate now in
    let d' = record d { ip_counters = counters } in
    if fits
    then check_endpoint ctx now d'
    else (d', some (detection Action.rate_limit "DDoS001" "HTTP Flood - IP" "high" 65))

unfoldable pub check_global_rate : ℕ → DdosProtection → DdosProtection × Option Detection
check_global_rate now d =
    let (counter, fits) = check_rate d.window_size d.global_counter d.global_rate now in
    (
      record d { global_counter = counter },
      (if fits
          then none
          else some (detection Action.rate_limit "DDoS000" "HTTP Flood - Global" "critical" 90)),
    )

unfoldable pub detect_http_flood : Request → ℕ → DdosProtection → DdosProtection × Option Detection
detect_http_flood ctx now d =
    let (d', global) = check_global_rate now d in
    elim global [ some dec ↦ (d', some dec) | none ↦ check_ip ctx now d' ]
