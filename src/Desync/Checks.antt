-- ===== src/Desync/Checks.antt =====
-- The six checks of internal/engine/desync.go and Inspect.
use fortress_waf.Base.{
  ℕ, ◌+◌, Bool, false, String, List, [], ◌∷◌, Option, none, some, map, filter, any, length, ltb,
  ◌||◌, ◌&&◌, not, if◌then◌else◌, ◌==◌, text_keys,
}
use fortress_waf.Base.Int.{ℤ, pos, ltb_ℤ}
use fortress_waf.Pipeline.Types.{Action}
use fortress_waf.Pipeline.Detection.{Detection, detection}

-- The functions of strings and strconv that the checks call.
pub record HeaderLibrary : Type 0 where
  pub to_lower : String → String
  pub contains : String → String → Bool
  pub trim_space : String → String
  pub starts_with_space : String → Bool
  pub parse_int : String → Option ℤ

-- Without devMode, which is not read, and the regular expressions, which are not used.
pub record DesyncDetector : Type 0 where
  pub max_body_size : ℤ
  pub strict_cl : Bool
  pub detect_obs_fold : Bool

-- The values of each header of the request, and the headers of the context in the order of the visit.
pub record HeaderRequest : Type 0 where
  pub values : String → List String
  pub headers : List (String × String)

-- `Header.Get`
abbrev pub first_value : List String → String
first_value [] = ""
first_value (v ∷ vs) = v

-- Whether a value differs from the first.
abbrev pub is_mixed : List String → Bool
is_mixed [] = false
is_mixed (first ∷ rest) = any (λ v. not (v == first)) rest

abbrev pub or_else : Option Detection → Option Detection → Option Detection
or_else (some d) later = some d
or_else none later = later

-- The tests of a length that is a number.
unfoldable pub check_length : DesyncDetector → ℤ → Option Detection
check_length d val =
    if ltb_ℤ val (pos 0)
    then some (detection Action.block "DSYNC_006" "Negative Content-Length" "high" 80)
    else if ltb_ℤ (pos 0) d.max_body_size && ltb_ℤ d.max_body_size val
    then some (detection Action.block "DSYNC_007" "Content-Length Exceeds Limit" "medium" 30)
    else none

abbrev pub check_parsed : DesyncDetector → Option ℤ → Option Detection
check_parsed d none = some (detection Action.block "DSYNC_005" "Invalid Content-Length" "high" 70)
check_parsed d (some val) = check_length d val

module _ (lib : HeaderLibrary) where
  open lib use {to_lower, contains, trim_space, starts_with_space, parse_int}

  unfoldable pub is_chunked : String → Bool
  is_chunked te = contains (to_lower te) "chunked"

  -- The values that are not blank, trimmed.
  abbrev pub lengths_of : List String → List String
  lengths_of values = filter (λ v. not (v == "")) (map trim_space values)

  unfoldable pub check_lengths : List String → Option Detection
  check_lengths cls =
      if ltb 1 (length cls) && (ltb 1 (length (lengths_of cls)) && is_mixed (lengths_of cls))
      then some (detection Action.block "DSYNC_002" "Multiple Content-Length (CL.CL)" "critical" 90)
      else none

  unfoldable pub check_clte : HeaderRequest → Option Detection
  check_clte r =
      if not (first_value (r.values "Content-Length") == "")
        && is_chunked (first_value (r.values "Transfer-Encoding"))
      then some (detection Action.block "DSYNC_001" "CL.TE Desync" "critical" 95)
      else check_lengths (r.values "Content-Length")

  unfoldable pub check_tecl : HeaderRequest → Option Detection
  check_tecl r =
      if is_chunked (first_value (r.values "Transfer-Encoding"))
        && not (first_value (r.values "Content-Length") == "")
      then some (detection Action.block "DSYNC_003" "TE.CL Desync" "critical" 95)
      else none

  abbrev is_folded : String × String → Bool
  is_folded (k, v) = starts_with_space k || starts_with_space v

  unfoldable pub check_obs_fold : DesyncDetector → HeaderRequest → Option Detection
  check_obs_fold d r =
      if not d.detect_obs_fold
      then none
      else if any is_folded r.headers
      then (if d.strict_cl
          then some (detection Action.block "DSYNC_004" "Obs-fold Header" "high" 75)
          else some (detection Action.monitor "DSYNC_004" "Obs-fold Header" "medium" 40))
      else none

  -- The first value of Content-Length.
  unfoldable pub check_content_length_anomaly : DesyncDetector → List String → Option Detection
  check_content_length_anomaly d [] = none
  check_content_length_anomaly d (v ∷ vs) =
      if trim_space v == "" then none else check_parsed d (parse_int (trim_space v))

  -- The headers of the context that are this one in lower case.
  abbrev pub count_lower : String → List (String × String) → ℕ
  count_lower name [] = 0
  count_lower name ((k, v) ∷ headers) =
      let rest = count_lower name headers in if to_lower k == name then rest + 1 else rest

  abbrev is_exempt : String → Bool
  is_exempt name = (name == "content-length" || name == "transfer-encoding") || name == "host"

  -- The map of the counts is visited by the headers themselves: the answer, its evidence aside, is the same in every
  -- order.
  unfoldable pub check_duplicate_headers : DesyncDetector → HeaderRequest → Option Detection
  check_duplicate_headers d r =
      if d.strict_cl
        && any
            (λ (h : String × String).
              ltb 1 (count_lower (to_lower h.0) r.headers) && not (is_exempt (to_lower h.0)))
            r.headers
      then some (detection Action.monitor "DSYNC_008" "Duplicate Header" "medium" 20)
      else none

  unfoldable pub check_te_header : HeaderRequest → Option Detection
  check_te_header r =
      let te = first_value (r.values "TE") in
      if not (te == "") && (contains (to_lower te) "chunked" || contains (to_lower te) "trailers")
      then some (detection Action.block "DSYNC_009" "TE Header Present" "high" 70)
      else none

  unfoldable pub inspect : DesyncDetector → Option HeaderRequest → Option Detection
  inspect d none = none
  inspect d (some r) = or_else (check_clte r) (
      or_else (check_tecl r) (
        or_else (check_obs_fold d r) (
          or_else (check_content_length_anomaly d (r.values "Content-Length"))
            (or_else (check_duplicate_headers d r) (check_te_header r)))))
