-- ===== src/Desync/Tests.antt =====
-- Runs of the model of internal/engine/desync.go on a few requests.
use fortress_waf.Base.{
  ◌≡◌, refl, true, String, List, [], ◌∷◌, Option, none, some, if◌then◌else◌, ◌==◌, text_keys,
}
use fortress_waf.Base.Int.{ℤ, pos}
use fortress_waf.Desync.Checks.{
  HeaderLibrary, HeaderRequest, DesyncDetector, inspect, check_clte, check_tecl, check_lengths,
  is_chunked, check_obs_fold, check_length, check_content_length_anomaly, check_duplicate_headers,
  check_te_header,
}
use fortress_waf.Desync.Framing.{IsFramed, inspect-IsFramed, check_tecl-check_clte}

abbrev read : String → Option ℤ
read s = if s == "5" then some (pos 5) else if s == "+5" then some (pos 5) else none

abbrev library : HeaderLibrary
library = record {
  to_lower = λ s. s;
  contains = λ s t. s == t;
  trim_space = λ s. s;
  starts_with_space = λ s. s == " ";
  parse_int = read;
}

abbrev detector : DesyncDetector
detector = record { max_body_size = pos 100; strict_cl = true; detect_obs_fold = true }

abbrev of_length : List String → String → List String
of_length lengths name = if name == "Content-Length" then lengths else []

-- A body of five bytes.
abbrev plain : HeaderRequest
plain = record { values = of_length ("5" ∷ "5" ∷ []); headers = ("Content-Length", "5") ∷ [] }

inspect-IsFramed_example : IsFramed library detector plain
unfolding inspect check_clte check_tecl check_lengths is_chunked check_obs_fold check_length
    check_content_length_anomaly check_duplicate_headers check_te_header
inspect-IsFramed_example = inspect-IsFramed library detector plain refl

check_tecl-check_clte_test : check_tecl library plain ≡ none
unfolding check_clte check_lengths is_chunked
check_tecl-check_clte_test = check_tecl-check_clte library plain refl

-- A second Transfer-Encoding is not looked at.
abbrev two_encodings : String → List String
two_encodings name =
    if name == "Content-Length"
    then "5" ∷ []
    else if name == "Transfer-Encoding"
    then "identity" ∷ "chunked" ∷ []
    else []

second_encoding_test :
    inspect library detector (some (record { values = two_encodings; headers = [] })) ≡ none
unfolding inspect check_clte check_tecl check_lengths is_chunked check_obs_fold check_length
    check_content_length_anomaly check_duplicate_headers check_te_header
second_encoding_test = refl
