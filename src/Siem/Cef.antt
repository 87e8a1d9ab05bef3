-- ===== src/Siem/Cef.antt =====
-- FormatCEF of internal/siem/siem.go.
use Prim.Native.String.{◌++◌ as append}
use fortress_waf.Base.{ℕ, String, leb, if◌then◌else◌, ◌==◌, text_keys}

-- The fields of an event that the format reads; a severity below 0 is taken as 0.
pub record SiemEvent : Type 0 where
  pub host : String
  pub name : String
  pub severity : ℕ
  pub src_ip : String
  pub dst_ip : String
  pub http_method : String
  pub http_uri : String
  pub attack_type : String
  pub rule_id : String

unfoldable pub format_cef_severity : ℕ → String
format_cef_severity level =
    if leb 8 level
    then "Very High"
    else if leb 6 level
    then "High"
    else if leb 4 level
    then "Medium"
    else if leb 2 level
    then "Low"
    else "Unknown"

-- A field that is left out where it is empty.
abbrev optional : String → String → String
optional key value = if value == "" then "" else append key value

-- `show` writes a number.
unfoldable pub format_cef : (ℕ → String) → SiemEvent → String
format_cef show event = append "CEF:0|" (
    append event.host (
      append "|FortressWAF|" (
        append event.name (
          append "|" (
            append (show event.severity) (
              append "|" (
                append event.name (
                  append "|" (
                    append (format_cef_severity event.severity) (
                      append " src=" (
                        append event.src_ip (
                          append " dst=" (
                            append event.dst_ip (
                              append " dpt=" (
                                append event.host (
                                  append (optional " requestMethod=" event.http_method) (
                                    append (optional " request=" event.http_uri) (
                                      append (optional " attackType=" event.attack_type)
                                        (optional " ruleId=" event.rule_id)))))))))))))))))))
