-- ===== src/Siem/Tests.antt =====
-- A run of the model of internal/siem/siem.go.
use fortress_waf.Base.{ℕ, ◌≡◌, refl, true, List, [], ◌∷◌, text_keys}
use fortress_waf.Siem.Manager.{
  ExporterConfig, new_manager, send_append, send_signal, flush_take, flush_export, take_signal,
  close,
}
use fortress_waf.Siem.Handed.{received}
use fortress_waf.Siem.Delivery.{
  Step, appends, signals, takes_signal, takes, exports, closes, run, sent, Delivers, run-Delivers,
}
use fortress_waf.Siem.Cef.{format_cef, format_cef_severity}

abbrev splunk : ExporterConfig
splunk = record { kind = "splunk"; enabled = true; url = "https://siem.example.org" }

-- The last step stands first. Close takes a second batch while the loop still holds the first one, and
-- exports it before.
abbrev steps : List (Step ℕ)
steps =
    exports 0
    ∷ exports 1
    ∷ takes ("splunk" ∷ [])
    ∷ closes
    ∷ appends 3
    ∷ takes ("splunk" ∷ [])
    ∷ takes_signal
    ∷ signals
    ∷ appends 2
    ∷ appends 1
    ∷ []

run-Delivers_example :
    Delivers "splunk" splunk (sent steps) (run steps (new_manager 2 (splunk ∷ [])))
run-Delivers_example =
    run-Delivers "splunk" splunk 2 (splunk ∷ []) steps refl
      (tt, (tt, (refl, (tt, (tt, (refl, (tt, (tt, (tt, (tt, tt))))))))))

overtaken_test : received "splunk" (run steps (new_manager 2 (splunk ∷ []))).handed ≡ 3 ∷ 1 ∷ 2 ∷ []
unfolding new_manager send_append send_signal flush_take flush_export take_signal close
overtaken_test = refl

-- The bars of a name stand in the text as they are.
bars_test :
    format_cef
      (λ n. "9")
      (record {
        host = "h";
        name = "a|b";
        severity = 9;
        src_ip = "1";
        dst_ip = "2";
        http_method = "";
        http_uri = "/";
        attack_type = "";
        rule_id = "";
      })
    ≡ "CEF:0|h|FortressWAF|a|b|9|a|b|Very High src=1 dst=2 dpt=h request=/"
unfolding format_cef format_cef_severity
bars_test = refl
