-- ===== src/Pipeline/Engine.antt =====
-- New, Inspect, enrichExplainability and finalDecision of internal/engine/engine.go, for an engine
-- that is not in learning mode. `inspectors` holds nil as `none`. `stability` is the table of the
-- confidence scorer. The calls of slog are left out.
use fortress_waf.Base.{
  ℕ, ◌+◌, Bool, true, false, String, List, [], ◌∷◌, ◌++◌, Option, none, some, leb, if◌then◌else◌,
  any, ◌==◌, text_keys, ◌&&◌, not,
}
use fortress_waf.Base.Map.{Map}
use fortress_waf.Pipeline.Types.{
  Action, block, allow, challenge, monitor, rate_limit, Decision, Context, Outcome, failed, nothing,
  decided, Inspector, is_block, is_rate_limit,
}
use fortress_waf.Pipeline.Confidence.{score_decision}

pub record Engine (Q : Type 0) : Type 0 where
  pub inspectors : List (Option (Inspector Q))
  pub named : Map String (Inspector Q)
  pub shadow_mode : Bool
  pub stability : Map String ℕ

abbrev pub explanation : Action → ℕ → String
explanation block score =
    if leb 90 score
    then "Critical threat detected with high confidence. Immediate blocking required."
    else "Request matched blocking rule pattern with sufficient certainty."
explanation challenge score =
    "Request exhibits suspicious characteristics requiring additional verification."
explanation monitor score = "Request flagged for observation. No action taken."
explanation rate_limit score = "Request rate exceeds configured threshold for this endpoint."
explanation allow score = "No actionable threat detected."

-- enrichExplainability
unfoldable pub enrich_explainability : Decision → Decision
enrich_explainability d =
    if d.explainability == "" then record d { explainability = explanation d.action d.score } else d

abbrev pub verdict : Action → ℕ → String → Decision
verdict action score evidence = record {
  action = action;
  rule_id = "";
  rule_name = "";
  severity = "";
  score = score;
  evidence = evidence;
  blocked = false;
  confidence_score = 0;
  explainability = "";
  inspector_name = "";
}

-- The names that the switch of UpdateInspector knows.
abbrev pub field_names : List String
field_names =
    "bot" ∷ "ddos" ∷ "sqli" ∷ "xss" ∷ "api_protect" ∷ "rce" ∷ "protocol" ∷ "upload" ∷ "credential"
    ∷ "jwt" ∷ "oauth" ∷ "graphql" ∷ "mtls" ∷ "websocket" ∷ "captcha" ∷ "soap" ∷ "grpc"
    ∷ "response_inspect" ∷ "ja3" ∷ "behavioral" ∷ "wasm" ∷ "desync" ∷ "adaptive" ∷ "ebpf"
    ∷ "parser_hardener" ∷ []

module _ {Q : Type 0} where
  -- finalDecision
  unfoldable pub final_decision : Context Q → Decision
  final_decision ctx =
      let score = ctx.threat_score in
      if leb 90 score
      then verdict block score "cumulative threat score exceeded threshold"
      else if leb 50 score
      then verdict challenge score "elevated threat score requires challenge"
      else if any (λ d. is_rate_limit d.action) ctx.decisions
      then verdict rate_limit score "rate limit exceeded"
      else verdict allow 0 ""

  -- What the loop does to a decision: the inspector's name, the confidence, the explanation.
  unfoldable pub complete : Engine Q → String → Decision → Decision
  unfolding score_decision enrich_explainability
  complete e name d =
      enrich_explainability (score_decision e.stability (record d { inspector_name = name }))

  -- What the loop notes of a decision in the context.
  unfoldable pub note : Decision → Context Q → Context Q
  note d ctx =
      let ctx' = record ctx {
        decisions = ctx.decisions ++ d ∷ [];
        threat_score = ctx.threat_score + d.score;
      } in
      if is_block d.action
      then record ctx' { is_known_attack = true; bot_score = d.score }
      else ctx'

  -- One turn of the loop, on what the inspector has made of the context. `next` is the rest of the
  -- loop.
  unfoldable pub conclude :
      Engine Q
      → (Context Q → Context Q × Decision)
      → String
      → Context Q × Outcome
      → Context Q × Decision
  conclude e next name (ctx, failed) = next ctx
  conclude e next name (ctx, nothing) = next ctx
  conclude e next name (ctx, decided d) =
      let done = complete e name d in
      let noted = note done ctx in
      if is_block done.action && not e.shadow_mode then (noted, done) else next noted

  -- The loop of Inspect.
  unfoldable pub inspect_each :
      Engine Q → List (Option (Inspector Q)) → Context Q → Context Q × Decision
  inspect_each e [] ctx = (ctx, final_decision ctx)
  inspect_each e (none ∷ rest) ctx = inspect_each e rest ctx
  inspect_each e (some inspector ∷ rest) ctx =
      conclude e (λ c. inspect_each e rest c) inspector.name (inspector.inspect ctx)

  unfoldable pub inspect : Engine Q → Context Q → Context Q × Decision
  inspect e ctx = inspect_each e e.inspectors ctx

  abbrev pub has_name : String → Option (Inspector Q) → Bool
  has_name name none = false
  has_name name (some inspector) = inspector.name == name

  -- The loop of UpdateInspector.
  unfoldable pub replace_first :
      String → Option (Inspector Q) → List (Option (Inspector Q)) → List (Option (Inspector Q))
  replace_first name inspector [] = []
  replace_first name inspector (i ∷ rest) =
      let replaced = replace_first name inspector rest in
      if has_name name i then inspector ∷ rest else i ∷ replaced

  unfoldable pub update_inspector : String → Option (Inspector Q) → Engine Q → Engine Q
  unfolding replace_first
  update_inspector name inspector e = record e {
    named = (λ field.
        if any (λ known. known == name) field_names && (field == name)
        then inspector
        else e.named field);
    inspectors = replace_first name inspector e.inspectors;
  }
