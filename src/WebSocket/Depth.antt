-- ===== src/WebSocket/Depth.antt =====
-- checkJSONDepth of internal/engine/websocket.go against the nesting of a text.
use fortress_waf.Base.{
  ℕ, suc, ◌+◌, ◌-◌, ◌≡◌, ◌≤◌, ◌<◌, Bool, true, List, [], ◌∷◌, none, some, arith, ltb, nat_beq, max,
  if◌then◌else◌,
}
use fortress_waf.Pipeline.Types.{Action}
use fortress_waf.Pipeline.Detection.{detection}
use fortress_waf.WebSocket.Inspector.{check_json_depth}

abbrev pub is_opening : ℕ → Bool
is_opening b = if nat_beq b 123 then true else nat_beq b 91

abbrev pub is_closing : ℕ → Bool
is_closing b = if nat_beq b 125 then true else nat_beq b 93

-- The number of opening brackets.
unfoldable pub openings : List ℕ → ℕ
openings [] = 0
openings (b ∷ payload) = let rest = openings payload in if is_opening b then suc rest else rest

-- How deep the brackets of a text nest below a place at which `level` are open.
unfoldable pub nesting : ℕ → List ℕ → ℕ
nesting level [] = level
nesting level (b ∷ payload) =
    let deeper = nesting (suc level) payload in
    let higher = nesting (level - 1) payload in
    let same = nesting level payload in
    if is_opening b then max (suc level) deeper else if is_closing b then max level higher else same

check_json_depth-openings :
    (max_depth nested : ℕ) (payload : List ℕ)
    → nested ≤ max_depth
    → check_json_depth max_depth nested payload ≡ (
        if ltb max_depth (nested + openings payload)
        then some (detection Action.block "WS-JSON-001" "WebSocket JSON depth exceeded" "high" 75)
        else none)
unfolding check_json_depth openings
check_json_depth-openings max_depth nested [] le = ground arith
check_json_depth-openings max_depth nested (b ∷ payload) le = ground (
  arith,
  check_json_depth-openings max_depth (suc nested) payload,
  check_json_depth-openings max_depth nested payload,
)

nesting-le : (level : ℕ) (payload : List ℕ) → nesting level payload ≤ level + openings payload
unfolding nesting openings
nesting-le level [] = omega arith
nesting-le level (b ∷ payload) = ground (
  arith,
  nesting-le (suc level) payload,
  nesting-le (level - 1) payload,
  nesting-le level payload,
)

-- checkJSONDepth blocks a payload exactly where the number of its opening brackets is above the limit,
-- wherever they stand; so it blocks every payload whose brackets nest deeper than the limit.
pub check_json_depth-nesting :
    (max_depth : ℕ) (payload : List ℕ)
    → (check_json_depth max_depth 0 payload ≡ (
        if ltb max_depth (openings payload)
        then some (detection Action.block "WS-JSON-001" "WebSocket JSON depth exceeded" "high" 75)
        else none))
      × (max_depth < nesting 0 payload
          → check_json_depth max_depth 0 payload
            ≡ some (detection Action.block "WS-JSON-001" "WebSocket JSON depth exceeded" "high" 75))
check_json_depth-nesting max_depth payload = (
  ground (arith, check_json_depth-openings max_depth 0 payload),
  ground (arith, check_json_depth-openings max_depth 0 payload, nesting-le 0 payload),
)
