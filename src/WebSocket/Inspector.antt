-- ===== src/WebSocket/Inspector.antt =====
-- The inspector of internal/engine/websocket.go. A time is a number of nanoseconds from the zero time of
-- the package time on. The limits are not negative.
use fortress_waf.Base.{
  ℕ, suc, ◌+◌, Bool, true, false, String, List, [], ◌∷◌, Option, none, some, ◌&&◌, not, ltb,
  nat_beq, if◌then◌else◌, length, any, ◌==◌, text_keys, number_keys,
}
use fortress_waf.Base.Map.{Map, empty, put, get_zero}
use fortress_waf.Pipeline.Types.{Action}
use fortress_waf.Pipeline.Detection.{Detection, detection, allowing}
use fortress_waf.WebSocket.Frame.{Frame}

pub record FrameStats : Type 0 where
  pub count : ℕ
  pub bytes : ℕ
  pub last_seen : ℕ
  pub types : Map ℕ ℕ

pub record Config : Type 0 where
  pub max_frame_size : ℕ
  pub max_message_size : ℕ
  pub max_depth : ℕ
  pub max_frames_per_min : ℕ
  pub max_bytes_per_min : ℕ
  pub block_on_limit : Bool
  pub allowed_types : List ℕ
  pub strict_mode : Bool
  pub enable_ping : Bool
  pub enable_pong : Bool
  pub enable_close : Bool

pub record WebSocketInspector : Type 0 where
  pub config : Config
  pub frame_log : Map String FrameStats
  pub allowed : Map ℕ Bool

-- The message types of the package websocket.
abbrev pub text_message : ℕ
text_message = 1

abbrev pub binary_message : ℕ
binary_message = 2

abbrev pub close_message : ℕ
close_message = 8

abbrev pub ping_message : ℕ
ping_message = 9

abbrev pub pong_message : ℕ
pong_message = 10

abbrev allow_each : List ℕ → Map ℕ Bool → Map ℕ Bool
allow_each [] allowed = allowed
allow_each (t ∷ ts) allowed = allow_each ts (put t true allowed)

-- The field `allowed` is the map that the code calls `allowedTypes`; the configuration keeps the list.
unfoldable pub new_web_socket_inspector : Config → WebSocketInspector
new_web_socket_inspector cfg = record {
  config = cfg;
  frame_log = empty;
  allowed = elim cfg.allowed_types [
    | [] ↦ put binary_message true (put text_message true empty)
    | t ∷ ts ↦ allow_each (t ∷ ts) empty
  ];
}

abbrev pub minute : ℕ
minute = 60000000000

abbrev pub no_stats : FrameStats
no_stats = record { count = 0; bytes = 0; last_seen = 0; types = empty }

-- getStats. The statistics are shared with the log, so the reset is a write of the log.
unfoldable pub get_stats : String → ℕ → WebSocketInspector → WebSocketInspector × FrameStats
get_stats ip now w =
    let found = get_zero no_stats w.frame_log ip in
    let stats =
      if ltb (found.last_seen + minute) now then record found { count = 0; bytes = 0 } else found in
    (record w { frame_log = put ip stats w.frame_log }, stats)

unfoldable pub check_json_depth : ℕ → ℕ → List ℕ → Option Detection
check_json_depth max_depth nested [] = none
check_json_depth max_depth nested (b ∷ payload) =
    let opened = check_json_depth max_depth (suc nested) payload in
    let other = check_json_depth max_depth nested payload in
    if if nat_beq b 123 then true else nat_beq b 91
    then (if ltb max_depth (suc nested)
        then some (detection Action.block "WS-JSON-001" "WebSocket JSON depth exceeded" "high" 75)
        else opened)
    else other

-- The functions of the package strings, and the conversion of bytes to a string.
module _ (to_lower : String → String) (contains : String → String → Bool)
    (string : List ℕ → String) where
  unfoldable pub is_web_socket : Map String String → Bool
  is_web_socket headers =
      contains (to_lower (get_zero "" headers "Upgrade")) "websocket"
      && contains (to_lower (get_zero "" headers "Connection")) "upgrade"
      && not (get_zero "" headers "Sec-Websocket-Key" == "")
      && get_zero "" headers "Sec-Websocket-Version" == "13"

  -- Inspect.
  unfoldable pub inspect :
      String → Map String String → ℕ → WebSocketInspector → WebSocketInspector × Detection
  inspect ip headers now w =
      if not (is_web_socket headers)
      then (w, allowing)
      else (let (w', stats) = get_stats ip now w in
          (
            w',
            (if ltb 0 w.config.max_frames_per_min && ltb w.config.max_frames_per_min stats.count
                then (if w.config.block_on_limit
                    then detection Action.block "WS-001" "WebSocket frame rate limit exceeded"
                        "high" 80
                    else detection Action.monitor "WS-001" "WebSocket frame rate limit exceeded"
                        "medium" 40)
                else allowing),
          ))

  abbrev pub injection_patterns : List String
  injection_patterns =
      "<script" ∷ "javascript:" ∷ "onerror=" ∷ "onload=" ∷ "onclick=" ∷ "onmouseover=" ∷ "eval("
      ∷ "document." ∷ "window." ∷ "expression(" ∷ "url(" ∷ "href=" ∷ []

  unfoldable pub check_injection : List ℕ → Option Detection
  check_injection payload =
      if any (contains (to_lower (string payload))) injection_patterns
      then some
          (detection Action.block "WS-INJ-001" "WebSocket injection pattern detected" "critical" 95)
      else none

  -- The calls of the two checks of the content, the second where the first finds nothing.
  unfoldable pub check_content : Config → Frame → Detection
  check_content cfg frame =
      let text = nat_beq frame.kind text_message in
      elim (if cfg.strict_mode && text then check_injection frame.payload else none) [
        | some d ↦ d
        | none ↦
            elim (if ltb 0 cfg.max_depth && text
              then check_json_depth cfg.max_depth 0 frame.payload
              else none) [ some d ↦ d | none ↦ allowing ]
      ]

  -- The tests of InspectMessage.
  unfoldable pub check_frame : WebSocketInspector → Frame → Detection
  check_frame w frame =
      let cfg = w.config in
      if nat_beq frame.kind close_message && not cfg.enable_close
      then detection Action.block "WS-002" "WebSocket close not allowed" "medium" 50
      else if nat_beq frame.kind ping_message && not cfg.enable_ping
      then detection Action.block "WS-003" "WebSocket PING not allowed" "low" 30
      else if nat_beq frame.kind pong_message && not cfg.enable_pong
      then detection Action.block "WS-004" "WebSocket PONG not allowed" "low" 30
      else if not (get_zero false w.allowed frame.kind)
      then detection Action.block "WS-005" "WebSocket message type not allowed" "high" 75
      else if ltb cfg.max_frame_size (length frame.payload)
      then detection Action.block "WS-006" "WebSocket frame size exceeded" "high" 70
      else check_content cfg frame

  -- InspectMessage: the statistics, then the tests.
  unfoldable pub inspect_message :
      String → Frame → ℕ → WebSocketInspector → WebSocketInspector × Detection
  inspect_message ip frame now w =
      let (w', stats) = get_stats ip now w in
      let counted : FrameStats = record {
        count = suc stats.count;
        bytes = stats.bytes + length frame.payload;
        last_seen = now;
        types = put frame.kind (suc (get_zero 0 stats.types frame.kind)) stats.types;
      } in
      (record w' { frame_log = put ip counted w'.frame_log }, check_frame w frame)

-- CheckOrigin of Upgrader. `origin` is the header Origin.
unfoldable pub check_origin :
    (String → String → Bool) → (String → String → Bool) → List String → String → Bool
check_origin equal_fold contains [] origin = true
check_origin equal_fold contains (o ∷ os) origin =
    if origin == ""
    then true
    else any (λ allowed. if equal_fold origin allowed then true else contains origin allowed)
        (o ∷ os)
