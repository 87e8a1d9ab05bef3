-- ===== src/WebSocket/Tests.antt =====
-- Runs of the model of internal/engine/websocket.go on small frames and messages.
use fortress_waf.Base.{
  ℕ, ◌^◌, ◌%◌, ◌-◌, ◌≡◌, ◌≤◌, ◌<◌, ◌↔◌, ◌⊎◌, refl, Bool, true, false, String, List, [], ◌∷◌, none,
  some, inr, length, arith, ltb, if◌then◌else◌, ◌==◌, text_keys,
}
use fortress_waf.Base.Map.{Map}
use fortress_waf.Base.Fault.{ok, panic}
use fortress_waf.Pipeline.Types.{Action}
use fortress_waf.Pipeline.Detection.{detection}
use fortress_waf.WebSocket.Frame.{
  Frame, parse_frame, payload_length, read_payload, read_slice, signed64,
}
use fortress_waf.WebSocket.Frame.Encode.{MaskingKey, encode_frame}
use fortress_waf.WebSocket.Frame.RoundTrip.{parse_frame-encode_frame}
use fortress_waf.WebSocket.Frame.Panics.{Overflows, parse_frame-panic}
use fortress_waf.WebSocket.Inspector.{
  Config, check_json_depth, check_frame, check_content, is_web_socket, inspect,
  new_web_socket_inspector,
}
use fortress_waf.WebSocket.Depth.{check_json_depth-nesting, nesting, openings}
use fortress_waf.WebSocket.Control.{check_frame_default, inspect-receive, receive}

abbrev hello : Frame
hello = record { kind = 1; payload = 72 ∷ 105 ∷ []; finished = true }

abbrev key : MaskingKey
key = record { k0 = 1; k1 = 2; k2 = 3; k3 = 4 }

parse_frame-encode_frame_example : parse_frame (encode_frame (some key) hello) ≡ ok (inr hello)
parse_frame-encode_frame_example =
    parse_frame-encode_frame (some key) hello (omega arith, omega arith, omega arith, omega arith)
      (omega arith, (omega arith, (omega arith, tt)), omega arith)

-- A client that sends ten bytes stops the server.
abbrev long_ones : List ℕ
long_ones = 255 ∷ 255 ∷ 255 ∷ 255 ∷ 255 ∷ 255 ∷ 255 ∷ 255 ∷ []

parse_frame-panic_example :
    (parse_frame (129 ∷ 127 ∷ long_ones) ≡ panic)
    ↔ ((127 % 128 ≡ 127) × (10 ≤ 10) × Overflows 10 (2 ^ 64 - 1) (129 ∷ 127 ∷ long_ones))
parse_frame-panic_example =
    parse_frame-panic 129 127 long_ones
      ((
        omega arith,
        (
          omega arith,
          (
            omega arith,
            (
              omega arith,
              (
                omega arith,
                (omega arith, (omega arith, (omega arith, (omega arith, (omega arith, tt))))),
              ),
            ),
          ),
        ),
      ))
      (omega arith)

parse_frame_panics_test : parse_frame (129 ∷ 127 ∷ long_ones) ≡ panic
unfolding parse_frame payload_length read_payload read_slice signed64
parse_frame_panics_test = refl

-- Three empty lists one after the other: their nesting is 1.
abbrev flat : List ℕ
flat = 91 ∷ 93 ∷ 44 ∷ 91 ∷ 93 ∷ 44 ∷ 91 ∷ 93 ∷ []

flat-nesting_test : nesting 0 flat ≡ 1
unfolding nesting
flat-nesting_test = refl

flat_blocked_test :
    check_json_depth 2 0 flat
    ≡ some (detection Action.block "WS-JSON-001" "WebSocket JSON depth exceeded" "high" 75)
unfolding check_json_depth
flat_blocked_test = refl

check_json_depth-nesting_test :
    (check_json_depth 2 0 flat ≡ (
      if ltb 2 (openings flat)
      then some (detection Action.block "WS-JSON-001" "WebSocket JSON depth exceeded" "high" 75)
      else none))
    × (2 < nesting 0 flat
        → check_json_depth 2 0 flat
          ≡ some (detection Action.block "WS-JSON-001" "WebSocket JSON depth exceeded" "high" 75))
check_json_depth-nesting_test = check_json_depth-nesting 2 flat

abbrev config : Config
config = record {
  max_frame_size = 100;
  max_message_size = 100;
  max_depth = 0;
  max_frames_per_min = 1;
  max_bytes_per_min = 0;
  block_on_limit = true;
  allowed_types = [];
  strict_mode = false;
  enable_ping = true;
  enable_pong = true;
  enable_close = true;
}

abbrev same : String → String → Bool
same s t = s == t

abbrev as_is : String → String
as_is s = s

abbrev text : List ℕ → String
text bytes = "text"

check_frame_default_test : ((hello.kind ≡ 1) ⊎ (hello.kind ≡ 2)) × (length hello.payload ≤ 100)
unfolding check_frame check_content new_web_socket_inspector
check_frame_default_test = check_frame_default as_is same text config hello refl refl

-- A ping that the configuration enables.
ping_blocked_test :
    (check_frame as_is same text
      (new_web_socket_inspector config)
      (record { kind = 9; payload = []; finished = true })).action
    ≡ Action.block
unfolding check_frame new_web_socket_inspector
ping_blocked_test = refl

abbrev upgrade : Map String String
upgrade name =
    if name == "Upgrade"
    then some "websocket"
    else if name == "Connection"
    then some "upgrade"
    else if name == "Sec-Websocket-Key"
    then some "key"
    else if name == "Sec-Websocket-Version"
    then some "13"
    else none

-- Two frames, 59 seconds from each other, at a limit of one frame a minute.
abbrev two_frames : List (ℕ × Frame)
two_frames = (59000000000, hello) ∷ (118000000000, hello) ∷ []

inspect-receive_example :
    (inspect as_is same text "10.0.0.1" upgrade 118000000001
      (receive as_is same text "10.0.0.1" two_frames (new_web_socket_inspector config))).1
    ≡ detection Action.block "WS-001" "WebSocket frame rate limit exceeded" "high" 80
unfolding is_web_socket new_web_socket_inspector
inspect-receive_example =
    inspect-receive as_is same text "10.0.0.1" upgrade 118000000001 0 two_frames
      (new_web_socket_inspector config) (omega arith, (omega arith, tt)) (refl, refl) (omega arith)
      refl
