-- ===== src/WebSocket/Control.antt =====
-- What InspectMessage of internal/engine/websocket.go lets through, and what Inspect counts.
use fortress_waf.Base.{
  ℕ, suc, ◌+◌, ◌≡◌, ap, ◌≤◌, ◌⊎◌, refl, Bool, true, false, String, List, [], ◌∷◌, arith, ltb,
  length, if◌then◌else◌, ◌&&◌, text_keys, agrees_self,
}
use fortress_waf.Base.Map.{Map, put, get_zero}
use fortress_waf.Pipeline.Types.{Action}
use fortress_waf.Pipeline.Detection.{detection, allowing}
use fortress_waf.WebSocket.Frame.{Frame}
use fortress_waf.WebSocket.Inspector.{
  Config, WebSocketInspector, new_web_socket_inspector, check_frame, get_stats, inspect,
  inspect_message, is_web_socket, minute, no_stats,
}

module _ (to_lower : String → String) (contains : String → String → Bool)
    (string : List ℕ → String) where
  -- With no allowed types in the configuration, only text and binary messages of at most the frame size
  -- are let through: a close, a ping or a pong is blocked even where the configuration enables it.
  pub check_frame_default :
      (cfg : Config) (frame : Frame)
      → cfg.allowed_types ≡ []
      → (check_frame to_lower contains string (new_web_socket_inspector cfg) frame).action
        ≡ Action.allow
      → ((frame.kind ≡ 1) ⊎ (frame.kind ≡ 2)) × (length frame.payload ≤ cfg.max_frame_size)
  unfolding check_frame new_web_socket_inspector
  check_frame_default cfg frame none_set = rw none_set (λ h. ground (arith, h))

  -- The messages of one address.
  unfoldable pub receive : String → List (ℕ × Frame) → WebSocketInspector → WebSocketInspector
  receive ip [] w = w
  receive ip ((now, frame) ∷ messages) w =
      receive ip messages ((inspect_message to_lower contains string ip frame now w).0)

  -- Messages of which each comes within a minute of the one before.
  abbrev pub IsSteady : ℕ → List (ℕ × Frame) → Type 0
  IsSteady last [] = Unit
  IsSteady last ((now, frame) ∷ messages) = (now ≤ last + minute) × IsSteady now messages

  abbrev pub last_of : ℕ → List (ℕ × Frame) → ℕ
  last_of last [] = last
  last_of last ((now, frame) ∷ messages) = last_of now messages

  -- The statistics of the address.
  abbrev pub Counts : String → ℕ → ℕ → WebSocketInspector → Type 0
  Counts ip count last w =
      ((get_zero no_stats w.frame_log ip).count ≡ count)
      × ((get_zero no_stats w.frame_log ip).last_seen ≡ last)

  get_stats_near :
      (ip : String) (now last count : ℕ) (w : WebSocketInspector)
      → now ≤ last + minute
      → Counts ip count last w
      → get_stats ip now w ≡ (
        record w { frame_log = put ip (get_zero no_stats w.frame_log ip) w.frame_log },
        get_zero no_stats w.frame_log ip,
      )
  unfolding get_stats
  get_stats_near ip now last count w near (c, l) =
      let far : ltb ((get_zero no_stats w.frame_log ip).last_seen + minute) now ≡ false =
        ground (arith, l) in
      rw far refl

  inspect_message-Counts :
      (ip : String) (frame : Frame) (now count last : ℕ) (w : WebSocketInspector)
      → now ≤ last + minute
      → Counts ip count last w
      → Counts ip (suc count) now ((inspect_message to_lower contains string ip frame now w).0)
  unfolding inspect_message
  inspect_message-Counts ip frame now count last w near counts =
      rw (inspect_message, get_stats_near ip now last count w near counts)
        (rw (get_zero, agrees_self ip) (ap suc counts.0, refl))

  receive-Counts :
      (ip : String) (count last : ℕ) (messages : List (ℕ × Frame)) (w : WebSocketInspector)
      → IsSteady last messages
      → Counts ip count last w
      → Counts ip (count + length messages) (last_of last messages) (receive ip messages w)
  unfolding receive
  receive-Counts ip count last [] w steady counts = (omega (arith, counts.0), counts.1)
  receive-Counts ip count last ((now, frame) ∷ messages) w (near, steady) counts =
      let h =
        receive-Counts ip (suc count) now messages
          ((inspect_message to_lower contains string ip frame now w).0) steady
          (inspect_message-Counts ip frame now count last w near counts) in
      (omega (arith, h.0), h.1)

  receive-config :
      (ip : String) (messages : List (ℕ × Frame)) (w : WebSocketInspector)
      → (receive ip messages w).config ≡ w.config
  unfolding receive inspect_message get_stats
  receive-config ip [] w = refl
  receive-config ip ((now, frame) ∷ messages) w =
      receive-config ip messages ((inspect_message to_lower contains string ip frame now w).0)

  -- From a count of 0 on, while the messages of an address come within a minute of each other, all of them are counted, however
  -- long that lasts; an upgrade of the address within a minute of the last one is refused or monitored
  -- exactly where there were more of them than the limit, which is not 0.
  pub inspect-receive :
      (ip : String) (headers : Map String String) (now last : ℕ) (messages : List (ℕ × Frame))
      (w : WebSocketInspector)
      → IsSteady last messages
      → Counts ip 0 last w
      → now ≤ last_of last messages + minute
      → is_web_socket to_lower contains string headers ≡ true
      → (inspect to_lower contains string ip headers now (receive ip messages w)).1 ≡ (
          if ltb 0 w.config.max_frames_per_min && ltb w.config.max_frames_per_min (length messages)
          then (if w.config.block_on_limit
              then detection Action.block "WS-001" "WebSocket frame rate limit exceeded" "high" 80
              else detection Action.monitor "WS-001" "WebSocket frame rate limit exceeded" "medium"
                  40)
          else allowing)
  unfolding inspect
  inspect-receive ip headers now last messages w steady counts near upgrade =
      let (count, seen) = receive-Counts ip 0 last messages w steady counts in
      let all : (get_zero no_stats (receive ip messages w).frame_log ip).count ≡ length messages =
        omega (arith, count) in
      rw
        (
          upgrade,
          get_stats_near ip now (last_of last messages) (length messages) (receive ip messages w)
              near (all, seen),
          receive-config ip messages w,
          all,
        )
        refl
