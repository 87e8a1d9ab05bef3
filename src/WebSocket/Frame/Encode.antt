-- ===== src/WebSocket/Frame/Encode.antt =====
-- Frames in the format of RFC 6455, which internal/engine/websocket.go reads.
use Prim.Native.Nat.{bit_xor}
use fortress_waf.Base.{
  ℕ, suc, nat_beq, ◌+◌, ◌/◌, ◌%◌, ◌^◌, ◌<◌, List, [], ◌∷◌, ◌++◌, length, ltb, if◌then◌else◌, Option,
  none, some, All,
}
use fortress_waf.WebSocket.Frame.{Frame}

-- The four bytes of a masking key.
pub record MaskingKey : Type 0 where
  pub k0 : ℕ
  pub k1 : ℕ
  pub k2 : ℕ
  pub k3 : ℕ

abbrev pub key_bytes : MaskingKey → List ℕ
key_bytes key = key.k0 ∷ key.k1 ∷ key.k2 ∷ key.k3 ∷ []

-- Section 5.3: octet `i` of the payload is combined by exclusive or with octet `i` modulo 4 of the key.
abbrev pub key_octet : MaskingKey → ℕ → ℕ
key_octet key i =
    if nat_beq (i % 4) 0
    then key.k0
    else if nat_beq (i % 4) 1
    then key.k1
    else if nat_beq (i % 4) 2
    then key.k2
    else key.k3

-- The octets from number `i` on.
unfoldable pub masked : MaskingKey → ℕ → List ℕ → List ℕ
masked key i [] = []
masked key i (b ∷ bs) = bit_xor b (key_octet key i) ∷ masked key (suc i) bs

abbrev pub two_bytes : ℕ → List ℕ
two_bytes n = n / 256 % 256 ∷ n % 256 ∷ []

abbrev pub eight_bytes : ℕ → List ℕ
eight_bytes n =
    n / 256 ^ 7 % 256
    ∷ n / 256 ^ 6 % 256
    ∷ n / 256 ^ 5 % 256
    ∷ n / 256 ^ 4 % 256
    ∷ n / 256 ^ 3 % 256
    ∷ n / 256 ^ 2 % 256
    ∷ n / 256 % 256
    ∷ n % 256
    ∷ []

-- The second byte and the length, with the bit of the mask.
abbrev pub length_bytes : ℕ → ℕ → List ℕ
length_bytes mask_bit n =
    if ltb n 126
    then (mask_bit + n) ∷ []
    else if ltb n 65536
    then (mask_bit + 126) ∷ two_bytes n
    else (mask_bit + 127) ∷ eight_bytes n

abbrev pub first_byte : Frame → ℕ
first_byte frame = if frame.finished then 128 + frame.kind else frame.kind

unfoldable pub encode_frame : Option MaskingKey → Frame → List ℕ
encode_frame none frame =
    first_byte frame ∷ (length_bytes 0 (length frame.payload) ++ frame.payload)
encode_frame (some key) frame =
    first_byte frame
    ∷ (length_bytes 128 (length frame.payload) ++ (key_bytes key ++ masked key 0 frame.payload))

abbrev pub IsFrame : Frame → Type 0
IsFrame frame =
    (frame.kind < 16) × All (λ b. b < 256) frame.payload × (length frame.payload < 2 ^ 62)

abbrev pub IsKey : MaskingKey → Type 0
IsKey key = (key.k0 < 256) × (key.k1 < 256) × (key.k2 < 256) × (key.k3 < 256)
