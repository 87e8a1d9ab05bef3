-- ===== src/WebSocket/Frame.antt =====
-- Frame and ParseFrame of internal/engine/websocket.go, on a machine whose int has 64 bits. A byte is a
-- number below 256. An int that may be negative is its bit pattern, a number below 2^64.
pub mod Encode
pub mod RoundTrip
pub mod Panics
use Prim.Native.Nat.{bit_xor}
use fortress_waf.Base.{
  ℕ, zero, suc, ◌+◌, ◌-◌, ◌*◌, ◌%◌, ◌^◌, Bool, true, false, List, [], ◌∷◌, ◌++◌, length, drop, ltb,
  leb, nat_beq, if◌then◌else◌, ◌⊎◌, inl, inr,
}
use fortress_waf.Base.Bytes.{big_endian_from, take}
use fortress_waf.Base.Fault.{Fault, ok, panic}
use fortress_waf.Base.Int.{ℤ, pos, negsuc, ltb_ℤ, pos_part}

pub record Frame : Type 0 where
  pub kind : ℕ
  pub payload : List ℕ
  pub finished : Bool

pub data FrameError : Type 0 where
  frame_too_small invalid_extended_length unexpected_eof : FrameError

-- The number that the bit pattern of an int stands for.
unfoldable pub signed64 : ℕ → ℤ
signed64 w = if ltb w (2 ^ 63) then pos w else negsuc (2 ^ 64 - w - 1)

-- The length of the payload, as a bit pattern, and the index after the length.
unfoldable pub payload_length : ℕ → List ℕ → FrameError ⊎ (ℕ × ℕ)
payload_length short bytes =
    if nat_beq short 126
    then (if ltb (length bytes) 4
        then inl invalid_extended_length
        else inr (big_endian_from 0 (take 2 (drop 2 bytes)), 4))
    else if nat_beq short 127
    then (if ltb (length bytes) 10
        then inl invalid_extended_length
        else inr (big_endian_from 0 (take 8 (drop 2 bytes)), 10))
    else inr (short, 2)

-- The loop `payload[i] ^= key[i%4]`, from a place where `key` is the key's rest and `whole` the key.
unfoldable pub unmask : List ℕ → List ℕ → List ℕ → List ℕ
unmask whole key [] = []
unmask whole [] (b ∷ bs) = elim whole [ [] ↦ b ∷ bs | k ∷ ks ↦ bit_xor b k ∷ unmask whole ks bs ]
unmask whole (k ∷ ks) (b ∷ bs) = bit_xor b k ∷ unmask whole ks bs

-- From the test of the length on. `end` is `idx+payloadLen`; a negative one passes the test, and
-- `data[idx:end]` faults on it, as it does on one below `idx`.
unfoldable pub read_slice : ℕ → Bool → Bool → ℕ → ℤ → List ℕ → Fault (FrameError ⊎ Frame)
read_slice opcode fin mask idx (negsuc n) bytes = panic
read_slice opcode fin mask idx (pos end) bytes =
    if ltb (length bytes) end
    then ok (inl unexpected_eof)
    else if ltb end idx
    then panic
    else (let payload = take (end - idx) (drop idx bytes) in
        let key = take 4 (drop (idx - 4) bytes) in
        ok (
          inr (record {
            kind = opcode;
            payload = if mask then unmask key key payload else payload;
            finished = fin;
          })))

-- The sum of ints wraps.
unfoldable pub read_payload : ℕ → Bool → Bool → ℕ → ℕ → List ℕ → Fault (FrameError ⊎ Frame)
read_payload opcode fin mask idx payload_len bytes =
    read_slice opcode fin mask idx (signed64 ((idx + payload_len) % 2 ^ 64)) bytes

-- ParseFrame. The payload shares its bytes with `data`, so the unmasking also changes `data`.
unfoldable pub parse_frame : List ℕ → Fault (FrameError ⊎ Frame)
parse_frame [] = ok (inl frame_too_small)
parse_frame (first ∷ []) = ok (inl frame_too_small)
parse_frame (first ∷ second ∷ rest) =
    let bytes : List ℕ = first ∷ second ∷ rest in
    let mask = leb 128 second in
    elim (payload_length (second % 128) bytes) [
      | inl error ↦ ok (inl error)
      | inr (payload_len, idx) ↦
          read_payload (first % 16) (leb 128 first) mask (if mask then idx + 4 else idx) payload_len
            bytes
    ]
