-- ===== src/WebSocket/Frame/RoundTrip.antt =====
-- Parsing the frames that are encoded.
use Prim.Native.Nat.{bit_xor}
use fortress_waf.Base.{
  ℕ, suc, ◌+◌, ◌-◌, ◌%◌, ◌^◌, ◌<◌, ◌≡◌, refl, ap, sym, ◌∙◌, le→ltb_false, Bool, true, false, List,
  [], ◌∷◌, ◌++◌, length, drop, ltb, leb, if◌then◌else◌, Option, none, some, All, arith, Bool-cases,
  ◌⊎◌, inl, inr, length-append, ltb→lt, tests,
}
use fortress_waf.Base.Bytes.{
  big_endian_from, take, take-all, drop-add, drop-append_length, xor_twice,
}
use fortress_waf.Base.Fault.{ok}
use fortress_waf.Base.Int.{pos}
use fortress_waf.WebSocket.Frame.{
  Frame, unmask, payload_length, read_slice, read_payload, parse_frame, signed64,
}
use fortress_waf.WebSocket.Frame.Encode.{
  MaskingKey, key_bytes, two_bytes, eight_bytes, length_bytes, first_byte, encode_frame, IsFrame,
  IsKey, masked, key_octet,
}

big_endian-two_bytes : (n : ℕ) → n < 65536 → big_endian_from 0 (two_bytes n) ≡ n
big_endian-two_bytes n h = omega arith

big_endian-eight_bytes : (n : ℕ) → n < 2 ^ 64 → big_endian_from 0 (eight_bytes n) ≡ n
big_endian-eight_bytes n h = omega arith

signed64_small : (n : ℕ) → n < 2 ^ 63 → signed64 (n % 2 ^ 64) ≡ pos n
unfolding signed64
signed64_small n h = ground (arith, h)

-- What the second byte says, with its mask bit.
mask_bit :
    (m x : ℕ) → (m ≡ 0) ⊎ (m ≡ 128) → x < 128 → ((m + x) % 128 ≡ x) × (leb 128 (m + x) ≡ leb 128 m)
mask_bit m x (inl unmasked) h = ground (arith, unmasked, h)
mask_bit m x (inr masked) h = ground (arith, masked, h)

payload_length-short : (n : ℕ) (bytes : List ℕ) → n < 126 → payload_length n bytes ≡ inr (n, 2)
unfolding payload_length
payload_length-short n bytes h = ground (arith, h)

payload_length-two :
    (first second n : ℕ) (tail : List ℕ)
    → n < 65536
    → payload_length 126 (first ∷ second ∷ (two_bytes n ++ tail)) ≡ inr (n, 4)
unfolding payload_length
payload_length-two first second n tail h = rw (big_endian-two_bytes n h) (ground arith)

payload_length-eight :
    (first second n : ℕ) (tail : List ℕ)
    → n < 2 ^ 64
    → payload_length 127 (first ∷ second ∷ (eight_bytes n ++ tail)) ≡ inr (n, 10)
unfolding payload_length
payload_length-eight first second n tail h = rw (big_endian-eight_bytes n h) (ground arith)

-- The header read, once its second byte and its length are known.
parse_frame-second :
    (first m x n i : ℕ) (tail : List ℕ)
    → (m ≡ 0) ⊎ (m ≡ 128)
    → x < 128
    → payload_length x (first ∷ (m + x) ∷ tail) ≡ inr (n, i)
    → parse_frame (first ∷ (m + x) ∷ tail)
      ≡ read_payload
          (first % 16)
          (leb 128 first)
          (leb 128 m)
          (if leb 128 m then i + 4 else i)
          n
          (first ∷ (m + x) ∷ tail)
unfolding parse_frame
parse_frame-second first m x n i tail mask h len =
    let (low, bit) = mask_bit m x mask h in rw (low, parse_frame, len, bit) refl

parse_frame-header :
    (first m n : ℕ) (tail : List ℕ)
    → (m ≡ 0) ⊎ (m ≡ 128)
    → n < 2 ^ 62
    → let i = suc (length (length_bytes m n)) in
      parse_frame (first ∷ (length_bytes m n ++ tail))
      ≡ read_payload
          (first % 16)
          (leb 128 first)
          (leb 128 m)
          (if leb 128 m then i + 4 else i)
          n
          (first ∷ (length_bytes m n ++ tail))
parse_frame-header first m n tail mask small = elim (Bool-cases (ltb n 126)) [
  | inl short ↦ rw short (
      parse_frame-second first m n n 2 tail mask (omega tests)
        (payload_length-short n (first ∷ (m + n) ∷ tail) (ltb→lt n 126 short)))
  | inr longer ↦ elim (Bool-cases (ltb n 65536)) [
    | inl two ↦
        rw (longer, two)
          (parse_frame-second first m 126 n 4 (two_bytes n ++ tail) mask (omega arith)
            (payload_length-two first (m + 126) n tail (ltb→lt n 65536 two)))
    | inr eight ↦
        rw (longer, eight)
          (parse_frame-second first m 127 n 10 (eight_bytes n ++ tail) mask (omega arith)
            (payload_length-eight first (m + 127) n tail (omega arith)))
  ]
]

-- The payload after a header that ends at `idx`.
read_payload-slice :
    (opcode : ℕ) (fin mask : Bool) (idx : ℕ) (bytes payload : List ℕ)
    → length bytes ≡ idx + length payload
    → drop idx bytes ≡ payload
    → idx + length payload < 2 ^ 63
    → let key = take 4 (drop (idx - 4) bytes) in
      read_payload opcode fin mask idx (length payload) bytes
      ≡ ok (
          inr (record {
            kind = opcode;
            payload = if mask then unmask key key payload else payload;
            finished = fin;
          }))
unfolding read_payload read_slice
read_payload-slice opcode fin mask idx bytes payload whole rest small =
    let p = length payload in
    let exact : idx + p - idx ≡ p = omega arith in
    rw
      (
        signed64_small (idx + p) small,
        le→ltb_false (length bytes) (idx + p) (omega (arith, whole)),
        le→ltb_false (idx + p) idx (omega arith),
        rest,
        exact,
        take-all payload,
      )
      refl

mod_four : (i : ℕ) → (i % 4 ≡ 0) ⊎ (i % 4 ≡ 1) ⊎ (i % 4 ≡ 2) ⊎ (i % 4 ≡ 3)
mod_four i = omega arith

key_octet-lt : (key : MaskingKey) (i : ℕ) → IsKey key → key_octet key i < 256
key_octet-lt key i (h0, h1, h2, h3) = ground (arith, h0, h1, h2, h3)

length-masked :
    (key : MaskingKey) (i : ℕ) (payload : List ℕ) → length (masked key i payload) ≡ length payload
unfolding masked
length-masked key i [] = refl
length-masked key i (b ∷ bs) = ap suc (length-masked key (suc i) bs)

-- What is left of the key before octet `i`.
abbrev key_from : MaskingKey → ℕ → List ℕ
key_from key i = drop (i % 4) (key_bytes key)

-- At its end the key starts again.
unmask-wraps :
    (key : MaskingKey) (bs : List ℕ)
    → unmask (key_bytes key) [] bs ≡ unmask (key_bytes key) (key_bytes key) bs
unfolding unmask
unmask-wraps key [] = refl
unmask-wraps key (b ∷ bs) = refl

-- One octet: the parser's step, from the key as it stands before octet `i`.
unmask-step :
    (key : MaskingKey) (i b : ℕ) (bs : List ℕ)
    → unmask (key_bytes key) (key_from key i) (b ∷ bs)
      ≡ bit_xor b (key_octet key i) ∷ unmask (key_bytes key) (key_from key (suc i)) bs
unfolding unmask
unmask-step key i b bs = elim (mod_four i) [
  | inl e ↦ let e' : suc i % 4 ≡ 1 = omega (arith, e) in rw (e, e') refl
  | inr (inl e) ↦ let e' : suc i % 4 ≡ 2 = omega (arith, e) in rw (e, e') refl
  | inr (inr (inl e)) ↦ let e' : suc i % 4 ≡ 3 = omega (arith, e) in rw (e, e') refl
  | inr (inr (inr e)) ↦
      let e' : suc i % 4 ≡ 0 = omega (arith, e) in rw (e, e', unmask-wraps key bs) refl
]

unmask-masked :
    (key : MaskingKey) (i : ℕ) (payload : List ℕ)
    → IsKey key
    → All (λ b. b < 256) payload
    → unmask (key_bytes key) (key_from key i) (masked key i payload) ≡ payload
unfolding masked unmask
unmask-masked key i [] hk hp = refl
unmask-masked key i (b ∷ bs) hk (hb, hbs) =
    unmask-step key i (bit_xor b (key_octet key i)) (masked key (suc i) bs)
    ∙ rw
        (
          xor_twice b (key_octet key i) hb (key_octet-lt key i hk),
          unmask-masked key (suc i) bs hk hbs,
        )
        refl

length_bytes-lt : (m n : ℕ) → length (length_bytes m n) < 10
length_bytes-lt m n = ground arith

first_byte-fields :
    (frame : Frame)
    → frame.kind < 16
    → (first_byte frame % 16 ≡ frame.kind) × (leb 128 (first_byte frame) ≡ frame.finished)
first_byte-fields frame h = ground (arith, h)

abbrev pub HasKey : Option MaskingKey → Type 0
HasKey none = Unit
HasKey (some key) = IsKey key

-- ParseFrame reads back every frame with an opcode of four bits and a payload of fewer than 2^62 bytes,
-- masked by any key or not masked, from its encoding by RFC 6455, in which octet `i`
-- of the payload is masked with octet `i` modulo 4 of the key.
pub parse_frame-encode_frame :
    (key : Option MaskingKey) (frame : Frame)
    → HasKey key
    → IsFrame frame
    → parse_frame (encode_frame key frame) ≡ ok (inr frame)
unfolding encode_frame
parse_frame-encode_frame none frame hk (kind, fits, small) =
    let n = length frame.payload in
    let header = first_byte frame ∷ length_bytes 0 n in
    let (opcode, fin) = first_byte-fields frame kind in
    parse_frame-header (first_byte frame) 0 n frame.payload (inl refl) small
    ∙ read_payload-slice (first_byte frame % 16) (leb 128 (first_byte frame)) false (length header)
        (header ++ frame.payload) frame.payload (length-append header frame.payload)
        (drop-append_length header frame.payload) (omega (arith, length_bytes-lt 0 n, small))
    ∙ rw (opcode, fin) refl
parse_frame-encode_frame (some key) frame hk (kind, fits, small) =
    let n = length frame.payload in
    let kb = key_bytes key in
    let hidden = masked key 0 frame.payload in
    let header = first_byte frame ∷ length_bytes 128 n in
    let (opcode, fin) = first_byte-fields frame kind in
    let same = length-masked key 0 frame.payload in
    let before : length header + 4 - 4 ≡ length header = omega arith in
    parse_frame-header (first_byte frame) 128 n (kb ++ hidden) (inr refl) small
    ∙ ap
        (λ len.
          read_payload (first_byte frame % 16) (leb 128 (first_byte frame)) true (length header + 4)
            len (header ++ (kb ++ hidden)))
        (sym same)
    ∙ read_payload-slice (first_byte frame % 16) (leb 128 (first_byte frame)) true
        (length header + 4) (header ++ (kb ++ hidden)) hidden
        (omega (arith, length-append header (kb ++ hidden))) (drop-add 4 header (kb ++ hidden))
        (omega (arith, length_bytes-lt 128 n, small, same))
    ∙ rw
        (
          opcode,
          fin,
          before,
          drop-append_length header (kb ++ hidden),
          unmask-masked key 0 frame.payload hk fits,
        )
        refl
