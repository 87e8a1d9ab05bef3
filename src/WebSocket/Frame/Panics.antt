-- ===== src/WebSocket/Frame/Panics.antt =====
-- Where ParseFrame of internal/engine/websocket.go faults.
use fortress_waf.Base.{
  ℕ, zero, suc, ◌+◌, ◌-◌, ◌%◌, ◌^◌, ◌<◌, ◌≤◌, ◌≡◌, ◌↔◌, refl, Bool, true, false, List, [], ◌∷◌,
  length, drop, ltb, leb, nat_beq, nat_beq_iff, if◌then◌else◌, All, arith, Bool-cases, ltb→lt,
  ltb_false→le, ◌⊎◌, inl, inr,
}
use fortress_waf.Base.Bytes.{big_endian_from, take, big_endian_from-le}
use fortress_waf.Base.Fault.{panic}
use fortress_waf.Base.Int.{pos, negsuc}
use fortress_waf.WebSocket.Frame.{
  FrameError, payload_length, read_slice, read_payload, parse_frame, invalid_extended_length,
  signed64,
}

-- A slice in the memory of the machine.
abbrev pub IsSlice : List ℕ → Type 0
IsSlice bytes = length bytes < 2 ^ 62

read_slice-panic :
    (opcode : ℕ) (fin mask : Bool) (idx end : ℕ) (bytes : List ℕ)
    → (read_slice opcode fin mask idx (pos end) bytes ≡ panic)
      ↔ ((end ≤ length bytes) × (end < idx))
unfolding read_slice
read_slice-panic opcode fin mask idx end bytes = ground arith

read_slice_negative :
    (opcode : ℕ) (fin mask : Bool) (idx n : ℕ) (bytes : List ℕ)
    → read_slice opcode fin mask idx (negsuc n) bytes ≡ panic
unfolding read_slice
read_slice_negative opcode fin mask idx n bytes = refl

-- Where the sum of the index and the length overflows.
abbrev pub Overflows : ℕ → ℕ → List ℕ → Type 0
Overflows idx n bytes = (2 ^ 63 ≤ idx + n) × (idx + n ≤ 2 ^ 64 + length bytes)

read_payload-panic :
    (opcode : ℕ) (fin mask : Bool) (idx n : ℕ) (bytes : List ℕ)
    → idx ≤ 14
    → n < 2 ^ 64
    → IsSlice bytes
    → (read_payload opcode fin mask idx n bytes ≡ panic) ↔ Overflows idx n bytes
unfolding read_payload signed64
read_payload-panic opcode fin mask idx n bytes low word slice =
    let w = (idx + n) % 2 ^ 64 in
    elim (Bool-cases (ltb w (2 ^ 63))) [
      | inl positive ↦
          let (panics, stops) = read_slice-panic opcode fin mask idx w bytes in
          let bound = ltb→lt w (2 ^ 63) positive in
          rw positive (
            (λ h.
                let (p, q) = panics h in
                (
                  omega (arith, p, q, low, word, bound, slice),
                  omega (arith, p, q, low, word, bound, slice),
                )),
            (λ h.
                let (p, q) = h in
                stops (
                  omega (arith, p, q, low, word, bound, slice),
                  omega (arith, p, q, low, word, bound, slice),
                )),
          )
      | inr negative ↦
          let bound = ltb_false→le w (2 ^ 63) negative in
          rw negative (
            (λ h. (omega (arith, bound, low, word), omega (arith, bound, low, word, slice))),
            (λ h. read_slice_negative opcode fin mask idx (2 ^ 64 - w - 1) bytes),
          )
    ]

abbrev start_of : Bool → ℕ → ℕ
start_of mask idx = if mask then idx + 4 else idx

start_of_le : (mask : Bool) (idx : ℕ) → start_of mask idx ≤ idx + 4
start_of_le true idx = omega arith
start_of_le false idx = omega arith

parse_frame-payload_length :
    (first second n idx : ℕ) (rest : List ℕ)
    → payload_length (second % 128) (first ∷ second ∷ rest) ≡ inr (n, idx)
    → idx ≤ 10
    → n < 2 ^ 64
    → IsSlice (first ∷ second ∷ rest)
    → (parse_frame (first ∷ second ∷ rest) ≡ panic)
      ↔ Overflows (start_of (leb 128 second) idx) n (first ∷ second ∷ rest)
unfolding parse_frame
parse_frame-payload_length first second n idx rest eq low word slice =
    let mask = leb 128 second in
    rw (parse_frame, eq)
      (read_payload-panic (first % 16) (leb 128 first) mask (start_of mask idx) n
        (first ∷ second ∷ rest) (let h = start_of_le mask idx in omega arith) word slice)

parse_frame-error :
    (first second : ℕ) (rest : List ℕ) (error : FrameError)
    → payload_length (second % 128) (first ∷ second ∷ rest) ≡ inl error
    → parse_frame (first ∷ second ∷ rest) ≡ panic
    → ⊥
unfolding parse_frame
parse_frame-error first second rest error eq = rw (parse_frame, eq) (λ h. ground arith)

-- The eight bytes of a long length.
abbrev long_length : List ℕ → ℕ
long_length bytes = big_endian_from 0 (take 8 (drop 2 bytes))

All-drop : (n : ℕ) (bytes : List ℕ) → All (λ b. b < 256) bytes → All (λ b. b < 256) (drop n bytes)
All-drop zero bytes h = h
All-drop (suc n) [] h = h
All-drop (suc n) (b ∷ bytes) (hb, h) = All-drop n bytes h

payload_length_long :
    (second : ℕ) (bytes : List ℕ)
    → second ≡ 127
    → 10 ≤ length bytes
    → payload_length second bytes ≡ inr (long_length bytes, 10)
unfolding payload_length
payload_length_long second bytes long enough =
    let n126 : nat_beq second 126 ≡ false = ground (arith, long) in
    let n127 : nat_beq second 127 ≡ true = ground (arith, long) in
    let len : ltb (length bytes) 10 ≡ false = ground arith in rw (n126, n127, len) refl

-- A length of less than eight bytes is small, and one that is not there is an error.
payload_length_short :
    (second : ℕ) (bytes : List ℕ)
    → All (λ b. b < 256) bytes
    → second < 128
    → (second ≡ 127 → 10 ≤ length bytes → ⊥)
    → ((error : FrameError) × (payload_length second bytes ≡ inl error))
      ⊎ ((n : ℕ) × (idx : ℕ) × (payload_length second bytes ≡ inr (n, idx))
          × (idx ≤ 4)
          × (n < 65536))
unfolding payload_length
payload_length_short second bytes fits low short = elim (Bool-cases (nat_beq second 126)) [
  | inl two ↦ elim (Bool-cases (ltb (length bytes) 4)) [
    | inl few ↦ rw (two, few) (inl (invalid_extended_length, refl))
    | inr many ↦
        rw (two, many)
          (inr (
            big_endian_from 0 (take 2 (drop 2 bytes)),
            4,
            refl,
            omega arith,
            (let word =
                  big_endian_from-le 2 0 0 (drop 2 bytes) (omega arith) (All-drop 2 bytes fits) in
                omega arith),
          ))
  ]
  | inr not_two ↦ elim (Bool-cases (nat_beq second 127)) [
    | inl eight ↦
        let is127 = (nat_beq_iff second 127).0 eight in
        let few : ltb (length bytes) 10 ≡ true = ground (arith, short is127) in
        rw (not_two, eight, few) (inl (invalid_extended_length, refl))
    | inr not_eight ↦ rw (not_two, not_eight) (inr (second, 2, refl, omega arith, omega arith))
  ]
]

parse_frame_long :
    (first second : ℕ) (rest : List ℕ)
    → All (λ b. b < 256) rest
    → IsSlice (first ∷ second ∷ rest)
    → second % 128 ≡ 127
    → 10 ≤ length (first ∷ second ∷ rest)
    → (parse_frame (first ∷ second ∷ rest) ≡ panic)
      ↔ Overflows
          (start_of (leb 128 second) 10)
          (long_length (first ∷ second ∷ rest))
          (first ∷ second ∷ rest)
parse_frame_long first second rest fits slice long enough =
    parse_frame-payload_length first second (long_length (first ∷ second ∷ rest)) 10 rest
      (payload_length_long (second % 128) (first ∷ second ∷ rest) long enough) (omega arith)
      (let word = big_endian_from-le 8 0 0 rest (omega arith) fits in omega arith) slice

parse_frame_short :
    (first second : ℕ) (rest : List ℕ)
    → All (λ b. b < 256) (first ∷ second ∷ rest)
    → IsSlice (first ∷ second ∷ rest)
    → (second % 128 ≡ 127 → 10 ≤ length (first ∷ second ∷ rest) → ⊥)
    → parse_frame (first ∷ second ∷ rest) ≡ panic
    → ⊥
parse_frame_short first second rest fits slice short panics =
    elim (payload_length_short (second % 128) (first ∷ second ∷ rest) fits (omega arith) short) [
      | inl (error, eq) ↦ parse_frame-error first second rest error eq panics
      | inr (n, idx, eq, low, small) ↦
          let (over, _) =
            (parse_frame-payload_length first second n idx rest eq (omega arith) (omega arith)
                slice).0
              panics in
          let h = start_of_le (leb 128 second) idx in omega (arith, over, h, low, small)
    ]

-- On two bytes or more, fewer than 2^62 of them, ParseFrame faults exactly on a length of eight bytes that is there and at which the end of the payload
-- overflows: on shorter lengths it never does.
pub parse_frame-panic :
    (first second : ℕ) (rest : List ℕ)
    → All (λ b. b < 256) (first ∷ second ∷ rest)
    → IsSlice (first ∷ second ∷ rest)
    → (parse_frame (first ∷ second ∷ rest) ≡ panic) ↔ (
        (second % 128 ≡ 127)
        × (10 ≤ length (first ∷ second ∷ rest))
        × Overflows
            (if leb 128 second then 14 else 10)
            (big_endian_from 0 (take 8 rest))
            (first ∷ second ∷ rest))
parse_frame-panic first second rest fits slice =
    let bytes : List ℕ = first ∷ second ∷ rest in
    let at = parse_frame_long first second rest ((fits.1).1) slice in
    (
      (λ panics. elim (Bool-cases (nat_beq (second % 128) 127)) [
        | inl is127 ↦
            let long = (nat_beq_iff (second % 128) 127).0 is127 in
            elim (Bool-cases (leb 10 (length bytes))) [
              | inl enough ↦
                  let many : 10 ≤ length bytes = ground (arith, enough) in
                  (long, many, (at long many).0 panics)
              | inr few ↦ absurd (
                  parse_frame_short first second rest fits slice (λ l m. ground (arith, few, m))
                    panics)
            ]
        | inr other ↦ absurd (
            parse_frame_short first second rest fits slice (λ l m. ground (arith, other, l)) panics)
      ]),
      (λ h. let (long, many, over) = h in (at long many).1 over),
    )
