-- ===== src/Ws/Protocol/Sending.antt =====
-- crates/sutegi-ws/src/protocol.rs: a frame as a client sends it, and what the decoder makes of its parts.
use sutegi.Base.{
  ℕ, ◌+◌, ◌-◌, ◌/◌, ◌%◌, ◌<◌, ◌≤◌, ◌^◌, ◌≡◌, refl, arith, bit_or, [], ◌∷◌, ◌++◌, Bytes, IsByte, All,
  length, if◌then◌else◌, Bool, true, false, take, drop, leb, ltb, some, length-append,
  take-length-append,
}
use sutegi.Base.Bits.{bit_and_0x7f, bit_and_0x80}
use sutegi.Ws.Protocol.{
  ok, Mask, unmask, Opcode, bits, from_bits, is_control, at, continuation, text, binary,
  encode_frame, decode_frame, decode_rest, decode_header, frame_length, decode_payload, mask_of,
  be16, be64, be16_bytes, be64_bytes,
}
use sutegi.Ws.Protocol.Masking.{IsKey, mask_bytes, length-mask_bytes, unmask-mask_bytes}

-- The bytes of `encode_frame` before the payload.
unfoldable pub frame_header : Opcode → Bool → ℕ → Bytes
frame_header opcode fin n =
    bit_or (if fin then 0x80 else 0x00) (bits opcode)
    ∷ (if leb n 125
        then n % 2 ^ 8 ∷ []
        else if leb n 65535
        then 126 ∷ be16_bytes n
        else 127 ∷ be64_bytes n)

pub encode_frame-header :
    (opcode : Opcode) (payload : Bytes) (fin : Bool)
    → encode_frame opcode payload fin ≡ frame_header opcode fin (length payload) ++ payload
unfolding encode_frame frame_header
encode_frame-header opcode payload fin = refl

-- RFC 6455, section 5.2: a client sets the top bit of the second byte, and puts the masking key
-- between the header and the masked payload.
unfoldable pub set_mask_bit : Bytes → Bytes
set_mask_bit (b0 ∷ b1 ∷ rest) = b0 ∷ (b1 + 128) ∷ rest
set_mask_bit s = s

unfoldable pub to_client : Mask → Bytes → Bytes → Bytes
to_client m payload frame =
    set_mask_bit (take (length frame - length payload) frame)
    ++ m.m0 ∷ m.m1 ∷ m.m2 ∷ m.m3 ∷ mask_bytes m 0 payload

-- A control frame is whole and has at most 125 bytes.
abbrev pub IsSendable : Opcode → Bytes → Bool → Type 0
IsSendable opcode payload fin = is_control opcode ≡ true → (fin ≡ true) × (length payload ≤ 125)

pub take_header : (xs ys : Bytes) → take (length (xs ++ ys) - length ys) (xs ++ ys) ≡ xs
take_header xs ys =
    let e : length (xs ++ ys) - length ys ≡ length xs = omega (arith, length-append xs ys) in
    rw e (take-length-append xs ys)

pub decode_header_ok :
    (opcode : Opcode) (fin : Bool) (n : ℕ)
    → n < 128
    → (is_control opcode ≡ true → (fin ≡ true) × (n ≤ 125))
    → decode_header (bit_or (if fin then 0x80 else 0x00) (bits opcode)) (n + 128) ≡ ok (fin, opcode)
unfolding decode_header bits from_bits is_control
decode_header_ok continuation true n h c = ground (arith, bit_and_0x80 (n + 128) (omega arith))
decode_header_ok continuation false n h c = ground (arith, bit_and_0x80 (n + 128) (omega arith))
decode_header_ok text true n h c = ground (arith, bit_and_0x80 (n + 128) (omega arith))
decode_header_ok text false n h c = ground (arith, bit_and_0x80 (n + 128) (omega arith))
decode_header_ok binary true n h c = ground (arith, bit_and_0x80 (n + 128) (omega arith))
decode_header_ok binary false n h c = ground (arith, bit_and_0x80 (n + 128) (omega arith))
decode_header_ok _ true n h c =
    ground
      (arith, c refl, bit_and_0x7f (n + 128) (omega arith), bit_and_0x80 (n + 128) (omega arith))
decode_header_ok _ false n h c = cc ((c refl).0)

pub decode_payload_ok :
    (buf : Bytes) (max_payload : ℕ) (fin : Bool) (opcode : Opcode) (idx : ℕ) (m : Mask)
    (payload rest : Bytes)
    → IsKey m
    → All IsByte payload
    → length payload ≤ max_payload
    → mask_of buf idx ≡ m
    → drop (idx + 4) buf ≡ mask_bytes m 0 payload ++ rest
    → length buf ≡ idx + 4 + length payload + length rest
    → decode_payload buf max_payload fin opcode (length payload) idx
      ≡ ok (
          some (record { fin = fin; opcode = opcode; payload = payload }, idx + 4 + length payload))
unfolding decode_payload
decode_payload_ok buf max_payload fin opcode idx m payload rest k h fits key tail_eq len =
    let masked = mask_bytes m 0 payload in
    let same : take (length payload) (masked ++ rest) ≡ masked =
      rw (← length-mask_bytes m 0 payload) (take-length-append masked rest) in
    let whole : unmask (mask_of buf idx) (take (length payload) (drop (idx + 4) buf)) ≡ payload =
      rw (key, tail_eq, same) (unmask-mask_bytes m payload k h) in
    rw whole (ground arith)

abbrev pub first_byte : Opcode → Bool → ℕ
first_byte opcode fin = bit_or (if fin then 0x80 else 0x00) (bits opcode)

pub header_short :
    (opcode : Opcode) (fin : Bool) (n : ℕ)
    → n ≤ 125
    → frame_header opcode fin n ≡ first_byte opcode fin ∷ n ∷ []
unfolding frame_header
header_short opcode fin n h = ground arith

pub header_16 :
    (opcode : Opcode) (fin : Bool) (n : ℕ)
    → 125 < n
    → n ≤ 65535
    → frame_header opcode fin n ≡ first_byte opcode fin ∷ 126 ∷ n / 256 ∷ n % 256 ∷ []
unfolding frame_header
header_16 opcode fin n h k = ground arith

pub header_64 :
    (opcode : Opcode) (fin : Bool) (n : ℕ)
    → 65535 < n
    → frame_header opcode fin n ≡ first_byte opcode fin ∷ 127 ∷ be64_bytes n
unfolding frame_header
header_64 opcode fin n h = ground arith

pub decode_frame_parts :
    (buf : Bytes) (max_payload : ℕ) (fin : Bool) (opcode : Opcode) (len idx : ℕ)
    → 2 ≤ length buf
    → decode_header (at buf 0) (at buf 1) ≡ ok (fin, opcode)
    → frame_length buf ≡ ok (some (len, idx))
    → decode_frame buf max_payload ≡ decode_payload buf max_payload fin opcode len idx
unfolding decode_frame decode_rest
decode_frame_parts buf max_payload fin opcode len idx long head size =
    let e : ltb (length buf) 2 ≡ false = ground arith in rw (e, head, size, decode_rest)

pub frame_length_short :
    (b0 n : ℕ) (more : Bytes) → n ≤ 125 → frame_length (b0 ∷ (n + 128) ∷ more) ≡ ok (some (n, 2))
unfolding frame_length
frame_length_short b0 n more h = ground (arith, bit_and_0x7f (n + 128) (omega arith))

pub frame_length_16 :
    (b0 n : ℕ) (more : Bytes)
    → 125 < n
    → n ≤ 65535
    → frame_length (b0 ∷ 254 ∷ n / 256 ∷ n % 256 ∷ more) ≡ ok (some (n, 4))
unfolding frame_length be16
frame_length_16 b0 n more h k = ground arith

pub be64-be64_bytes :
    (b0 b1 n : ℕ) (more : Bytes) → n < 2 ^ 64 → be64 (b0 ∷ b1 ∷ (be64_bytes n ++ more)) ≡ n
unfolding be64
be64-be64_bytes b0 b1 n more h = omega arith

pub frame_length_64 :
    (b0 n : ℕ) (more : Bytes)
    → 65535 < n
    → n < 2 ^ 64
    → frame_length (b0 ∷ 255 ∷ (be64_bytes n ++ more)) ≡ ok (some (n, 10))
unfolding frame_length
frame_length_64 b0 n more h k = rw (be64-be64_bytes b0 255 n more k) (ground arith)
