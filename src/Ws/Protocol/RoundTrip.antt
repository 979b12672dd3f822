-- ===== src/Ws/Protocol/RoundTrip.antt =====
-- crates/sutegi-ws/src/protocol.rs: encoding, masking and decoding one frame.
use sutegi.Base.{
  ℕ, ◌+◌, ◌/◌, ◌%◌, ◌<◌, ◌≤◌, ◌^◌, ◌≡◌, refl, arith, ap, ◌∙◌, [], ◌∷◌, ◌++◌, Bytes, IsByte, All,
  length, Bool, true, some, length-append, append_assoc,
}
use native.Mathlib.Decide.{dec_le}
use sutegi.Ws.Protocol.{
  ok, Mask, Opcode, Frame, is_control, encode_frame, decode_frame, mask_of, be64_bytes,
}
use sutegi.Ws.Protocol.Masking.{IsKey, mask_bytes, length-mask_bytes}
use sutegi.Ws.Protocol.Sending.{
  frame_header, encode_frame-header, take_header, decode_header_ok, decode_payload_ok, header_short,
  header_16, header_64, decode_frame_parts, frame_length_short, frame_length_16, frame_length_64,
  first_byte, set_mask_bit, to_client, IsSendable,
}

module _ (max_payload : ℕ) (opcode : Opcode) (fin : Bool) (m : Mask) (payload rest : Bytes)
    (k : IsKey m) (h : All IsByte payload) (fits : length payload ≤ max_payload)
    (sendable : IsSendable opcode payload fin) where
  abbrev tail_bytes : Bytes
  tail_bytes = m.m0 ∷ m.m1 ∷ m.m2 ∷ m.m3 ∷ (mask_bytes m 0 payload ++ rest)

  abbrev whole : Frame
  whole = record { fin = fin; opcode = opcode; payload = payload }

  length-tail : length tail_bytes ≡ 4 + length payload + length rest
  length-tail =
      omega (arith, length-append (mask_bytes m 0 payload) rest, length-mask_bytes m 0 payload)

  limited : is_control opcode ≡ true → (fin ≡ true) × (length payload ≤ 125)
  limited c = sendable c

  decode_short :
      length payload ≤ 125
      → decode_frame (first_byte opcode fin ∷ (length payload + 128) ∷ tail_bytes) max_payload
        ≡ ok (some (whole, 2 + 4 + length payload))
  decode_short q =
      let buf : Bytes = first_byte opcode fin ∷ (length payload + 128) ∷ tail_bytes in
      decode_frame_parts buf max_payload fin opcode (length payload) 2 (omega arith)
        (decode_header_ok opcode fin (length payload) (omega arith) limited)
        (frame_length_short (first_byte opcode fin) (length payload) tail_bytes q)
      ∙ decode_payload_ok buf max_payload fin opcode 2 m payload rest k h fits
          (unfold mask_of in refl) refl (omega (arith, length-tail))

  decode_16 :
      125 < length payload
      → length payload ≤ 65535
      → decode_frame
          (first_byte opcode fin ∷ 254 ∷ length payload / 256 ∷ length payload % 256 ∷ tail_bytes)
          max_payload
        ≡ ok (some (whole, 4 + 4 + length payload))
  decode_16 q r =
      let buf : Bytes =
        first_byte opcode fin ∷ 254 ∷ length payload / 256 ∷ length payload % 256 ∷ tail_bytes in
      decode_frame_parts buf max_payload fin opcode (length payload) 4 (omega arith)
        (decode_header_ok opcode fin 126 (omega arith) (λ c. absurd (omega (arith, (limited c).1))))
        (frame_length_16 (first_byte opcode fin) (length payload) tail_bytes q r)
      ∙ decode_payload_ok buf max_payload fin opcode 4 m payload rest k h fits
          (unfold mask_of in refl) refl (omega (arith, length-tail))

  decode_64 :
      65535 < length payload
      → length payload < 2 ^ 64
      → decode_frame
          (first_byte opcode fin ∷ 255 ∷ (be64_bytes (length payload) ++ tail_bytes))
          max_payload
        ≡ ok (some (whole, 10 + 4 + length payload))
  decode_64 q r =
      let buf : Bytes = first_byte opcode fin ∷ 255 ∷ (be64_bytes (length payload) ++ tail_bytes) in
      decode_frame_parts buf max_payload fin opcode (length payload) 10 (omega arith)
        (decode_header_ok opcode fin 127 (omega arith) (λ c. absurd (omega (arith, (limited c).1))))
        (frame_length_64 (first_byte opcode fin) (length payload) tail_bytes q r)
      ∙ decode_payload_ok buf max_payload fin opcode 10 m payload rest k h fits
          (unfold mask_of in refl) refl (omega (arith, length-tail))

abbrev tail_bytes_of : Mask → Bytes → Bytes → Bytes
tail_bytes_of m payload rest = m.m0 ∷ m.m1 ∷ m.m2 ∷ m.m3 ∷ (mask_bytes m 0 payload ++ rest)

to_client_header :
    (m : Mask) (opcode : Opcode) (payload rest : Bytes) (fin : Bool)
    → to_client m payload (encode_frame opcode payload fin) ++ rest
      ≡ set_mask_bit (frame_header opcode fin (length payload)) ++ tail_bytes_of m payload rest
unfolding to_client
to_client_header m opcode payload rest fin =
    rw
      (
        encode_frame-header opcode payload fin,
        take_header (frame_header opcode fin (length payload)) payload,
      )
      (append_assoc (set_mask_bit (frame_header opcode fin (length payload))) _ rest)

length-to_client :
    (m : Mask) (opcode : Opcode) (payload : Bytes) (fin : Bool)
    → length (to_client m payload (encode_frame opcode payload fin))
      ≡ length (set_mask_bit (frame_header opcode fin (length payload))) + 4 + length payload
length-to_client m opcode payload fin =
    let head = set_mask_bit (frame_header opcode fin (length payload)) in
    omega (
      arith,
      length-append (to_client m payload (encode_frame opcode payload fin)) [],
      ap length (to_client_header m opcode payload [] fin),
      length-append head (tail_bytes_of m payload []),
      length-append (mask_bytes m 0 payload) [],
      length-mask_bytes m 0 payload,
    )

-- The decoder reads back what a client sends: the server's own encoding of the frame with the mask
-- bit set, the key inserted and the payload masked. It takes exactly those bytes, whatever follows,
-- for a payload of bytes within the limit, whole and of at most 125 bytes for a control frame.
pub decode_frame-to_client :
    (max_payload : ℕ) (m : Mask) (opcode : Opcode) (payload rest : Bytes) (fin : Bool)
    → IsKey m
    → All IsByte payload
    → length payload ≤ max_payload
    → length payload < 2 ^ 64
    → IsSendable opcode payload fin
    → decode_frame (to_client m payload (encode_frame opcode payload fin) ++ rest) max_payload
      ≡ ok (
          some (
            record { fin = fin; opcode = opcode; payload = payload },
            length (to_client m payload (encode_frame opcode payload fin)),
          ))
unfolding set_mask_bit
decode_frame-to_client max_payload m opcode payload rest fin k h fits small sendable =
    rw (to_client_header m opcode payload rest fin, length-to_client m opcode payload fin) by_size
  where
    by_size :
        decode_frame
          (set_mask_bit (frame_header opcode fin (length payload)) ++ tail_bytes_of m payload rest)
          max_payload
        ≡ ok (
            some (
              record { fin = fin; opcode = opcode; payload = payload },
              length (set_mask_bit (frame_header opcode fin (length payload))) + 4 + length payload,
            ))
    by_size = elim (dec_le (length payload) 125) [
      | yes p ↦
          rw (header_short opcode fin (length payload) p)
            (decode_short max_payload opcode fin m payload rest k h fits sendable p)
      | no p ↦ elim (dec_le (length payload) 65535) [
        | yes q ↦
            rw (header_16 opcode fin (length payload) (omega arith) q)
              (decode_16 max_payload opcode fin m payload rest k h fits sendable (omega arith) q)
        | no q ↦
            rw (header_64 opcode fin (length payload) (omega arith)) (
              decode_64 max_payload opcode fin m payload rest k h fits sendable (omega arith) small)
      ]
    ]
