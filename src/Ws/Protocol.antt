-- ===== src/Ws/Protocol.antt =====
-- crates/sutegi-ws/src/protocol.rs: the frame codec.
pub mod Masking
pub mod Sending
pub mod RoundTrip
pub mod Decoding
use sutegi.Base.{
  ℕ, zero, suc, ◌+◌, ◌-◌, ◌*◌, ◌/◌, ◌%◌, ◌^◌, min, bit_and, bit_or, bit_xor, Bool, true, false, not,
  ◌&&◌, ◌||◌, Option, none, some, List, [], ◌∷◌, ◌++◌, Bytes, ltb, leb, ◌==◌, if◌then◌else◌, length,
  get_or, take, drop,
}

pub data Result {ℓ κ} (E : Type ℓ) (A : Type κ) : Type (ℓ ⊔ κ) where
  ok : A → Result E A
  err : E → Result E A

pub data Opcode : Type 0 where
  continuation text binary close ping pong : Opcode

unfoldable pub from_bits : ℕ → Option Opcode
from_bits b =
    if b == 0x0
    then some continuation
    else if b == 0x1
    then some text
    else if b == 0x2
    then some binary
    else if b == 0x8
    then some close
    else if b == 0x9
    then some ping
    else if b == 0xA
    then some pong
    else none

unfoldable pub bits : Opcode → ℕ
bits continuation = 0x0
bits text = 0x1
bits binary = 0x2
bits close = 0x8
bits ping = 0x9
bits pong = 0xA

unfoldable pub is_control : Opcode → Bool
is_control close = true
is_control ping = true
is_control pong = true
is_control _ = false

pub record Frame : Type 0 where
  pub fin : Bool
  pub opcode : Opcode
  pub payload : Bytes

pub data ProtocolError : Type 0 where
  reserved_bits bad_opcode unmasked bad_control_frame non_minimal_length too_big bad_fragmentation
        bad_utf8 bad_close_frame :
      ProtocolError

unfoldable pub close_code : ProtocolError → ℕ
close_code too_big = 1009
close_code bad_utf8 = 1007
close_code _ = 1002

-- A masking key, `[u8; 4]`.
pub record Mask : Type 0 where
  pub m0 : ℕ
  pub m1 : ℕ
  pub m2 : ℕ
  pub m3 : ℕ

-- `mask[i & 3]`.
unfoldable pub mask_at : Mask → ℕ → ℕ
mask_at m i =
    let k = bit_and i 3 in
    if k == 0 then m.m0 else if k == 1 then m.m1 else if k == 2 then m.m2 else m.m3

-- `u64::from_ne_bytes` and `to_ne_bytes` on a little-endian target.
abbrev pub from_ne_bytes : ℕ → ℕ → ℕ → ℕ → ℕ → ℕ → ℕ → ℕ → ℕ
from_ne_bytes a b c d e f g h =
    ((((((h * 2 ^ 8 + g) * 2 ^ 8 + f) * 2 ^ 8 + e) * 2 ^ 8 + d) * 2 ^ 8 + c) * 2 ^ 8 + b) * 2 ^ 8
    + a

abbrev pub byte_of : ℕ → ℕ → ℕ
byte_of v k = v / 2 ^ k % 2 ^ 8

unfoldable pub to_ne_bytes : ℕ → Bytes
to_ne_bytes v =
    byte_of v 0
    ∷ byte_of v 8
    ∷ byte_of v 16
    ∷ byte_of v 24
    ∷ byte_of v 32
    ∷ byte_of v 40
    ∷ byte_of v 48
    ∷ byte_of v 56
    ∷ []

-- The bytes behind the last whole word.
unfoldable pub unmask_rest : Mask → ℕ → Bytes → Bytes
unmask_rest m i [] = []
unmask_rest m i (b ∷ rest) = bit_xor b (mask_at m i) ∷ unmask_rest m (i + 1) rest

-- `chunks_exact_mut(8)`, each chunk one 64-bit word.
unfoldable pub unmask_words : Mask → ℕ → Bytes → Bytes
unmask_words m m64 (a ∷ b ∷ c ∷ d ∷ e ∷ f ∷ g ∷ h ∷ rest) =
    to_ne_bytes (bit_xor (from_ne_bytes a b c d e f g h) m64) ++ unmask_words m m64 rest
unmask_words m m64 rest = unmask_rest m 0 rest

unfoldable pub unmask : Mask → Bytes → Bytes
unmask m payload = unmask_words m (from_ne_bytes m.m0 m.m1 m.m2 m.m3 m.m0 m.m1 m.m2 m.m3) payload

-- `usize::MAX` on a 64-bit target.
abbrev pub usize_max : ℕ
usize_max = 2 ^ 64 - 1

abbrev pub at : Bytes → ℕ → ℕ
at buf i = get_or buf i 0

-- `u16::from_be_bytes` of bytes 2 and 3, `u64::from_be_bytes` of bytes 2 to 9.
unfoldable pub be16 : Bytes → ℕ
be16 buf = at buf 2 * 2 ^ 8 + at buf 3

unfoldable pub be64 : Bytes → ℕ
be64 buf =
    ((((((at buf 2 * 2 ^ 8 + at buf 3) * 2 ^ 8 + at buf 4) * 2 ^ 8 + at buf 5) * 2 ^ 8 + at buf 6)
              * 2 ^ 8
            + at buf 7)
          * 2 ^ 8
        + at buf 8)
      * 2 ^ 8
    + at buf 9

-- The payload's length and where the mask starts; `none` asks for more bytes.
unfoldable pub frame_length : Bytes → Result ProtocolError (Option (ℕ × ℕ))
frame_length buf =
    let n = bit_and (at buf 1) 0x7F in
    if n == 126
    then (if ltb (length buf) 4
        then ok none
        else if ltb (be16 buf) 126
        then err non_minimal_length
        else ok (some (be16 buf, 4)))
    else if n == 127
    then (if ltb (length buf) 10
        then ok none
        else if ltb (be64 buf) 65536
        then err non_minimal_length
        else if ltb usize_max (be64 buf)
        then err too_big
        else ok (some (be64 buf, 10)))
    else ok (some (n, 2))

unfoldable pub mask_of : Bytes → ℕ → Mask
mask_of buf idx = record {
  m0 = at buf idx;
  m1 = at buf (idx + 1);
  m2 = at buf (idx + 2);
  m3 = at buf (idx + 3);
}

-- The part of `decode_frame` behind the length field.
unfoldable pub decode_payload :
    Bytes → ℕ → Bool → Opcode → ℕ → ℕ → Result ProtocolError (Option (Frame × ℕ))
decode_payload buf max_payload fin opcode len idx =
    if ltb max_payload len
    then err too_big
    else if ltb (length buf) (idx + 4)
    then ok none
    else if ltb (length buf - (idx + 4)) len
    then ok none
    else ok (
        some (
          record {
            fin = fin;
            opcode = opcode;
            payload = unmask (mask_of buf idx) (take len (drop (idx + 4) buf));
          },
          idx + 4 + len,
        ))

-- The checks of the first two bytes: `FIN` and the opcode.
unfoldable pub decode_header : ℕ → ℕ → Result ProtocolError (Bool × Opcode)
decode_header b0 b1 =
    if not (bit_and b0 0x70 == 0)
    then err reserved_bits
    else let fin = not (bit_and b0 0x80 == 0) in
      elim (from_bits (bit_and b0 0x0F)) [
        | none ↦ err bad_opcode
        | some opcode ↦
            if bit_and b1 0x80 == 0
            then err unmasked
            else if is_control opcode && (not fin || ltb 125 (bit_and b1 0x7F))
            then err bad_control_frame
            else ok (fin, opcode)
      ]

-- The length field and the payload, once the header is accepted.
unfoldable pub decode_rest : Bytes → ℕ → Bool → Opcode → Result ProtocolError (Option (Frame × ℕ))
decode_rest buf max_payload fin opcode = elim (frame_length buf) [
  | err e ↦ err e
  | ok none ↦ ok none
  | ok (some (len, idx)) ↦ decode_payload buf max_payload fin opcode len idx
]

unfoldable pub decode_frame : Bytes → ℕ → Result ProtocolError (Option (Frame × ℕ))
decode_frame buf max_payload =
    if ltb (length buf) 2 then ok none else elim (decode_header (at buf 0) (at buf 1)) [
      | err e ↦ err e
      | ok (fin, opcode) ↦ decode_rest buf max_payload fin opcode
    ]

abbrev pub be16_bytes : ℕ → Bytes
be16_bytes n = (n % 2 ^ 16 / 2 ^ 8) ∷ (n % 2 ^ 8) ∷ []

abbrev pub be64_bytes : ℕ → Bytes
be64_bytes n =
    byte_of n 56
    ∷ byte_of n 48
    ∷ byte_of n 40
    ∷ byte_of n 32
    ∷ byte_of n 24
    ∷ byte_of n 16
    ∷ byte_of n 8
    ∷ byte_of n 0
    ∷ []

unfoldable pub encode_frame : Opcode → Bytes → Bool → Bytes
encode_frame opcode payload fin =
    let n = length payload in
    bit_or (if fin then 0x80 else 0x00) (bits opcode)
      ∷ (if leb n 125
          then n % 2 ^ 8 ∷ []
          else if leb n 65535
          then 126 ∷ be16_bytes n
          else 127 ∷ be64_bytes n)
    ++ payload
