-- ===== src/Ws/Protocol/Decoding.antt =====
-- crates/sutegi-ws/src/protocol.rs: the decoder on arbitrary bytes from the network.
use sutegi.Base.{
  ℕ, zero, suc, ◌+◌, ◌-◌, ◌<◌, ◌≤◌, ◌≡◌, ◌≢◌, refl, arith, ap, ◌∙◌, bit_and, [], ◌∷◌, ◌++◌, Bytes,
  length, Bool, true, take, drop, some, none, Option, get_or, length-append, length-take,
  length-drop, take-append_of_le,
}
use sutegi.Ws.Protocol.{
  Result, ok, err, Mask, unmask, unmask_words, unmask_rest, to_ne_bytes, Opcode, Frame, is_control,
  at, decode_frame, decode_rest, decode_header, frame_length, decode_payload, mask_of, be16, be64,
  ProtocolError,
}

length-unmask_rest : (m : Mask) (i : ℕ) (s : Bytes) → length (unmask_rest m i s) ≡ length s
unfolding unmask_rest
length-unmask_rest m i [] = refl
length-unmask_rest m i (b ∷ s) = ap suc (length-unmask_rest m (i + 1) s)

length-unmask_words : (m : Mask) (w : ℕ) (s : Bytes) → length (unmask_words m w s) ≡ length s
unfolding unmask_words to_ne_bytes
length-unmask_words m w (a ∷ b ∷ c ∷ d ∷ e ∷ f ∷ g ∷ h ∷ rest) =
    omega (arith, length-unmask_words m w rest)
length-unmask_words m w s = length-unmask_rest m 0 s

length-unmask : (m : Mask) (s : Bytes) → length (unmask m s) ≡ length s
unfolding unmask
length-unmask m s = length-unmask_words m _ s

frame_length_start :
    (buf : Bytes) {len idx : ℕ} → frame_length buf ≡ ok (some (len, idx)) → (2 ≤ idx) × (idx ≤ 10)
unfolding frame_length
frame_length_start buf e = ground arith

decode_payload_bounds :
    (buf : Bytes) (max_payload : ℕ) (fin : Bool) (opcode : Opcode) (len idx : ℕ) {f : Frame} {n : ℕ}
    → decode_payload buf max_payload fin opcode len idx ≡ ok (some (f, n))
    → (n ≤ length buf)
      × (length f.payload ≡ len)
      × (len ≤ max_payload)
      × (n ≡ idx + 4 + len)
      × (f.fin ≡ fin)
      × (f.opcode ≡ opcode)
unfolding decode_payload
decode_payload_bounds buf max_payload fin opcode len idx e = ground (
  arith,
  length-unmask (mask_of buf idx) (take len (drop (idx + 4) buf)),
  length-take len (drop (idx + 4) buf),
  length-drop (idx + 4) buf,
)

decode_header_control :
    (b0 b1 : ℕ) {fin : Bool} {opcode : Opcode}
    → decode_header b0 b1 ≡ ok (fin, opcode)
    → is_control opcode ≡ true
    → (fin ≡ true) × (bit_and b1 0x7F ≤ 125)
unfolding decode_header
decode_header_control b0 b1 e c = ground arith

frame_length_control :
    (buf : Bytes) {len idx : ℕ}
    → bit_and (at buf 1) 0x7F ≤ 125
    → frame_length buf ≡ ok (some (len, idx))
    → len ≤ 125
unfolding frame_length
frame_length_control buf h e = ground arith

-- The stages that a successful decoding went through.
pub record Decoded (buf : Bytes) (max_payload : ℕ) (f : Frame) (n : ℕ) : Type 0 where
  pub fin : Bool
  pub opcode : Opcode
  pub len : ℕ
  pub idx : ℕ
  pub long : 2 ≤ length buf
  pub header : decode_header (at buf 0) (at buf 1) ≡ ok (fin, opcode)
  pub size : frame_length buf ≡ ok (some (len, idx))
  pub body : decode_payload buf max_payload fin opcode len idx ≡ ok (some (f, n))

pub decode_frame-Decoded :
    (buf : Bytes) (max_payload : ℕ) (f : Frame) (n : ℕ)
    → decode_frame buf max_payload ≡ ok (some (f, n))
    → Decoded buf max_payload f n
unfolding decode_frame decode_rest
decode_frame-Decoded buf max_payload f n e =
    stages (decode_header (at buf 0) (at buf 1)) (frame_length buf) refl refl
  where
    stages :
        (h : Result ProtocolError (Bool × Opcode)) (l : Result ProtocolError (Option (ℕ × ℕ)))
        → decode_header (at buf 0) (at buf 1) ≡ h
        → frame_length buf ≡ l
        → Decoded buf max_payload f n
    stages (err x) l p q = absurd (ground arith)
    stages (ok (fin, opcode)) (err x) p q = absurd (ground arith)
    stages (ok (fin, opcode)) (ok none) p q = absurd (ground arith)
    stages (ok (fin, opcode)) (ok (some (len, idx))) p q = record {
      fin = fin;
      opcode = opcode;
      len = len;
      idx = idx;
      long = ground arith;
      header = p;
      size = q;
      body = ground arith;
    }

-- A decoded frame lies within the buffer and within the limit, and its header takes 6 to 14 bytes;
-- a control frame is whole and has at most 125 bytes.
pub decode_frame_bounds :
    (buf : Bytes) (max_payload : ℕ) (f : Frame) (n : ℕ)
    → decode_frame buf max_payload ≡ ok (some (f, n))
    → (n ≤ length buf)
      × (length f.payload ≤ max_payload)
      × (length f.payload + 6 ≤ n)
      × (n ≤ length f.payload + 14)
      × (is_control f.opcode ≡ true → (f.fin ≡ true) × (length f.payload ≤ 125))
decode_frame_bounds buf max_payload f n e =
    let d = decode_frame-Decoded buf max_payload f n e in
    let (inside, size, fits, total, same_fin, same_op) =
      decode_payload_bounds buf max_payload d.fin d.opcode d.len d.idx d.body in
    let (lo, hi) = frame_length_start buf d.size in
    (
      inside,
      omega arith,
      omega arith,
      omega arith,
      λ c.
          let (whole, short) =
            decode_header_control (at buf 0) (at buf 1) d.header (rw same_op at c) in
          (same_fin ∙ whole, omega (arith, frame_length_control buf short d.size)),
    )

get_or-append : (xs ys : Bytes) (i : ℕ) → i < length xs → get_or (xs ++ ys) i 0 ≡ get_or xs i 0
get_or-append [] ys i h = absurd (omega arith)
get_or-append (x ∷ xs) ys zero h = refl
get_or-append (x ∷ xs) ys (suc i) h = get_or-append xs ys i (omega arith)

drop-append_of_le : (n : ℕ) (xs ys : Bytes) → n ≤ length xs → drop n (xs ++ ys) ≡ drop n xs ++ ys
drop-append_of_le zero xs ys h = refl
drop-append_of_le (suc n) [] ys h = absurd (omega arith)
drop-append_of_le (suc n) (x ∷ xs) ys h = drop-append_of_le n xs ys (omega arith)

module _ (buf more : Bytes) where
  at-append : (i : ℕ) → i < length buf → at (buf ++ more) i ≡ at buf i
  at-append i h = get_or-append buf more i h

  longer : length (buf ++ more) ≡ length buf + length more
  longer = length-append buf more

  be16-append : 4 ≤ length buf → be16 (buf ++ more) ≡ be16 buf
  unfolding be16
  be16-append h = rw (at-append 2 (omega arith), at-append 3 (omega arith))

  be64-append : 10 ≤ length buf → be64 (buf ++ more) ≡ be64 buf
  unfolding be64
  be64-append h = rw (
    at-append 2 (omega arith),
    at-append 3 (omega arith),
    at-append 4 (omega arith),
    at-append 5 (omega arith),
    at-append 6 (omega arith),
    at-append 7 (omega arith),
    at-append 8 (omega arith),
    at-append 9 (omega arith),
  )

  mask_of-append : (idx : ℕ) → idx + 4 ≤ length buf → mask_of (buf ++ more) idx ≡ mask_of buf idx
  unfolding mask_of
  mask_of-append idx h = rw (
    at-append idx (omega arith),
    at-append (idx + 1) (omega arith),
    at-append (idx + 2) (omega arith),
    at-append (idx + 3) (omega arith),
  )

  slice-append :
      (k len : ℕ)
      → k ≤ length buf
      → len ≤ length buf - k
      → take len (drop k (buf ++ more)) ≡ take len (drop k buf)
  slice-append k len h fits =
      rw (drop-append_of_le k buf more h)
        (take-append_of_le len (drop k buf) more (omega (arith, length-drop k buf)))

  frame_length-append :
      2 ≤ length buf → frame_length buf ≢ ok none → frame_length (buf ++ more) ≡ frame_length buf
  unfolding frame_length
  frame_length-append two h =
      rw (at-append 1 two) (ground (arith, longer, be16-append, be64-append))

  decode_payload-append :
      (max_payload : ℕ) (fin : Bool) (opcode : Opcode) (len idx : ℕ)
      → decode_payload buf max_payload fin opcode len idx ≢ ok none
      → decode_payload (buf ++ more) max_payload fin opcode len idx
        ≡ decode_payload buf max_payload fin opcode len idx
  unfolding decode_payload
  decode_payload-append max_payload fin opcode len idx h =
      ground (arith, longer, mask_of-append idx, slice-append (idx + 4) len)

  decode_rest-append :
      (max_payload : ℕ) (fin : Bool) (opcode : Opcode)
      → 2 ≤ length buf
      → decode_rest buf max_payload fin opcode ≢ ok none
      → decode_rest (buf ++ more) max_payload fin opcode ≡ decode_rest buf max_payload fin opcode
  unfolding decode_rest
  decode_rest-append max_payload fin opcode two h = by_size (frame_length buf) refl
    where
      by_size :
          (l : Result ProtocolError (Option (ℕ × ℕ)))
          → frame_length buf ≡ l
          → decode_rest (buf ++ more) max_payload fin opcode
            ≡ decode_rest buf max_payload fin opcode
      by_size (err x) p = rw (frame_length-append two (λ q. cc), p, decode_rest)
      by_size (ok none) p = absurd (ground arith)
      by_size (ok (some (len, idx))) p =
          rw (frame_length-append two (λ q. cc), p, decode_rest)
            (decode_payload-append max_payload fin opcode len idx (λ q. h (rw (p, decode_rest) q)))

-- A decision stands: once the decoder has answered with a frame or with a violation, more bytes
-- behind the buffer change nothing.
pub decode_frame-append :
    (buf more : Bytes) (max_payload : ℕ)
    → decode_frame buf max_payload ≢ ok none
    → decode_frame (buf ++ more) max_payload ≡ decode_frame buf max_payload
unfolding decode_frame
decode_frame-append buf more max_payload h = ground (
  arith,
  longer buf more,
  at-append buf more 0,
  at-append buf more 1,
  by_header (decode_header (at buf 0) (at buf 1)) refl,
)
  where
    by_header :
        (r : Result ProtocolError (Bool × Opcode))
        → decode_header (at buf 0) (at buf 1) ≡ r
        → 2 ≤ length buf
        → decode_frame (buf ++ more) max_payload ≡ decode_frame buf max_payload
    by_header (err x) p two =
        ground (arith, longer buf more, at-append buf more 0, at-append buf more 1)
    by_header (ok (fin, opcode)) p two = ground (
      arith,
      longer buf more,
      at-append buf more 0,
      at-append buf more 1,
      decode_rest-append buf more max_payload fin opcode,
    )
