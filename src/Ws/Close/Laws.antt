-- ===== src/Ws/Close/Laws.antt =====
-- crates/sutegi-ws/src/protocol.rs: close frames, written and read, and where the reason is cut.
use sutegi.Base.{
  ℕ, zero, suc, ◌+◌, ◌*◌, ◌/◌, ◌%◌, ◌<◌, ◌≤◌, ◌^◌, ◌≡◌, refl, arith, min, [], ◌∷◌, Bytes, IsByte,
  All, length, Bool, true, take, drop, leb, ap, ◌∙◌, some, length-take, append-nil,
}
use native.Mathlib.Decide.{dec_le}
use sutegi.Ws.Protocol.{ok, Mask, close, Frame, decode_frame, encode_frame}
use sutegi.Ws.Protocol.Masking.{IsKey}
use sutegi.Ws.Protocol.RoundTrip.{decode_frame-to_client}
use sutegi.Ws.Protocol.Sending.{to_client, frame_header, encode_frame-header}
use sutegi.Ws.Close.{
  is_char_boundary, cut_back, close_payload, encode_close, valid_close_code, parse_close,
}

cut_back-le : (s : Bytes) (cut : ℕ) → cut_back s cut ≤ cut
unfolding cut_back
cut_back-le s zero = omega arith
cut_back-le s (suc cut) = ground (arith, cut_back-le s cut)

cut_back-boundary : (s : Bytes) (cut : ℕ) → is_char_boundary s (cut_back s cut) ≡ true
unfolding cut_back
cut_back-boundary s zero = unfold is_char_boundary in refl
cut_back-boundary s (suc cut) = ground (arith, cut_back-boundary s cut)

-- The loop passes over no boundary.
cut_back-largest :
    (s : Bytes) (cut i : ℕ) → i ≤ cut → is_char_boundary s i ≡ true → i ≤ cut_back s cut
unfolding cut_back
cut_back-largest s zero i h b = h
cut_back-largest s (suc cut) i h b = elim (dec_le i cut) [
  | yes p ↦ ground (arith, cut_back-largest s cut i)
  | no p ↦
      let e : i ≡ suc cut = omega arith in
      let last : is_char_boundary s (suc cut) ≡ true = rw e at b in ground arith
]

take-IsByte : (n : ℕ) (s : Bytes) → All IsByte s → All IsByte (take n s)
take-IsByte zero s h = tt
take-IsByte (suc n) [] h = tt
take-IsByte (suc n) (b ∷ s) (p, h) = (p, take-IsByte n s h)

close_payload-IsByte :
    (code : ℕ) (reason : Bytes)
    → code < 2 ^ 16
    → All IsByte reason
    → All IsByte (close_payload code reason)
unfolding close_payload
close_payload-IsByte code reason c h = (omega arith, (omega arith, take-IsByte _ reason h))

length-close_payload : (code : ℕ) (reason : Bytes) → length (close_payload code reason) ≤ 125
unfolding close_payload
length-close_payload code reason =
    let cut = min (length reason) 123 in
    omega (arith, length-take (cut_back reason cut) reason, cut_back-le reason cut)

drop_header :
    (payload : Bytes) → length payload ≤ 125 → drop 2 (encode_frame close payload true) ≡ payload
unfolding frame_header
drop_header payload h =
    let short : leb (length payload) 125 ≡ true = ground arith in
    ap (drop 2) (encode_frame-header close payload true) ∙ rw short refl

-- What follows from `std`: a valid text cut at a character boundary is valid.
module _ (valid_utf8 : Bytes → Bool)
    (valid_utf8-take : (s : Bytes) (i : ℕ)
      → valid_utf8 s ≡ true
      → is_char_boundary s i ≡ true
      → valid_utf8 (take i s) ≡ true) where
  parse_close-close_payload :
      (code : ℕ) (reason : Bytes)
      → valid_close_code code ≡ true
      → valid_utf8 reason ≡ true
      → parse_close valid_utf8 (close_payload code reason)
        ≡ ok (code, take (cut_back reason (min (length reason) 123)) reason)
  unfolding parse_close close_payload
  parse_close-close_payload code reason c v =
      let cut = cut_back reason (min (length reason) 123) in
      let same : code / 2 ^ 8 * 2 ^ 8 + code % 2 ^ 8 ≡ code = omega arith in
      rw
        (same, c, valid_utf8-take reason cut v (cut_back-boundary reason (min (length reason) 123)))

  -- A close frame with a valid code and text, its own payload masked as a client masks it, is decoded, where
  -- at least 125 bytes are let in, to a close frame that is parsed to that code and to the longest prefix of
  -- the reason of at most 123 bytes that ends at a character; this is if cutting valid UTF-8 at a character
  -- boundary leaves valid UTF-8.
  pub encode_close_round_trip :
      (max_payload : ℕ) (m : Mask) (code : ℕ) (reason : Bytes)
      → IsKey m
      → 125 ≤ max_payload
      → code < 2 ^ 16
      → All IsByte reason
      → valid_close_code code ≡ true
      → valid_utf8 reason ≡ true
      → (f : Frame) × (n cut : ℕ) × (decode_frame
            (to_client m (drop 2 (encode_close code reason)) (encode_close code reason))
            max_payload
          ≡ ok (some (f, n)))
        × (f.opcode ≡ close)
        × (parse_close valid_utf8 f.payload ≡ ok (code, take cut reason))
        × (is_char_boundary reason cut ≡ true)
        × (cut ≤ 123)
        × ((i : ℕ) → i ≤ 123 → i ≤ length reason → is_char_boundary reason i ≡ true → i ≤ cut)
  unfolding encode_close
  encode_close_round_trip max_payload m code reason k fits c h valid utf8 =
      let f : Frame = record { fin = true; opcode = close; payload = close_payload code reason } in
      let cut = min (length reason) 123 in
      let decoded =
        decode_frame-to_client max_payload m close (close_payload code reason) [] true k
          (close_payload-IsByte code reason c h) (omega (arith, length-close_payload code reason))
          (omega (arith, length-close_payload code reason))
          (λ control. (refl, length-close_payload code reason)) in
      (
        f,
        length (
            to_client m (close_payload code reason)
              (encode_frame close (close_payload code reason) true)),
        cut_back reason cut,
        rw (drop_header (close_payload code reason) (length-close_payload code reason))
            (rw append-nil at decoded),
        refl,
        parse_close-close_payload code reason valid utf8,
        cut_back-boundary reason cut,
        omega (arith, cut_back-le reason cut),
        λ i p q b. cut_back-largest reason cut i (omega arith) b,
      )
