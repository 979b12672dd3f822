-- ===== src/Ws/Close.antt =====
-- crates/sutegi-ws/src/protocol.rs: close frames. A `&str` is the list of its UTF-8 bytes, and
-- `valid_utf8` stands for `std::str::from_utf8(_).is_ok()`.
pub mod Laws
use sutegi.Base.{
  ℕ, zero, suc, ◌+◌, ◌*◌, ◌/◌, ◌%◌, ◌^◌, min, Bool, true, false, not, ◌&&◌, ◌||◌, List, [], ◌∷◌,
  ◌++◌, Bytes, ltb, leb, ◌==◌, if◌then◌else◌, length, get_or, take,
}
use sutegi.Ws.Protocol.{
  Result, ok, err, close, ProtocolError, bad_close_frame, bad_utf8, encode_frame,
}

-- `str::is_char_boundary`: an end of the text, or a byte that continues no sequence.
unfoldable pub is_char_boundary : Bytes → ℕ → Bool
is_char_boundary s i =
    if i == 0
    then true
    else if leb (length s) i
    then i == length s
    else ltb (get_or s i 0) 0x80 || leb 0xC0 (get_or s i 0)

-- `while !reason.is_char_boundary(cut) { cut -= 1; }`; 0 is a boundary.
unfoldable pub cut_back : Bytes → ℕ → ℕ
cut_back s zero = zero
cut_back s (suc cut) =
    let lower = cut_back s cut in if is_char_boundary s (suc cut) then suc cut else lower

unfoldable pub close_payload : ℕ → Bytes → Bytes
close_payload code reason =
    code / 2 ^ 8 ∷ code % 2 ^ 8 ∷ take (cut_back reason (min (length reason) 123)) reason

unfoldable pub encode_close : ℕ → Bytes → Bytes
encode_close code reason = encode_frame close (close_payload code reason) true

unfoldable pub valid_close_code : ℕ → Bool
valid_close_code code =
    leb 1000 code && leb code 1003
    || leb 1007 code && leb code 1011
    || leb 3000 code && leb code 4999

module _ (valid_utf8 : Bytes → Bool) where
  unfoldable pub parse_close : Bytes → Result ProtocolError (ℕ × Bytes)
  parse_close [] = ok (1000, [])
  parse_close (_ ∷ []) = err bad_close_frame
  parse_close (a ∷ b ∷ reason) =
      let code = a * 2 ^ 8 + b in
      if not (valid_close_code code)
      then err bad_close_frame
      else if not (valid_utf8 reason)
      then err bad_utf8
      else ok (code, reason)
