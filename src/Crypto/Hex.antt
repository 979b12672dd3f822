-- ===== src/Crypto/Hex.antt =====
-- crates/sutegi-crypto/src/lib.rs: hex, encoded and decoded.
use sutegi.Base.{
  ℕ, ◌*◌, ◌/◌, ◌%◌, ◌<◌, ◌≡◌, refl, arith, bit_and, Option, none, some, [], ◌∷◌, Bytes, IsByte, All,
  length, get_or, codes, ◌^◌, ap,
}
use sutegi.Base.Bits.{eq_below, holds_below}
use sutegi.Crypto.{hex, to_digit, from_str_radix, from_hex_pairs, from_hex}

length-hex : (bs : Bytes) → length (hex bs) ≡ 2 * length bs
unfolding hex
length-hex [] = refl
length-hex (b ∷ bs) = omega (arith, length-hex bs)

-- The value of a decoded byte, out of the range of bytes on failure.
abbrev or_256 : Option ℕ → ℕ
or_256 none = 256
or_256 (some x) = x

eq-some_of_or_256 : (o : Option ℕ) (b : ℕ) → b < 256 → or_256 o ≡ b → o ≡ some b
eq-some_of_or_256 none b h e = absurd (omega arith)
eq-some_of_or_256 (some x) b h e = ap some e

abbrev hi_digit : ℕ → ℕ
hi_digit b = get_or (codes "0123456789abcdef") (b / 2 ^ 4) 0

abbrev lo_digit : ℕ → ℕ
lo_digit b = get_or (codes "0123456789abcdef") (bit_and b 0x0f) 0

digits_decode : (b : ℕ) → b < 256 → from_str_radix (hi_digit b) (lo_digit b) ≡ some b
unfolding from_str_radix to_digit holds_below
digits_decode b h =
    eq-some_of_or_256 _ b h
      (eq_below (λ b. or_256 (from_str_radix (hi_digit b) (lo_digit b))) (λ b. b) 256 refl b h)

from_hex_pairs-cons :
    (c d : ℕ) (rest : Bytes) (x : ℕ) (xs : Bytes)
    → from_str_radix c d ≡ some x
    → from_hex_pairs rest ≡ some xs
    → from_hex_pairs (c ∷ d ∷ rest) ≡ some (x ∷ xs)
unfolding from_hex_pairs
from_hex_pairs-cons c d rest x xs e f = rw (e, f)

from_hex_pairs-hex : (bs : Bytes) → All IsByte bs → from_hex_pairs (hex bs) ≡ some bs
unfolding hex from_hex_pairs
from_hex_pairs-hex [] h = refl
from_hex_pairs-hex (b ∷ bs) (p, h) =
    from_hex_pairs-cons (hi_digit b) (lo_digit b) (hex bs) b bs (digits_decode b p)
      (from_hex_pairs-hex bs h)

-- Decoding the hex text of any bytes gives the bytes back.
pub from_hex-hex : (bs : Bytes) → All IsByte bs → from_hex (hex bs) ≡ some bs
unfolding from_hex
from_hex-hex bs h =
    let e : length (hex bs) % 2 ≡ 0 = omega (arith, length-hex bs) in rw e (from_hex_pairs-hex bs h)

-- The decoder reads the text `+d` as it reads `0d`, for any byte `d`, so `+` is accepted where a
-- hex digit stands first in a pair.
pub from_hex-plus : (d : ℕ) (rest : Bytes) → from_hex (b'+' ∷ d ∷ rest) ≡ from_hex (b'0' ∷ d ∷ rest)
unfolding from_hex from_hex_pairs from_str_radix to_digit
from_hex-plus d rest = ground arith
