-- ===== src/Crypto/Base64.antt =====
-- crates/sutegi-crypto/src/lib.rs: Base64, encoded and decoded.
use sutegi.Base.{
  ℕ, ◌+◌, ◌*◌, ◌/◌, ◌%◌, ◌<◌, ◌^◌, ◌≡◌, refl, arith, ap, ◌∙◌, false, Option, none, some, [], ◌∷◌,
  Bytes, IsByte, All, ◌==◌, not,
}
use sutegi.Base.Bits.{bit_or-fields, bit_and_63, eq_below, holds_below, holds_below_lem}
use mathlib.Core.Path.{ap₂}
use sutegi.Crypto.{b64_char, pack, sextet, push_sextet, byte_at, val, strip_padding}
use sutegi.Crypto.{base64_encode, decode_chunks, base64_decode}

pack_sum : (a b c : ℕ) → b < 256 → c < 256 → pack a b c ≡ a * 65536 + b * 256 + c
pack_sum a b c p q = ground (
  arith,
  bit_or-fields 16 a (b * 256) (omega arith),
  bit_or-fields 8 (a * 256 + b) c (omega arith),
)

-- The alphabet has no padding character, and `val` inverts it.
abbrev or_64 : Option ℕ → ℕ
or_64 none = 64
or_64 (some x) = x

eq-some_of_or_64 : (o : Option ℕ) (b : ℕ) → b < 64 → or_64 o ≡ b → o ≡ some b
eq-some_of_or_64 none b h e = absurd (omega arith)
eq-some_of_or_64 (some x) b h e = ap some e

val-b64_char : (n : ℕ) → n < 64 → val (b64_char n) ≡ some n
unfolding val holds_below
val-b64_char n h =
    eq-some_of_or_64 _ n h (eq_below (λ n. or_64 (val (b64_char n))) (λ n. n) 64 refl n h)

b64_char-ne-pad : (n : ℕ) → n < 64 → (b64_char n == b'=') ≡ false
unfolding holds_below
b64_char-ne-pad n h =
    let t = holds_below_lem (λ n. not (b64_char n == b'=')) 64 n h refl in ground arith

sextet_lem : (n k : ℕ) → sextet n k ≡ n / 2 ^ k % 64
sextet_lem n k = bit_and_63 (n / 2 ^ k)

push_sextet_sum : (n v : ℕ) → n < 2 ^ 18 → v < 64 → push_sextet n v ≡ n * 64 + v
push_sextet_sum n v p q = ground (arith, bit_or-fields 6 n v q)

push_sextet_zero : (v : ℕ) → v < 64 → push_sextet 0 v ≡ v
push_sextet_zero v q = omega (arith, push_sextet_sum 0 v (omega arith) q)

sextet-lt : (n k : ℕ) → sextet n k < 64
sextet-lt n k = omega (arith, sextet_lem n k)

-- A character of the alphabet survives the filter.
strip_padding-cons :
    (n : ℕ) (s : Bytes) → n < 64 → strip_padding (b64_char n ∷ s) ≡ b64_char n ∷ strip_padding s
unfolding strip_padding
strip_padding-cons n s h = rw (b64_char-ne-pad n h)

-- The top sextets of a 24-bit number, pushed back.
two_sextets :
    (n : ℕ) → n < 2 ^ 24 → push_sextet (push_sextet 0 (sextet n 18)) (sextet n 12) ≡ n / 4096
two_sextets n h = rw (push_sextet_zero (sextet n 18) (sextet-lt n 18)) (
    ground (
      arith,
      push_sextet_sum (sextet n 18) (sextet n 12) (omega (arith, sextet-lt n 18)) (sextet-lt n 12),
      sextet_lem n 18,
      sextet_lem n 12,
    ))

three_sextets :
    (n : ℕ)
    → n < 2 ^ 24
    → push_sextet (push_sextet (push_sextet 0 (sextet n 18)) (sextet n 12)) (sextet n 6) ≡ n / 64
three_sextets n h = rw (two_sextets n h) (
    ground (
      arith,
      push_sextet_sum (n / 4096) (sextet n 6) (omega arith) (sextet-lt n 6),
      sextet_lem n 6,
    ))

four_sextets :
    (n : ℕ)
    → n < 2 ^ 24
    → push_sextet
        (push_sextet (push_sextet (push_sextet 0 (sextet n 18)) (sextet n 12)) (sextet n 6))
        (sextet n 0)
      ≡ n
four_sextets n h = rw (three_sextets n h) (
    ground
      (arith, push_sextet_sum (n / 64) (sextet n 0) (omega arith) (sextet-lt n 0), sextet_lem n 0))

decode_four :
    (n : ℕ) (rest more : Bytes)
    → n < 2 ^ 24
    → decode_chunks rest ≡ some more
    → decode_chunks (
        b64_char (sextet n 18)
        ∷ b64_char (sextet n 12)
        ∷ b64_char (sextet n 6)
        ∷ b64_char (sextet n 0)
        ∷ rest)
      ≡ some (byte_at n 16 ∷ byte_at n 8 ∷ byte_at n 0 ∷ more)
unfolding decode_chunks
decode_four n rest more h e = rw (
  val-b64_char (sextet n 18) (sextet-lt n 18),
  val-b64_char (sextet n 12) (sextet-lt n 12),
  val-b64_char (sextet n 6) (sextet-lt n 6),
  val-b64_char (sextet n 0) (sextet-lt n 0),
  e,
  four_sextets n h,
)

decode_two :
    (n : ℕ)
    → n < 2 ^ 24
    → decode_chunks (b64_char (sextet n 18) ∷ b64_char (sextet n 12) ∷ []) ≡ some (n / 2 ^ 16 ∷ [])
unfolding decode_chunks
decode_two n h =
    rw
      (
        val-b64_char (sextet n 18) (sextet-lt n 18),
        val-b64_char (sextet n 12) (sextet-lt n 12),
        two_sextets n h,
      )
      (ap (λ (t : ℕ). some (t ∷ [])) (omega arith))

decode_three :
    (n : ℕ)
    → n < 2 ^ 24
    → decode_chunks (b64_char (sextet n 18) ∷ b64_char (sextet n 12) ∷ b64_char (sextet n 6) ∷ [])
      ≡ some (n / 2 ^ 16 ∷ (n / 2 ^ 8 % 2 ^ 8) ∷ [])
unfolding decode_chunks
decode_three n h =
    rw
      (
        val-b64_char (sextet n 18) (sextet-lt n 18),
        val-b64_char (sextet n 12) (sextet-lt n 12),
        val-b64_char (sextet n 6) (sextet-lt n 6),
        three_sextets n h,
      )
      (ap₂ (λ (t u : ℕ). some (t ∷ u ∷ [])) (omega arith) (omega arith))

-- One chunk of the encoder read back by the decoder, with `n` its 24-bit number.
decode_one_byte :
    (n a : ℕ)
    → a < 256
    → n ≡ a * 65536 + 0 * 256 + 0
    → base64_decode (b64_char (sextet n 18) ∷ b64_char (sextet n 12) ∷ b'=' ∷ b'=' ∷ [])
      ≡ some (a ∷ [])
unfolding base64_decode
decode_one_byte n a p e =
    rw (strip_padding-cons _ _ (sextet-lt n 18), strip_padding-cons _ _ (sextet-lt n 12))
      (unfold strip_padding in
        decode_two n (omega arith) ∙ ap (λ (t : ℕ). some (t ∷ [])) (omega arith))

decode_two_bytes :
    (n a b : ℕ)
    → a < 256
    → b < 256
    → n ≡ a * 65536 + b * 256 + 0
    → base64_decode
        (b64_char (sextet n 18) ∷ b64_char (sextet n 12) ∷ b64_char (sextet n 6) ∷ b'=' ∷ [])
      ≡ some (a ∷ b ∷ [])
unfolding base64_decode
decode_two_bytes n a b p q e =
    rw
      (
        strip_padding-cons _ _ (sextet-lt n 18),
        strip_padding-cons _ _ (sextet-lt n 12),
        strip_padding-cons _ _ (sextet-lt n 6),
      )
      (unfold strip_padding in
        decode_three n (omega arith)
        ∙ ap₂ (λ (t u : ℕ). some (t ∷ u ∷ [])) (omega arith) (omega arith))

decode_three_bytes :
    (n a b c : ℕ) (text rest : Bytes)
    → a < 256
    → b < 256
    → c < 256
    → n ≡ a * 65536 + b * 256 + c
    → base64_decode text ≡ some rest
    → base64_decode (
        b64_char (sextet n 18)
        ∷ b64_char (sextet n 12)
        ∷ b64_char (sextet n 6)
        ∷ b64_char (sextet n 0)
        ∷ text)
      ≡ some (a ∷ b ∷ c ∷ rest)
unfolding base64_decode
decode_three_bytes n a b c text rest p q r e ih =
    rw
      (
        strip_padding-cons _ _ (sextet-lt n 18),
        strip_padding-cons _ _ (sextet-lt n 12),
        strip_padding-cons _ _ (sextet-lt n 6),
        strip_padding-cons _ _ (sextet-lt n 0),
      )
      (decode_four n (strip_padding text) rest (omega arith) ih ∙ bytes)
  where
    bytes :
        ◌≡◌ {A = Option Bytes}
          (some (byte_at n 16 ∷ byte_at n 8 ∷ byte_at n 0 ∷ rest))
          (some (a ∷ b ∷ c ∷ rest))
    bytes =
        let x : byte_at n 16 ≡ a = omega arith in
        let y : byte_at n 8 ≡ b = omega arith in let z : byte_at n 0 ≡ c = omega arith in cc

-- Decoding the Base64 text of any bytes gives the bytes back.
pub base64_decode-encode : (bs : Bytes) → All IsByte bs → base64_decode (base64_encode bs) ≡ some bs
unfolding base64_encode
base64_decode-encode [] h = unfold base64_decode strip_padding decode_chunks in refl
base64_decode-encode (a ∷ []) (p, h) =
    decode_one_byte (pack a 0 0) a p (pack_sum a 0 0 (omega arith) (omega arith))
base64_decode-encode (a ∷ b ∷ []) (p, (q, h)) =
    decode_two_bytes (pack a b 0) a b p q (pack_sum a b 0 q (omega arith))
base64_decode-encode (a ∷ b ∷ c ∷ rest) (p, (q, (r, h))) =
    decode_three_bytes (pack a b c) a b c (base64_encode rest) rest p q r (pack_sum a b c q r)
      (base64_decode-encode rest h)
