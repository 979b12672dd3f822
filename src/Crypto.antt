-- ===== src/Crypto.antt =====
-- crates/sutegi-crypto/src/lib.rs: hex and Base64 transport encodings, constant-time comparison.
-- A `&str` or byte slice is the list of its bytes; an error text is left out of `Option`.
pub mod Hex
pub mod Base64
pub mod Compare
pub mod Sha256
pub mod Legacy
mod Examples
use sutegi.Base.{
  ℕ, zero, suc, ◌+◌, ◌-◌, ◌*◌, ◌/◌, ◌%◌, ◌^◌, bit_and, bit_or, bit_xor, Bool, true, false, not,
  ◌&&◌, Option, none, some, List, [], ◌∷◌, ◌++◌, Bytes, codes, ltb, leb, ◌==◌, if◌then◌else◌,
  length, get_or,
}

infixl 5 ◌>>=◌
abbrev pub ◌>>=◌ {ℓ κ} : {A : Type ℓ} {B : Type κ} → Option A → (A → Option B) → Option B
none >>= f = none
some a >>= f = f a

abbrev hex_digits : Bytes
hex_digits = codes "0123456789abcdef"

-- `HEX[b >> 4]` and `HEX[b & 0xf]` for each byte.
unfoldable pub hex : Bytes → Bytes
hex [] = []
hex (b ∷ bs) = get_or hex_digits (b / 2 ^ 4) 0 ∷ get_or hex_digits (bit_and b 0x0f) 0 ∷ hex bs

-- `char::to_digit(16)`.
unfoldable pub to_digit : ℕ → Option ℕ
to_digit c =
    if leb b'0' c && leb c b'9'
    then some (c - b'0')
    else if leb b'a' c && leb c b'f'
    then some (c - b'a' + 10)
    else if leb b'A' c && leb c b'F'
    then some (c - b'A' + 10)
    else none

-- `u8::from_str_radix(_, 16)` on a text of two bytes: a leading `+` is a sign.
unfoldable pub from_str_radix : ℕ → ℕ → Option ℕ
from_str_radix a b =
    if a == b'+' then to_digit b else (do hi ← to_digit a; lo ← to_digit b; some (hi * 16 + lo))

-- A byte of 128 or more makes its pair fail, as a cut outside a character boundary does.
unfoldable pub from_hex_pairs : Bytes → Option Bytes
from_hex_pairs [] = some []
from_hex_pairs (_ ∷ []) = none
from_hex_pairs (a ∷ b ∷ rest) = do x ← from_str_radix a b; xs ← from_hex_pairs rest; some (x ∷ xs)

unfoldable pub from_hex : Bytes → Option Bytes
from_hex s = if not (length s % 2 == 0) then none else from_hex_pairs s

-- `diff |= a[i] ^ b[i]` over two slices of one length.
unfoldable pub diff_loop : ℕ → Bytes → Bytes → ℕ
diff_loop diff (x ∷ xs) (y ∷ ys) = diff_loop (bit_or diff (bit_xor x y)) xs ys
diff_loop diff _ _ = diff

unfoldable pub constant_time_eq : Bytes → Bytes → Bool
constant_time_eq a b = if not (length a == length b) then false else (diff_loop 0 a b == 0)

-- The alphabet `B64`.
abbrev pub b64 : Bytes
b64 = codes "ABCDEFGHIJKLMNOPQRSTUVWXYZabcdefghijklmnopqrstuvwxyz0123456789+/"

abbrev pub b64_char : ℕ → ℕ
b64_char n = get_or b64 n 0

-- `(b[0] << 16) | (b[1] << 8) | b[2]`.
abbrev pub pack : ℕ → ℕ → ℕ → ℕ
pack b0 b1 b2 = bit_or (bit_or (b0 * 2 ^ 16) (b1 * 2 ^ 8)) b2

abbrev pub sextet : ℕ → ℕ → ℕ
sextet n k = bit_and (n / 2 ^ k) 63

-- `chunks(3)`, the last chunk of one or two bytes padded with `=`.
unfoldable pub base64_encode : Bytes → Bytes
base64_encode [] = []
base64_encode (a ∷ []) =
    let n = pack a 0 0 in b64_char (sextet n 18) ∷ b64_char (sextet n 12) ∷ b'=' ∷ b'=' ∷ []
base64_encode (a ∷ b ∷ []) =
    let n = pack a b 0 in
    b64_char (sextet n 18) ∷ b64_char (sextet n 12) ∷ b64_char (sextet n 6) ∷ b'=' ∷ []
base64_encode (a ∷ b ∷ c ∷ rest) =
    let n = pack a b c in
    b64_char (sextet n 18)
    ∷ b64_char (sextet n 12)
    ∷ b64_char (sextet n 6)
    ∷ b64_char (sextet n 0)
    ∷ base64_encode rest

unfoldable pub val : ℕ → Option ℕ
val c =
    if leb b'A' c && leb c b'Z'
    then some (c - b'A')
    else if leb b'a' c && leb c b'z'
    then some (c - b'a' + 26)
    else if leb b'0' c && leb c b'9'
    then some (c - b'0' + 52)
    else if c == b'+'
    then some 62
    else if c == b'/'
    then some 63
    else none

-- `s.bytes().filter(|&c| c != b'=')`.
unfoldable pub strip_padding : Bytes → Bytes
strip_padding [] = []
strip_padding (c ∷ s) = let rest = strip_padding s in if c == b'=' then rest else c ∷ rest

-- `(n << 6) | val(c)?` in a `u32`.
abbrev push_sextet : ℕ → ℕ → ℕ
push_sextet n v = bit_or (n * 2 ^ 6 % 2 ^ 32) v

-- `(n >> k) as u8`.
abbrev byte_at : ℕ → ℕ → ℕ
byte_at n k = n / 2 ^ k % 2 ^ 8

-- `chunks(4)`: after the chunk `n <<= 24 - bits`, and `bits / 8` bytes are pushed.
unfoldable pub decode_chunks : Bytes → Option Bytes
decode_chunks [] = some []
decode_chunks (a ∷ []) = do va ← val a; some []
decode_chunks (a ∷ b ∷ []) = do
  va ← val a
  vb ← val b
  let n = push_sextet (push_sextet 0 va) vb * 2 ^ 12 % 2 ^ 32
  some (byte_at n 16 ∷ [])
decode_chunks (a ∷ b ∷ c ∷ []) = do
  va ← val a
  vb ← val b
  vc ← val c
  let n = push_sextet (push_sextet (push_sextet 0 va) vb) vc * 2 ^ 6 % 2 ^ 32
  some (byte_at n 16 ∷ byte_at n 8 ∷ [])
decode_chunks (a ∷ b ∷ c ∷ d ∷ rest) = do
  va ← val a
  vb ← val b
  vc ← val c
  vd ← val d
  let n = push_sextet (push_sextet (push_sextet (push_sextet 0 va) vb) vc) vd
  more ← decode_chunks rest
  some (byte_at n 16 ∷ byte_at n 8 ∷ byte_at n 0 ∷ more)

unfoldable pub base64_decode : Bytes → Option Bytes
base64_decode s = decode_chunks (strip_padding s)
