-- ===== src/Json/Parse.antt =====
-- crates/sutegi-json/src/lib.rs: the parser. A cursor is what is left of the input; the position in an error
-- is left out. `Parser::depth` is an argument, being restored on every return that is not an error.
use sutegi.Base.{
  ℕ, zero, suc, ◌+◌, ◌-◌, ◌*◌, ◌/◌, ◌%◌, ◌^◌, Bool, true, false, not, ◌&&◌, ◌||◌, none, some, [],
  ◌∷◌, ◌++◌, Bytes, codes, ltb, leb, ◌==◌, if◌then◌else◌, starts_with, length, drop,
}
use sutegi.Crypto.{to_digit}
use sutegi.Json.{
  Floats, Json, null, bool, num, str, arr, obj, Items, nil, cons, Fields, end, insert,
}

pub data JsonError : Type 0 where
  too_deep unexpected_character unexpected_end expected_key expected_colon expected_comma
        trailing_characters :
      JsonError
  unterminated_string unterminated_escape invalid_escape invalid_hex number_out_of_range
        invalid_number invalid_literal :
      JsonError

-- `out_of_fuel` is no answer of the code.
pub data Result {ℓ} (A : Type ℓ) : Type ℓ where
  ok : A → Result A
  err : JsonError → Result A
  out_of_fuel : Result A

infixl 5 ◌>>=◌
abbrev pub ◌>>=◌ {ℓ κ} : {A : Type ℓ} {B : Type κ} → Result A → (A → Result B) → Result B
ok a >>= f = f a
err e >>= f = err e
out_of_fuel >>= f = out_of_fuel

abbrev pub Cursor : Type 0
Cursor = Bytes

abbrev pub max_depth : ℕ
max_depth = 128

unfoldable pub is_ws : ℕ → Bool
is_ws c = c == 0x20 || c == 0x09 || c == 0x0A || c == 0x0D

unfoldable pub skip_ws : Cursor → Cursor
skip_ws [] = []
skip_ws (c ∷ s) = let rest = skip_ws s in if is_ws c then rest else c ∷ s

-- `char::from_u32(c).unwrap_or('\u{FFFD}')`.
unfoldable pub scalar_or_replacement : ℕ → ℕ
scalar_or_replacement c = if leb 0xD800 c && leb c 0xDFFF || ltb 0x10FFFF c then 0xFFFD else c

-- `String::push`: the UTF-8 bytes of a scalar value.
unfoldable pub utf8 : ℕ → Bytes
utf8 c =
    if ltb c 0x80
    then c ∷ []
    else if ltb c 0x800
    then (0xC0 + c / 2 ^ 6) ∷ (0x80 + c % 2 ^ 6) ∷ []
    else if ltb c 0x10000
    then (0xE0 + c / 2 ^ 12) ∷ (0x80 + c / 2 ^ 6 % 2 ^ 6) ∷ (0x80 + c % 2 ^ 6) ∷ []
    else (0xF0 + c / 2 ^ 18)
      ∷ (0x80 + c / 2 ^ 12 % 2 ^ 6)
      ∷ (0x80 + c / 2 ^ 6 % 2 ^ 6)
      ∷ (0x80 + c % 2 ^ 6)
      ∷ []

-- The loop of `hex4`, with the digits that are still to be read.
unfoldable pub hex_loop : ℕ → ℕ → Cursor → Result (ℕ × Cursor)
hex_loop zero code s = ok (code, s)
hex_loop (suc n) code [] = err unterminated_escape
hex_loop (suc n) code (c ∷ s) = elim (to_digit c) [
  | none ↦ err invalid_hex
  | some d ↦ hex_loop n (code * 16 + d) s
]

unfoldable pub hex4 : Cursor → Result (ℕ × Cursor)
hex4 s = hex_loop 4 0 s

-- What follows a high surrogate; without a low one the cursor stays.
unfoldable pub low_surrogate : ℕ → Cursor → Result (Bytes × Cursor)
low_surrogate hi s =
    if starts_with (codes "\\u") s
    then (hex4 (drop 2 s) >>= λ (lo, rest).
        if leb 0xDC00 lo && leb lo 0xDFFF
        then ok
            (utf8 (scalar_or_replacement (0x10000 + (hi - 0xD800) * 2 ^ 10 + (lo - 0xDC00))), rest)
        else ok (utf8 0xFFFD, s))
    else ok (utf8 0xFFFD, s)

unfoldable pub unicode_escape : Cursor → Result (Bytes × Cursor)
unicode_escape s = hex4 s >>= λ (hi, rest).
    if leb 0xD800 hi && leb hi 0xDBFF
    then low_surrogate hi rest
    else ok (utf8 (scalar_or_replacement hi), rest)

-- What follows a backslash: the bytes that it stands for.
unfoldable pub read_escape : Cursor → Result (Bytes × Cursor)
read_escape [] = err invalid_escape
read_escape (c ∷ s) =
    if c == 0x22 || c == 0x5C || c == b'/'
    then ok (c ∷ [], s)
    else if c == b'n'
    then ok (0x0A ∷ [], s)
    else if c == b't'
    then ok (0x09 ∷ [], s)
    else if c == b'r'
    then ok (0x0D ∷ [], s)
    else if c == b'b'
    then ok (0x08 ∷ [], s)
    else if c == b'f'
    then ok (0x0C ∷ [], s)
    else if c == b'u'
    then unicode_escape s
    else err invalid_escape

-- The loop of `string`, behind the opening quote; `done` holds what was read.
unfoldable pub string_loop : ℕ → Bytes → Cursor → Result (Bytes × Cursor)
string_loop zero done s = out_of_fuel
string_loop (suc fuel) done [] = err unterminated_string
string_loop (suc fuel) done (c ∷ s) =
    let escaped = read_escape s >>= λ (bytes, rest). string_loop fuel (done ++ bytes) rest in
    let plain = string_loop fuel (done ++ c ∷ []) s in
    if c == 0x22 then ok (done, s) else if c == 0x5C then escaped else plain

-- `string`, on a cursor at the opening quote.
unfoldable pub string : Cursor → Result (Bytes × Cursor)
string s = string_loop (suc (length s)) [] (drop 1 s)

unfoldable pub is_numeric : ℕ → Bool
is_numeric c =
    c == b'-' || c == b'+' || c == b'.' || c == b'e' || c == b'E' || leb b'0' c && leb c b'9'

-- The bytes of a number and what is left.
unfoldable pub span_numeric : Cursor → Bytes × Cursor
span_numeric [] = ([], [])
span_numeric (c ∷ s) =
    let (raw, rest) = span_numeric s in if is_numeric c then (c ∷ raw, rest) else ([], c ∷ s)

unfoldable pub literal : Bytes → Json → Cursor → Result (Json × Cursor)
literal lit v s = if starts_with lit s then ok (v, drop (length lit) s) else err invalid_literal

unfoldable pub boolean : Cursor → Result (Json × Cursor)
boolean s =
    if starts_with (codes "true") s
    then literal (codes "true") (bool true) s
    else literal (codes "false") (bool false) s

-- What stands behind an element: a comma and more, or the closing byte.
abbrev pub after_element {ℓ} :
    {A : Type ℓ} → ℕ → Cursor → (Cursor → Result A) → (Cursor → Result A) → Result A
after_element close [] more done = err expected_comma
after_element close (c ∷ s) more done =
    if c == b',' then more s else if c == close then done s else err expected_comma

-- The key and the colon of a pair.
unfoldable pub key_colon : Cursor → Result (Bytes × Cursor)
key_colon [] = err expected_key
key_colon (c ∷ s) =
    if not (c == 0x22)
    then err expected_key
    else string (c ∷ s) >>= λ (k, rest). elim (skip_ws rest) [
      | [] ↦ err expected_colon
      | d ∷ rest' ↦ if d == b':' then ok (k, rest') else err expected_colon
    ]

-- An empty container, or its loop.
abbrev pub empty_or : ℕ → Cursor → (Cursor → Result (Json × Cursor)) → Json → Result (Json × Cursor)
empty_or close [] loop empty = loop []
empty_or close (c ∷ s) loop empty = if c == close then ok (empty, s) else loop (c ∷ s)

abbrev pub array_of : Result (Items × Cursor) → Result (Json × Cursor)
array_of r = r >>= λ (xs, left). ok (arr xs, left)

module _ (floats : Floats) where
  unfoldable pub number : Cursor → Result (Json × Cursor)
  number s =
      let (raw, rest) = span_numeric s in
      elim (floats.parse_float raw) [
        | none ↦ err invalid_number
        | some n ↦ if floats.is_finite n then ok (num n, rest) else err number_out_of_range
      ]

  -- A value that is no container, by its first byte.
  unfoldable pub scalar : ℕ → Cursor → Result (Json × Cursor)
  scalar c s =
      if c == 0x22
      then (string s >>= λ (t, rest). ok (str t, rest))
      else if c == b't' || c == b'f'
      then boolean s
      else if c == b'n'
      then literal (codes "null") null s
      else if c == b'-' || leb b'0' c && leb c b'9'
      then number s
      else err unexpected_character

  -- `value` behind the white space, given the two loops one level down.
  unfoldable pub value_at :
      ℕ
      → Cursor
      → (Cursor → Result (Json × Cursor))
      → (Cursor → Result (Json × Cursor))
      → Result (Json × Cursor)
  value_at deep [] object array = err unexpected_end
  value_at deep (c ∷ rest) object array =
      if c == b'{' || c == b'['
      then (if ltb max_depth (suc deep)
          then err too_deep
          else if c == b'{'
          then empty_or b'}' (skip_ws rest) object (obj end)
          else empty_or b']' (skip_ws rest) array (arr nil))
      else scalar c (c ∷ rest)

  -- What `value`, the loop of `array` and the loop of `object` leave of the input is no structural part of
  -- it: each call takes a unit of fuel. `deep` is the depth that the call stands at.
  unfoldable mutual
    pub value : ℕ → ℕ → Cursor → Result (Json × Cursor)
    value zero deep s = out_of_fuel
    value (suc fuel) deep s =
        value_at deep (skip_ws s) (λ more. pairs fuel (suc deep) end more)
          (λ more. array_of (elements fuel (suc deep) more))

    -- The loop of `array`.
    pub elements : ℕ → ℕ → Cursor → Result (Items × Cursor)
    elements zero deep s = out_of_fuel
    elements (suc fuel) deep s = value fuel deep s >>= λ (v, rest).
        after_element b']' (skip_ws rest)
          (λ more. elements fuel deep more >>= λ (xs, left). ok (cons v xs, left))
          (λ left. ok (cons v nil, left))

    -- The loop of `object`, with the map so far.
    pub pairs : ℕ → ℕ → Fields → Cursor → Result (Json × Cursor)
    pairs zero deep m s = out_of_fuel
    pairs (suc fuel) deep m s = key_colon (skip_ws s) >>= λ (k, rest).
        value fuel deep rest >>= λ (v, rest').
        after_element b'}' (skip_ws rest') (λ more. pairs fuel deep (insert k v m) more)
          (λ left. ok (obj (insert k v m), left))

  unfoldable pub finish : Json × Cursor → Result Json
  finish (v, s) = elim (skip_ws s) [ [] ↦ ok v | c ∷ rest ↦ err trailing_characters ]

  unfoldable pub parse : Bytes → Result Json
  parse input = value (2 * length input + 1) 0 (skip_ws input) >>= finish
