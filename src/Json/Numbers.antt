-- ===== src/Json/Numbers.antt =====
-- crates/sutegi-json/src/lib.rs: numbers and the other scalars, written and read back.
use sutegi.Base.{
  ℕ, ◌≡◌, refl, arith, true, false, ◌&&◌, ◌||◌, some, [], ◌∷◌, ◌++◌, Bytes, codes, leb, ◌==◌, all,
  starts_with,
}
use sutegi.Json.{Floats, null, bool, num, str, escape_into, write_num}
use sutegi.Json.Parse.{
  ok, is_numeric, span_numeric, number, scalar, boolean, literal, is_ws, skip_ws,
}
use sutegi.Json.Strings.{string-escape_into}

-- The text does not go on with a byte of a number.
abbrev pub Stops : Bytes → Type 0
Stops [] = Unit
Stops (c ∷ s) = is_numeric c ≡ false

-- A number that is finite and whose text is read back as that number. The zero with a minus sign is none:
-- its text is `0`.
pub record IsPrintable (floats : Floats) (n : ℕ) : Type 0 where
  pub first : ℕ
  pub others : Bytes
  pub text : write_num floats n ≡ first ∷ others
  pub sign_or_digit : (first == b'-' || leb b'0' first && leb first b'9') ≡ true
  pub numeric : all is_numeric (first ∷ others) ≡ true
  pub finite : floats.is_finite n ≡ true
  pub back : floats.parse_float (first ∷ others) ≡ some n

span_numeric-append :
    (w rest : Bytes) → all is_numeric w ≡ true → Stops rest → span_numeric (w ++ rest) ≡ (w, rest)
unfolding span_numeric
span_numeric-append [] [] h s = refl
span_numeric-append [] (c ∷ rest) h s = rw s
span_numeric-append (c ∷ w) rest h s = ground (arith, span_numeric-append w rest)

number-append :
    (floats : Floats) (n : ℕ) (p : IsPrintable floats n) (rest : Bytes)
    → Stops rest
    → number floats ((p.first ∷ p.others) ++ rest) ≡ ok (num n, rest)
unfolding number
number-append floats n p rest s =
    let f = p.finite in
    let b = p.back in ground (arith, span_numeric-append (p.first ∷ p.others) rest p.numeric s)

pub scalar-num :
    (floats : Floats) (n : ℕ) (p : IsPrintable floats n) (rest : Bytes)
    → Stops rest
    → scalar floats p.first ((p.first ∷ p.others) ++ rest) ≡ ok (num n, rest)
unfolding scalar
scalar-num floats n p rest s =
    let d = p.sign_or_digit in ground (arith, number-append floats n p rest s)

pub scalar-str :
    (floats : Floats) (t rest : Bytes)
    → scalar floats 0x22 (escape_into t ++ rest) ≡ ok (str t, rest)
unfolding scalar
scalar-str floats t rest = ground (arith, string-escape_into t rest)

pub scalar-true :
    (floats : Floats) (rest : Bytes)
    → scalar floats b't' (codes "true" ++ rest) ≡ ok (bool true, rest)
unfolding scalar boolean literal starts_with
scalar-true floats rest = refl

pub scalar-false :
    (floats : Floats) (rest : Bytes)
    → scalar floats b'f' (codes "false" ++ rest) ≡ ok (bool false, rest)
unfolding scalar boolean literal starts_with
scalar-false floats rest = refl

pub scalar-null :
    (floats : Floats) (rest : Bytes) → scalar floats b'n' (codes "null" ++ rest) ≡ ok (null, rest)
unfolding scalar literal starts_with
scalar-null floats rest = refl

pub skip_ws-cons : (c : ℕ) (s : Bytes) → is_ws c ≡ false → skip_ws (c ∷ s) ≡ c ∷ s
unfolding skip_ws
skip_ws-cons c s h = rw h
