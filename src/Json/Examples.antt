-- ===== src/Json/Examples.antt =====
-- crates/sutegi-json: the parser and the writer at concrete inputs.
use sutegi.Base.{
  ◌+◌, ◌-◌, ◌≡◌, ◌≤◌, refl, arith, true, none, some, [], ◌∷◌, codes, starts_with, bytes_eq,
}
use sutegi.Crypto.{to_digit}
use sutegi.Json.{
  Floats, Json, null, bool, num, str, arr, obj, nil, cons, end, field, insert, bytes_lt, write_to,
  write_num, depth,
}
use sutegi.Json.Parse.{
  ok, parse, value, elements, pairs, value_at, finish, scalar, number, literal, boolean, string,
  string_loop, read_escape, unicode_escape, low_surrogate, hex4, hex_loop, utf8,
  scalar_or_replacement, skip_ws, is_ws, is_numeric, span_numeric, key_colon,
}
use sutegi.Json.Numbers.{IsPrintable}
use sutegi.Json.Order.{IsPlain}
use sutegi.Json.Tokens.{Answers}
use sutegi.Json.Taken.{IsFinite}
use sutegi.Json.RoundTrip.{parse-write_to}
use sutegi.Json.Termination.{parse-Answers}

-- Numbers of one digit, for the floats.
abbrev digits : Floats
digits = record {
  is_finite = λ n. true;
  is_small_integral = λ n. true;
  show_integer = λ n. (b'0' + n) ∷ [];
  show_float = λ n. [];
  parse_float = λ s. elim s [ [] ↦ none | c ∷ r ↦ some (c - b'0') ];
}

parse_sample :
    parse digits (codes " {\"b\" : [1, 2 ,\"\\u00e9\\n\"], \"a\":null,\"b\":true} ")
    ≡ ok (obj (field (codes "a") null (field (codes "b") (bool true) end)))
unfolding parse value elements pairs value_at finish scalar number literal boolean string
    string_loop read_escape unicode_escape low_surrogate hex4 hex_loop utf8 scalar_or_replacement
    skip_ws is_ws is_numeric span_numeric key_colon insert bytes_lt bytes_eq to_digit starts_with
parse_sample = refl

abbrev sample : Json
sample = obj (
    field (codes "a") (arr (cons (num 1) (cons (str (codes "x\n")) nil)))
      (field (codes "b") (bool true) end))

sample-IsPlain : IsPlain (IsPrintable digits) sample
unfolding IsPlain write_num is_numeric bytes_lt
sample-IsPlain = (
  (
    record {
      first = b'1';
      others = [];
      text = refl;
      sign_or_digit = refl;
      numeric = refl;
      finite = refl;
      back = refl;
    },
    (tt, tt),
  ),
  (refl, tt),
  (tt, tt, tt),
)

sample-depth : depth sample ≤ 128
unfolding depth
sample-depth = omega arith

parse-write_to_example : parse digits (write_to digits sample) ≡ ok sample
parse-write_to_example = parse-write_to digits sample sample-IsPlain sample-depth

parse-Answers_example :
    Answers
      (λ v. (depth v ≤ 128) × IsPlain (IsFinite digits) v)
      (parse digits (codes "[1,{\"b\":[],\"a\":2}]"))
parse-Answers_example = parse-Answers digits (codes "[1,{\"b\":[],\"a\":2}]")
