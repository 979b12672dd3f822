-- ===== src/Json/Strings.antt =====
-- crates/sutegi-json/src/lib.rs: strings, escaped and read back.
use sutegi.Base.{
  ℕ, zero, suc, ◌+◌, ◌*◌, ◌/◌, ◌%◌, ◌≡◌, ◌≤◌, ◌<◌, refl, ap, ◌∙◌, arith, Option, none, some, [],
  ◌∷◌, ◌++◌, Bytes, ltb, ◌==◌, length, length-append, append_assoc, append-nil, if_rule,
}
use sutegi.Base.Bits.{eq_below, holds_below}
use sutegi.Crypto.{to_digit}
use sutegi.Json.{hex_digit, escape_byte, escape, escape_into}
use sutegi.Json.Parse.{
  ok, string_loop, string, read_escape, unicode_escape, hex4, hex_loop, utf8, scalar_or_replacement,
}

abbrev or_16 : Option ℕ → ℕ
or_16 none = 16
or_16 (some d) = d

eq-some_of_or_16 : (o : Option ℕ) (n : ℕ) → n < 16 → or_16 o ≡ n → o ≡ some n
eq-some_of_or_16 none n h e = absurd (omega arith)
eq-some_of_or_16 (some d) n h e = ap some e

to_digit-hex_digit : (n : ℕ) → n < 16 → to_digit (hex_digit n) ≡ some n
unfolding to_digit holds_below
to_digit-hex_digit n h =
    eq-some_of_or_16 _ n h (eq_below (λ n. or_16 (to_digit (hex_digit n))) (λ n. n) 16 refl n h)

hex_loop_step :
    (n code c d : ℕ) (s : Bytes)
    → to_digit c ≡ some d
    → hex_loop (suc n) code (c ∷ s) ≡ hex_loop n (code * 16 + d) s
unfolding hex_loop
hex_loop_step n code c d s e = ground arith

hex4-hex_digit :
    (b : ℕ) (t : Bytes)
    → b < 32
    → hex4 (b'0' ∷ b'0' ∷ hex_digit (b / 16) ∷ hex_digit (b % 16) ∷ t) ≡ ok (b, t)
unfolding hex4
hex4-hex_digit b t h =
    let zero_digit = to_digit-hex_digit 0 (omega arith) in
    let whole : (0 + b / 16) * 16 + b % 16 ≡ b = omega arith in
    hex_loop_step 3 0 b'0' 0 _ zero_digit
    ∙ hex_loop_step 2 0 b'0' 0 _ zero_digit
    ∙ hex_loop_step 1 0 (hex_digit (b / 16)) (b / 16) _ (to_digit-hex_digit (b / 16) (omega arith))
    ∙ hex_loop_step 0 (0 + b / 16) (hex_digit (b % 16)) (b % 16) t
        (to_digit-hex_digit (b % 16) (omega arith))
    ∙ (unfold hex_loop in ap (λ c. ok (c, t)) whole)

unicode_escape-hex_digit :
    (b : ℕ) (t : Bytes)
    → b < 32
    → unicode_escape (b'0' ∷ b'0' ∷ hex_digit (b / 16) ∷ hex_digit (b % 16) ∷ t) ≡ ok (b ∷ [], t)
unfolding unicode_escape scalar_or_replacement utf8
unicode_escape-hex_digit b t h = rw (hex4-hex_digit b t h) (ground arith)

-- One round of the loop reads what stands for one byte.
string_loop-escape_byte :
    (fuel b : ℕ) (done t : Bytes)
    → string_loop (suc fuel) done (escape_byte b ++ t) ≡ string_loop fuel (done ++ b ∷ []) t
unfolding string_loop escape_byte read_escape
string_loop-escape_byte fuel b done t =
    if_rule P (b == 0x22) _ _ (λ e. ground arith)
      λ n0.
        if_rule P (b == 0x5C) _ _ (λ e. ground arith)
          λ n1.
            if_rule P (b == 0x0A) _ _ (λ e. ground arith)
              λ n2.
                if_rule P (b == 0x0D) _ _ (λ e. ground arith)
                  λ n3.
                    if_rule P (b == 0x09) _ _ (λ e. ground arith)
                      λ n4.
                        if_rule P (b == 0x08) _ _ (λ e. ground arith)
                          λ n5.
                            if_rule P (b == 0x0C) _ _ (λ e. ground arith)
                              λ n6.
                                if_rule P (ltb b 0x20) _ _
                                  (λ low. rw (unicode_escape-hex_digit b t (ground arith)) refl)
                                  (λ plain. ground arith)
  where
    P : Bytes → Type 0
    P x = string_loop (suc fuel) done (x ++ t) ≡ string_loop fuel (done ++ b ∷ []) t

string_loop-escape :
    (fuel : ℕ) (s done rest : Bytes)
    → length s < fuel
    → string_loop fuel done (escape s ++ 0x22 ∷ rest) ≡ ok (done ++ s, rest)
unfolding escape
string_loop-escape zero s done rest h = absurd (omega arith)
string_loop-escape (suc fuel) [] done rest h = unfold string_loop in rw (append-nil done)
string_loop-escape (suc fuel) (b ∷ s) done rest h =
    rw (append_assoc (escape_byte b) (escape s) (0x22 ∷ rest)) (
      string_loop-escape_byte fuel b done (escape s ++ 0x22 ∷ rest)
      ∙ string_loop-escape fuel s (done ++ b ∷ []) rest (omega arith)
      ∙ rw (append_assoc done (b ∷ []) s))

length-escape_byte : (b : ℕ) → 1 ≤ length (escape_byte b)
unfolding escape_byte
length-escape_byte b = ground arith

pub length-escape : (s : Bytes) → length s ≤ length (escape s)
unfolding escape
length-escape [] = omega arith
length-escape (b ∷ s) =
    omega (arith, length-escape s, length-escape_byte b, length-append (escape_byte b) (escape s))

-- What `escape_into` writes is read back by `string`, which leaves what follows.
pub string-escape_into : (s rest : Bytes) → string (escape_into s ++ rest) ≡ ok (s, rest)
unfolding string escape_into
string-escape_into s rest = rw (append_assoc (escape s) (0x22 ∷ []) rest) (
    string_loop-escape _ s [] rest
      (omega (arith, length-escape s, length-append (escape s) (0x22 ∷ rest))))
