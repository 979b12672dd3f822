-- ===== src/Pg/Numbers.antt =====
-- crates/sutegi-pg/src/protocol.rs: a number in decimal digits, and what `parse` makes of it.
use sutegi.Base.{
  ℕ, zero, suc, ◌+◌, ◌-◌, ◌*◌, ◌/◌, ◌%◌, ◌<◌, ◌≤◌, ◌^◌, ◌≡◌, ◌⊎◌, inl, inr, refl, ap, ◌∙◌, arith,
  true, false, some, [], ◌∷◌, Bytes, length, ltb, leb, ◌==◌, all, if_rule,
}
use sutegi.Session.{decimal, decimal_digits}
use sutegi.Http.Cookie.{is_not}
use sutegi.Http.Parse.{is_digit, digits_value}
use sutegi.Pg.Scram.{parse_digits, parse_u32}

-- The fuel is enough for the digits of `n`.
abbrev Enough : ℕ → ℕ → Type 0
Enough zero n = ⊥
Enough (suc fuel) n = (n < 10) ⊎ Enough fuel (n / 10)

-- A text of digits, whose value before `done` is `n`.
record Reads (n : ℕ) (done s : Bytes) : Type 0 where
  digits : all is_digit s ≡ true
  reads_as : digits_value 0 s ≡ digits_value n done
  some_digit : 1 ≤ length s

digit : (n : ℕ) (s : Bytes) → all is_digit s ≡ true → all is_digit ((b'0' + n % 10) ∷ s) ≡ true
unfolding is_digit
digit n s h = ground (arith, h)

reads :
    (fuel n : ℕ) (done : Bytes)
    → Enough fuel n
    → all is_digit done ≡ true
    → Reads n done (decimal_digits fuel n done)
unfolding decimal_digits digits_value
reads zero n done h d = absurd h
reads (suc fuel) n done h d =
    if_rule (Reads n done) (ltb n 10) _ _
      (λ small.
        let same : n % 10 ≡ n = ground arith in
        record {
          digits = digit n done d;
          reads_as =
              ap (λ v. digits_value v done)
                (let e : 0 * 10 + (b'0' + n % 10 - b'0') ≡ n = omega (arith, same) in e);
          some_digit = omega arith;
        })
      (λ large. elim h [
        | inl small ↦ absurd (let no : ⊥ = ground arith in no)
        | inr more ↦
            let r = reads fuel (n / 10) ((b'0' + n % 10) ∷ done) more (digit n done d) in
            record {
              digits = r.digits;
              reads_as =
                  r.reads_as
                  ∙ ap (λ v. digits_value v done)
                      (let e : n / 10 * 10 + (b'0' + n % 10 - b'0') ≡ n = omega arith in e);
              some_digit = r.some_digit;
            }
      ])

parse_u32_digits :
    (n : ℕ) (s : Bytes)
    → n < 2 ^ 32
    → all is_digit s ≡ true
    → digits_value 0 s ≡ n
    → 1 ≤ length s
    → parse_u32 s ≡ some n
unfolding parse_u32 parse_digits
parse_u32_digits n [] h d e f = absurd (let no : ⊥ = omega arith in no)
parse_u32_digits n (c ∷ s) h d e f =
    let no_sign : (c == b'+') ≡ false = unsigned c s d in
    let fits : leb (2 ^ 32) (digits_value 0 (c ∷ s)) ≡ false = ground (arith, e) in
    rw (no_sign, d, fits) (ap some e)
  where
    unsigned : (c : ℕ) (s : Bytes) → all is_digit (c ∷ s) ≡ true → (c == b'+') ≡ false
    unsigned c s d = unfold is_digit in ground arith

decimal-Reads : (n : ℕ) → n < 2 ^ 32 → Reads n [] (decimal n)
unfolding decimal
decimal-Reads n h =
    reads 20 n [] (inr (inr (inr (inr (inr (inr (inr (inr (inr (inl (omega arith))))))))))) refl

-- A number below 2^32 that is printed is parsed to itself.
pub parse_u32-decimal : (n : ℕ) → n < 2 ^ 32 → parse_u32 (decimal n) ≡ some n
unfolding digits_value
parse_u32-decimal n h =
    let r = decimal-Reads n h in parse_u32_digits n _ h r.digits r.reads_as r.some_digit

digits-no_comma : (s : Bytes) → all is_digit s ≡ true → all (is_not b',') s ≡ true
unfolding is_digit
digits-no_comma [] d = refl
digits-no_comma (c ∷ s) d = ground (arith, digits-no_comma s)

pub decimal-no_comma : (n : ℕ) → n < 2 ^ 32 → all (is_not b',') (decimal n) ≡ true
decimal-no_comma n h = digits-no_comma (decimal n) (decimal-Reads n h).digits
