-- ===== src/Json/Tokens.antt =====
-- crates/sutegi-json/src/lib.rs: the tokens of a document, each of which is a byte or more.
use sutegi.Base.{
  ℕ, zero, suc, ◌≤◌, ◌<◌, arith, ◌&&◌, ◌||◌, [], ◌∷◌, Bytes, codes, leb, ◌==◌, length, length-drop,
  starts_with, if_rule, option_rule,
}
use sutegi.Crypto.{to_digit}
use sutegi.Json.Parse.{
  Result, ok, err, out_of_fuel, ◌>>=◌, Cursor, is_ws, skip_ws, hex_loop, hex4, low_surrogate,
  unicode_escape, read_escape, string_loop, string,
}

-- An answer of the code, and when it is a success one that `Q` holds of.
abbrev pub Answers {ℓ} : {A : Type ℓ} → (A → Type 0) → Result A → Type 0
Answers Q (ok a) = Q a
Answers Q (err e) = Unit
Answers Q out_of_fuel = ⊥

pub bind_rule {ℓ κ} :
    {A : Type ℓ} {B : Type κ} (Q : A → Type 0) (R : B → Type 0) (r : Result A) (f : A → Result B)
    → Answers Q r
    → ((a : A) → Q a → Answers R (f a))
    → Answers R (r >>= f)
bind_rule Q R (ok a) f q g = g a q
bind_rule Q R (err e) f q g = tt
bind_rule Q R out_of_fuel f q g = q

pub Answers-mono {ℓ} :
    {A : Type ℓ} (Q R : A → Type 0) (r : Result A)
    → ((a : A) → Q a → R a)
    → Answers Q r
    → Answers R r
Answers-mono Q R (ok a) f q = f a q
Answers-mono Q R (err e) f q = tt
Answers-mono Q R out_of_fuel f q = q

-- Fewer than `n` bytes are left.
abbrev pub Left {ℓ} : {A : Type ℓ} → ℕ → A × Cursor → Type 0
Left n (a, rest) = length rest < n

pub skip_ws-length : (s : Cursor) → length (skip_ws s) ≤ length s
unfolding skip_ws
skip_ws-length [] = omega arith
skip_ws-length (c ∷ s) =
    if_rule (λ t. length t ≤ suc (length s)) (is_ws c) (skip_ws s) (c ∷ s)
      (λ _. omega (arith, skip_ws-length s)) (λ _. omega arith)

-- In what follows `n` is above the number of bytes at the cursor.
hex_loop-Answers :
    (n count code : ℕ) (s : Cursor) → length s < n → Answers (Left n) (hex_loop count code s)
unfolding hex_loop
hex_loop-Answers n zero code s h = h
hex_loop-Answers n (suc count) code [] h = tt
hex_loop-Answers n (suc count) code (c ∷ s) h =
    option_rule (Answers (Left n)) (to_digit c) _ _ (λ _. tt)
      (λ d _. hex_loop-Answers n count _ s (omega arith))

low_surrogate-Answers :
    (n hi : ℕ) (s : Cursor) → length s < n → Answers (Left n) (low_surrogate hi s)
unfolding low_surrogate hex4
low_surrogate-Answers n hi s h =
    if_rule (Answers (Left n)) (starts_with (codes "\\u") s) _ _
      (λ _.
        bind_rule (Left n) (Left n) _ _ (hex_loop-Answers n 4 0 _ (omega (arith, length-drop 2 s)))
          (λ r g.
            if_rule (Answers (Left n)) (leb 0xDC00 r.0 && leb r.0 0xDFFF) _ _ (λ _. g) (λ _. h)))
      (λ _. h)

unicode_escape-Answers : (n : ℕ) (s : Cursor) → length s < n → Answers (Left n) (unicode_escape s)
unfolding unicode_escape hex4
unicode_escape-Answers n s h = bind_rule (Left n) (Left n) _ _ (hex_loop-Answers n 4 0 s h) (λ r g.
    if_rule (Answers (Left n)) (leb 0xD800 r.0 && leb r.0 0xDBFF) _ _
      (λ _. low_surrogate-Answers n _ _ g) (λ _. g))

read_escape-Answers : (n : ℕ) (s : Cursor) → length s < n → Answers (Left n) (read_escape s)
unfolding read_escape
read_escape-Answers n [] h = tt
read_escape-Answers n (c ∷ s) h =
    let less : length s < n = omega arith in
    let P : Result (Bytes × Cursor) → Type 0 = Answers (Left n) in
    if_rule P (c == 0x22 || c == 0x5C || c == b'/') _ _ (λ _. less)
      λ _.
        if_rule P (c == b'n') _ _ (λ _. less)
          λ _.
            if_rule P (c == b't') _ _ (λ _. less)
              λ _.
                if_rule P (c == b'r') _ _ (λ _. less)
                  λ _.
                    if_rule P (c == b'b') _ _ (λ _. less)
                      λ _.
                        if_rule P (c == b'f') _ _ (λ _. less)
                          λ _.
                            if_rule P (c == b'u') _ _ (λ _. unicode_escape-Answers n s less)
                              (λ _. tt)

string_loop-Answers :
    (n fuel : ℕ) (done : Bytes) (s : Cursor)
    → length s < fuel
    → length s < n
    → Answers (Left n) (string_loop fuel done s)
unfolding string_loop
string_loop-Answers n zero done s h g = omega arith
string_loop-Answers n (suc fuel) done [] h g = tt
string_loop-Answers n (suc fuel) done (c ∷ s) h g =
    if_rule (Answers (Left n)) (c == 0x22) _ _ (λ _. omega arith)
      λ _.
        if_rule (Answers (Left n)) (c == 0x5C) _ _
          (λ _.
            bind_rule (Left (suc (length s))) (Left n) _ _
              (read_escape-Answers (suc (length s)) s (omega arith))
              (λ r l. string_loop-Answers n fuel _ r.1 (omega arith) (omega arith)))
          (λ _. string_loop-Answers n fuel _ s (omega arith) (omega arith))

pub string-Answers : (c : ℕ) (s : Cursor) → Answers (Left (suc (length s))) (string (c ∷ s))
unfolding string
string-Answers c s = string_loop-Answers _ _ [] s (omega arith) (omega arith)
