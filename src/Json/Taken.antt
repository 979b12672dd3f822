-- ===== src/Json/Taken.antt =====
-- crates/sutegi-json/src/lib.rs: what is known of a value, and the scalars.
use sutegi.Base.{
  ℕ, suc, ◌+◌, ◌≡◌, ◌≤◌, ◌<◌, refl, arith, true, false, not, ◌&&◌, ◌||◌, [], ◌∷◌, Bytes, codes, leb,
  ◌==◌, length, length-drop, starts_with, if_rule, list_rule, option_rule, bytes_eq,
}
use mathlib.Core.Path.{subst}
use sutegi.Json.{
  Floats, Json, null, bool, Items, Fields, end, field, bytes_lt, insert, depth, depth_items,
  depth_fields,
}
use sutegi.Json.Order.{IsPlain, PlainItems}
use sutegi.Json.Parse.{
  Result, Cursor, skip_ws, is_numeric, span_numeric, literal, boolean, number, scalar,
  after_element, key_colon,
}
use sutegi.Json.Tokens.{Answers, bind_rule, Left, skip_ws-length, string-Answers}

-- The numbers that the parser takes.
abbrev pub IsFinite : Floats → ℕ → Type 0
IsFinite floats n = floats.is_finite n ≡ true

pub after_element-Answers {ℓ} :
    {A : Type ℓ} (Q : A → Type 0) (close : ℕ) (s : Cursor) (more done : Cursor → Result A)
    → ((t : Cursor) → length t < length s → Answers Q (more t))
    → ((t : Cursor) → length t < length s → Answers Q (done t))
    → Answers Q (after_element close s more done)
after_element-Answers Q close [] more done f g = tt
after_element-Answers Q close (c ∷ s) more done f g =
    if_rule (Answers Q) (c == b',') _ _ (λ _. f s (omega arith))
      λ _. if_rule (Answers Q) (c == close) _ _ (λ _. g s (omega arith)) (λ _. tt)

pub key_colon-Answers : (s : Cursor) → Answers (Left (length s)) (key_colon s)
unfolding key_colon
key_colon-Answers [] = tt
key_colon-Answers (c ∷ s) =
    if_rule (Answers (Left (suc (length s)))) (not (c == 0x22)) _ _ (λ _. tt)
      λ _. bind_rule (Left (suc (length s))) (Left (suc (length s))) _ _ (string-Answers c s) λ r l.
        list_rule (Answers (Left (suc (length s)))) (skip_ws r.1) _ _ (λ _. tt)
          λ d rest e.
            let shorter : length (d ∷ rest) ≤ length r.1 =
              subst (λ t. length t ≤ length r.1) e (skip_ws-length r.1) in
            if_rule (Answers (Left (suc (length s)))) (d == b':') _ _ (λ _. omega arith) (λ _. tt)

pub depth_fields-insert :
    (k : Bytes) (v : Json) (m : Fields) (d : ℕ)
    → depth v ≤ d
    → depth_fields m ≤ d
    → depth_fields (insert k v m) ≤ d
unfolding insert depth
depth_fields-insert k v end d h g = omega arith
depth_fields-insert k v (field j w m) d h g =
    if_rule (λ m. depth_fields m ≤ d) (bytes_eq k j) _ _ (λ _. omega arith)
      λ _.
        if_rule (λ m. depth_fields m ≤ d) (bytes_lt k j) _ _ (λ _. omega arith)
          λ _. omega (arith, depth_fields-insert k v m d h (omega arith))

span_numeric-length : (s : Cursor) → length ((span_numeric s).1) ≤ length s
unfolding span_numeric
span_numeric-length [] = omega arith
span_numeric-length (c ∷ s) = ground (arith, span_numeric-length s)

-- What a value is that was read at a depth: it nests no deeper than allowed, the keys of its maps are in
-- order, and it took a byte or more.
abbrev pub Taken : Floats → ℕ → ℕ → Json × Cursor → Type 0
Taken floats deep n (v, rest) =
    (deep + depth v ≤ 128) × IsPlain (IsFinite floats) v × (length rest < n)

abbrev pub TakenItems : Floats → ℕ → ℕ → Items × Cursor → Type 0
TakenItems floats deep n (xs, rest) =
    (deep + depth_items xs ≤ 128) × PlainItems (IsFinite floats) xs × (length rest < n)

module _ (floats : Floats) (deep : ℕ) (allowed : deep ≤ 128) where
  number-Answers :
      (c : ℕ) (s : Cursor)
      → (c == b'-' || leb b'0' c && leb c b'9') ≡ true
      → Answers (Taken floats deep (suc (length s))) (number floats (c ∷ s))
  unfolding number depth IsPlain span_numeric is_numeric
  number-Answers c s h =
      option_rule (Answers (Taken floats deep (suc (length s))))
        (floats.parse_float ((span_numeric (c ∷ s)).0)) _ _ (λ _. tt)
        λ n _.
          if_rule (Answers (Taken floats deep (suc (length s)))) (floats.is_finite n) _ _
            (λ f. (omega arith, f, ground (arith, span_numeric-length s))) (λ _. tt)

  literal-Answers :
      (lit : Bytes) (v : Json) (c : ℕ) (s : Cursor)
      → 1 ≤ length lit
      → depth v ≡ 0
      → IsPlain (IsFinite floats) v
      → Answers (Taken floats deep (suc (length s))) (literal lit v (c ∷ s))
  unfolding literal
  literal-Answers lit v c s h d p =
      if_rule (Answers (Taken floats deep (suc (length s)))) (starts_with lit (c ∷ s)) _ _
        (λ _. (omega arith, p, omega (arith, length-drop (length lit) (c ∷ s)))) (λ _. tt)

  pub scalar-Answers :
      (c : ℕ) (s : Cursor) → Answers (Taken floats deep (suc (length s))) (scalar floats c (c ∷ s))
  unfolding scalar boolean depth IsPlain
  scalar-Answers c s =
      let P : Result (Json × Cursor) → Type 0 = Answers (Taken floats deep (suc (length s))) in
      if_rule P (c == 0x22) _ _
        (λ _.
          bind_rule (Left (suc (length s))) (Taken floats deep (suc (length s))) _ _
            (string-Answers c s) (λ r l. (omega arith, tt, l)))
        λ _.
          if_rule P (c == b't' || c == b'f') _ _
            (λ _.
              if_rule P (starts_with (codes "true") (c ∷ s)) _ _
                (λ _. literal-Answers (codes "true") (bool true) c s (omega arith) refl tt)
                (λ _. literal-Answers (codes "false") (bool false) c s (omega arith) refl tt))
            λ _.
              if_rule P (c == b'n') _ _
                (λ _. literal-Answers (codes "null") null c s (omega arith) refl tt)
                λ _.
                  if_rule P (c == b'-' || leb b'0' c && leb c b'9') _ _ (number-Answers c s)
                    (λ _. tt)
