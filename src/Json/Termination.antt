-- ===== src/Json/Termination.antt =====
-- crates/sutegi-json/src/lib.rs: the parser ends, and what it accepts.
use sutegi.Base.{
  ℕ, zero, suc, ◌+◌, ◌-◌, ◌*◌, ◌≤◌, ◌<◌, arith, ◌||◌, [], ◌∷◌, Bytes, ltb, ◌==◌, length, if_rule,
  list_rule,
}
use sutegi.Json.{Floats, Json, arr, obj, nil, Fields, end, insert, depth, depth_fields}
use sutegi.Json.Order.{IsPlain, PlainItems, PlainFields, insert-PlainFields}
use sutegi.Json.Parse.{
  Result, Cursor, skip_ws, empty_or, array_of, value_at, value, elements, pairs, finish, parse,
}
use sutegi.Json.Tokens.{Answers, bind_rule, Answers-mono, Left, skip_ws-length}
use sutegi.Json.Taken.{
  IsFinite, after_element-Answers, key_colon-Answers, depth_fields-insert, Taken, TakenItems,
  scalar-Answers,
}

-- What each of the three functions answers on fuel above what it may use.
record Ends (floats : Floats) (fuel : ℕ) : Type 0 where
  on_value :
      (deep : ℕ) (s : Cursor)
      → deep ≤ 128
      → 2 * length s < fuel
      → Answers (Taken floats deep (length s)) (value floats fuel deep s)
  on_elements :
      (deep : ℕ) (s : Cursor)
      → deep ≤ 128
      → 2 * length s + 1 < fuel
      → Answers (TakenItems floats deep (length s)) (elements floats fuel deep s)
  on_pairs :
      (deep : ℕ) (m : Fields) (s : Cursor)
      → suc deep ≤ 128
      → suc deep + depth_fields m ≤ 128
      → PlainFields (IsFinite floats) m
      → 2 * length s + 1 < fuel
      → Answers (Taken floats deep (length s)) (pairs floats fuel (suc deep) m s)

Taken-mono :
    (floats : Floats) (deep n n' : ℕ) (r : Result (Json × Cursor))
    → n ≤ n'
    → Answers (Taken floats deep n) r
    → Answers (Taken floats deep n') r
Taken-mono floats deep n n' r h =
    Answers-mono (Taken floats deep n) (Taken floats deep n') r
      (λ v (nests, plain, less). (nests, plain, omega arith))

empty_or-Answers :
    (floats : Floats) (deep n close : ℕ) (s : Cursor) (loop : Cursor → Result (Json × Cursor))
    (empty : Json)
    → length s < n
    → deep + depth empty ≤ 128
    → IsPlain (IsFinite floats) empty
    → ((t : Cursor) → length t < n → Answers (Taken floats deep n) (loop t))
    → Answers (Taken floats deep n) (empty_or close s loop empty)
empty_or-Answers floats deep n close [] loop empty h e p f = f [] h
empty_or-Answers floats deep n close (c ∷ s) loop empty h e p f =
    if_rule (Answers (Taken floats deep n)) (c == close) _ _ (λ _. (e, p, omega arith))
      (λ _. f (c ∷ s) h)

module _ (floats : Floats) (fuel : ℕ) (ends : Ends floats fuel) where
  array_of-Answers :
      (deep n : ℕ) (t : Cursor)
      → suc deep ≤ 128
      → length t < n
      → 2 * length t + 1 < fuel
      → Answers (Taken floats deep n) (array_of (elements floats fuel (suc deep) t))
  unfolding depth IsPlain
  array_of-Answers deep n t d h f =
      bind_rule (TakenItems floats (suc deep) (length t)) (Taken floats deep n) _ _
        (ends.on_elements (suc deep) t d f)
        (λ q (nests, plain, less). (omega arith, plain, omega arith))

  value_at-Answers :
      (deep : ℕ) (s : Cursor)
      → deep ≤ 128
      → 2 * length s < suc fuel
      → Answers (Taken floats deep (length s)) (
          value_at floats deep s
            (λ more. pairs floats fuel (suc deep) end more)
            (λ more. array_of (elements floats fuel (suc deep) more)))
  unfolding value_at depth IsPlain
  value_at-Answers deep [] d h = tt
  value_at-Answers deep (c ∷ s) d h =
      let n : ℕ = suc (length s) in
      let skipped : _ = skip_ws-length s in
      let P : Result (Json × Cursor) → Type 0 = Answers (Taken floats deep n) in
      if_rule P (c == b'{' || c == b'[') _ _
        (λ _.
          if_rule P (ltb 128 (suc deep)) _ _ (λ _. tt)
            λ shallow.
              let below : suc deep ≤ 128 = ground arith in
              if_rule P (c == b'{') _ _
                (λ _.
                  empty_or-Answers floats deep n b'}' (skip_ws s) _ (obj end) (omega arith)
                    (omega arith) tt
                    (λ t l.
                      Taken-mono floats deep (length t) n _ (omega arith)
                        (ends.on_pairs deep end t below (omega arith) tt (omega arith))))
                (λ _.
                  empty_or-Answers floats deep n b']' (skip_ws s) _ (arr nil) (omega arith)
                    (omega arith) tt (λ t l. array_of-Answers deep n t below l (omega arith))))
        (λ _. scalar-Answers floats deep d c s)

  value-Answers :
      (deep : ℕ) (s : Cursor)
      → deep ≤ 128
      → 2 * length s < suc fuel
      → Answers (Taken floats deep (length s)) (value floats (suc fuel) deep s)
  unfolding value
  value-Answers deep s d h =
      let skipped : _ = skip_ws-length s in
      Taken-mono floats deep (length (skip_ws s)) (length s) _ skipped
        (value_at-Answers deep (skip_ws s) d (omega arith))

  elements-Answers :
      (deep : ℕ) (s : Cursor)
      → deep ≤ 128
      → 2 * length s + 1 < suc fuel
      → Answers (TakenItems floats deep (length s)) (elements floats (suc fuel) deep s)
  unfolding elements depth PlainItems
  elements-Answers deep s d h =
      bind_rule (Taken floats deep (length s)) (TakenItems floats deep (length s)) _ _
        (ends.on_value deep s d (omega arith))
        λ r (nests, plain, less).
          let skipped : _ = skip_ws-length r.1 in
          after_element-Answers (TakenItems floats deep (length s)) b']' (skip_ws r.1) _ _
            (λ t l.
              bind_rule (TakenItems floats deep (length t)) (TakenItems floats deep (length s)) _ _
                (ends.on_elements deep t d (omega arith))
                (λ q (nests', plain', less'). (omega arith, (plain, plain'), omega arith)))
            (λ t l. (omega arith, (plain, tt), omega arith))

  pairs-Answers :
      (deep : ℕ) (m : Fields) (s : Cursor)
      → suc deep ≤ 128
      → suc deep + depth_fields m ≤ 128
      → PlainFields (IsFinite floats) m
      → 2 * length s + 1 < suc fuel
      → Answers (Taken floats deep (length s)) (pairs floats (suc fuel) (suc deep) m s)
  unfolding pairs depth IsPlain
  pairs-Answers deep m s d n p h =
      let skipped : _ = skip_ws-length s in
      bind_rule (Left (length (skip_ws s))) (Taken floats deep (length s)) _ _
        (key_colon-Answers (skip_ws s))
        λ r l.
          bind_rule (Taken floats (suc deep) (length r.1)) (Taken floats deep (length s)) _ _
            (ends.on_value (suc deep) r.1 d (omega arith))
            λ q (nests, plain, less).
              let skipped' : _ = skip_ws-length q.1 in
              let m' : Fields = insert r.0 q.0 m in
              let plain' : PlainFields (IsFinite floats) m' =
                insert-PlainFields _ r.0 q.0 m plain p in
              let nests' : suc deep + depth_fields m' ≤ 128 = omega (
                arith,
                depth_fields-insert r.0 q.0 m (128 - suc deep) (omega arith) (omega arith),
              ) in
              after_element-Answers (Taken floats deep (length s)) b'}' (skip_ws q.1) _ _
                (λ t lt.
                  Taken-mono floats deep (length t) (length s) _ (omega arith)
                    (ends.on_pairs deep m' t d nests' plain' (omega arith)))
                (λ t lt. (omega arith, plain', omega arith))

fuel-Ends : (floats : Floats) (fuel : ℕ) → Ends floats fuel
fuel-Ends floats zero = record {
  on_value = λ deep s d h. absurd (omega arith);
  on_elements = λ deep s d h. absurd (omega arith);
  on_pairs = λ deep m s d n p h. absurd (omega arith);
}
fuel-Ends floats (suc fuel) = record {
  on_value = value-Answers floats fuel (fuel-Ends floats fuel);
  on_elements = elements-Answers floats fuel (fuel-Ends floats fuel);
  on_pairs = pairs-Answers floats fuel (fuel-Ends floats fuel);
}

-- The parser ends on every input, and what it accepts nests at most 128 deep, has the keys of every map in
-- strict order, and only finite numbers.
pub parse-Answers :
    (floats : Floats) (s : Bytes)
    → Answers (λ v. (depth v ≤ 128) × IsPlain (IsFinite floats) v) (parse floats s)
unfolding parse finish
parse-Answers floats s =
    let skipped : _ = skip_ws-length s in
    bind_rule (Taken floats 0 (length (skip_ws s)))
      (λ v. (depth v ≤ 128) × IsPlain (IsFinite floats) v) _ _
      ((fuel-Ends floats (2 * length s + 1)).on_value 0 (skip_ws s) (omega arith) (omega arith))
      (λ r (nests, plain, less).
        list_rule (Answers (λ v. (depth v ≤ 128) × IsPlain (IsFinite floats) v)) (skip_ws r.1) _ _
          (λ _. (omega arith, plain)) (λ c rest _. tt))
