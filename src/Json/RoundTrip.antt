-- ===== src/Json/RoundTrip.antt =====
-- crates/sutegi-json/src/lib.rs: a document, written and parsed.
use sutegi.Base.{
  ℕ, zero, suc, ◌+◌, ◌*◌, ◌≡◌, ◌≤◌, refl, ap, ◌∙◌, arith, Bool, true, false, [], ◌∷◌, ◌++◌, Bytes,
  codes, length, length-append, append_assoc, append-nil,
}
use mathlib.Core.Path.{subst}
use sutegi.Json.{
  Floats, Json, null, bool, num, str, arr, obj, Items, nil, cons, Fields, end, field, escape_into,
  write_bool, write_num, write_to, write_items, write_fields, depth, depth_items, depth_fields,
}
use sutegi.Json.Parse.{ok, is_ws, skip_ws, array_of, value, elements, pairs, finish, parse}
use sutegi.Json.Numbers.{
  Stops, IsPrintable, scalar-num, scalar-str, scalar-true, scalar-false, scalar-null,
}
use sutegi.Json.Steps.{
  Under, ◌⊕◌, Under-end, Under-⊕, ⊕_assoc, Begins, skip_ws-Begins, value_array, value_empty_array,
  value_empty_object, value_object, value-scalar, write_to-Begins, length-write_to,
  items_tail-Stops, fields_tail-Stops, items-Begins, elements_last, elements_more, pairs_last,
  pairs_more,
}
use sutegi.Json.Numbers.{IsPrintable}
use sutegi.Json.Order.{IsPlain, PlainItems, PlainFields}

module _ (floats : Floats) where
  fields_text :
      (k : Bytes) (v : Json) (fs : Fields) (rest : Bytes)
      → write_fields floats true (field k v fs) ++ b'}' ∷ rest
        ≡ escape_into k
          ++ b':' ∷ (write_to floats v ++ (write_fields floats false fs ++ b'}' ∷ rest))
  unfolding write_fields
  fields_text k v fs rest =
      append_assoc (escape_into k) (b':' ∷ (write_to floats v ++ write_fields floats false fs))
        (b'}' ∷ rest)
      ∙ ap (λ t. escape_into k ++ b':' ∷ t)
          (append_assoc (write_to floats v) (write_fields floats false fs) (b'}' ∷ rest))

  length-write_fields :
      (k : Bytes) (v : Json) (fs : Fields)
      → suc (length (write_to floats v) + length (write_fields floats false fs))
        ≤ length (write_fields floats true (field k v fs))
  unfolding write_fields
  length-write_fields k v fs = omega (
    arith,
    length-append (escape_into k) (b':' ∷ (write_to floats v ++ write_fields floats false fs)),
    length-append (write_to floats v) (write_fields floats false fs),
  )

  reads_null :
      (fuel deep : ℕ) (rest : Bytes)
      → value floats (suc fuel) deep (codes "null" ++ rest) ≡ ok (null, rest)
  unfolding is_ws
  reads_null fuel deep rest =
      value-scalar floats fuel deep b'n' _ refl refl ∙ scalar-null floats rest

  reads_bool :
      (b : Bool) (fuel deep : ℕ) (rest : Bytes)
      → value floats (suc fuel) deep (write_bool b ++ rest) ≡ ok (bool b, rest)
  unfolding is_ws write_bool
  reads_bool true fuel deep rest =
      value-scalar floats fuel deep b't' _ refl refl ∙ scalar-true floats rest
  reads_bool false fuel deep rest =
      value-scalar floats fuel deep b'f' _ refl refl ∙ scalar-false floats rest

  reads_str :
      (t : Bytes) (fuel deep : ℕ) (rest : Bytes)
      → value floats (suc fuel) deep (escape_into t ++ rest) ≡ ok (str t, rest)
  unfolding is_ws escape_into
  reads_str t fuel deep rest =
      value-scalar floats fuel deep 0x22 _ refl refl ∙ scalar-str floats t rest

  reads_num :
      (n fuel deep : ℕ) (rest : Bytes)
      → IsPrintable floats n
      → Stops rest
      → value floats (suc fuel) deep (write_num floats n ++ rest) ≡ ok (num n, rest)
  unfolding is_ws
  reads_num n fuel deep rest p s =
      let g = p.sign_or_digit in
      ap (λ t. value floats (suc fuel) deep (t ++ rest)) p.text
      ∙ value-scalar floats fuel deep p.first _ (ground arith) (ground arith)
      ∙ scalar-num floats n p rest s

  mutual
    unfolding write_to write_items write_fields depth depth_items depth_fields IsPlain PlainItems
        PlainFields

    reads_value :
        (v : Json) (fuel deep : ℕ) (rest : Bytes)
        → IsPlain (IsPrintable floats) v
        → deep + depth v ≤ 128
        → Stops rest
        → 2 * length (write_to floats v) ≤ suc fuel
        → value floats fuel deep (write_to floats v ++ rest) ≡ ok (v, rest)
    reads_value v zero deep rest p d s f = absurd (omega (arith, length-write_to floats v p))
    reads_value null (suc fuel) deep rest p d s f = reads_null fuel deep rest
    reads_value (bool b) (suc fuel) deep rest p d s f = reads_bool b fuel deep rest
    reads_value (num n) (suc fuel) deep rest p d s f = reads_num n fuel deep rest p s
    reads_value (str t) (suc fuel) deep rest p d s f = reads_str t fuel deep rest
    reads_value (arr nil) (suc fuel) deep rest p d s f =
        value_empty_array floats fuel deep rest (omega arith)
    reads_value (arr (cons v xs)) (suc fuel) deep rest p d s f =
        let text : Bytes = write_items floats true (cons v xs) in
        ap (λ t. value floats (suc fuel) deep (b'[' ∷ t)) (append_assoc text (b']' ∷ []) rest)
        ∙ value_array floats fuel deep _ (items-Begins floats v xs rest p) (omega arith)
        ∙ ap array_of (
            reads_items v xs fuel (suc deep) rest p (omega arith)
              (omega (arith, length-append text (b']' ∷ []))))
    reads_value (obj end) (suc fuel) deep rest p d s f =
        value_empty_object floats fuel deep rest (omega arith)
    reads_value (obj (field k v fs)) (suc fuel) deep rest p d s f =
        let text : Bytes = write_fields floats true (field k v fs) in
        ap (λ t. value floats (suc fuel) deep (b'{' ∷ t)) (append_assoc text (b'}' ∷ []) rest)
        ∙ ap (λ t. value floats (suc fuel) deep (b'{' ∷ t)) (fields_text k v fs rest)
        ∙ value_object floats fuel deep k _ (omega arith)
        ∙ reads_fields k v fs end fuel (suc deep) rest p (tt, Under-end fs) (omega arith)
            (omega (arith, length-append text (b'}' ∷ [])))

    reads_items :
        (v : Json) (xs : Items) (fuel deep : ℕ) (rest : Bytes)
        → PlainItems (IsPrintable floats) (cons v xs)
        → deep + depth_items (cons v xs) ≤ 128
        → 2 * length (write_items floats true (cons v xs)) ≤ fuel
        → elements floats fuel deep (write_items floats true (cons v xs) ++ b']' ∷ rest)
          ≡ ok (cons v xs, rest)
    reads_items v xs zero deep rest (p, ps) d f = absurd (
        omega (
          arith,
          length-write_to floats v p,
          length-append (write_to floats v) (write_items floats false xs),
        ))
    reads_items v nil (suc fuel) deep rest (p, ps) d f =
        let sum : _ = length-append (write_to floats v) [] in
        ap (elements floats (suc fuel) deep) (append_assoc (write_to floats v) [] (b']' ∷ rest))
        ∙ elements_last floats fuel deep _ rest v (
            reads_value v fuel deep (b']' ∷ rest) p (omega arith) (items_tail-Stops floats nil rest)
              (omega arith))
    reads_items v (cons w xs) (suc fuel) deep rest (p, ps) d f =
        let sum : _ = length-append (write_to floats v) (write_items floats false (cons w xs)) in
        ap (elements floats (suc fuel) deep)
          (append_assoc (write_to floats v) (write_items floats false (cons w xs)) (b']' ∷ rest))
        ∙ elements_more floats fuel deep _ _ rest v (cons w xs)
            (reads_value v fuel deep _ p (omega arith) (items_tail-Stops floats (cons w xs) rest)
              (omega arith))
            (reads_items w xs fuel deep rest ps (omega arith) (omega arith))

    reads_fields :
        (k : Bytes) (v : Json) (fs m : Fields) (fuel deep : ℕ) (rest : Bytes)
        → PlainFields (IsPrintable floats) (field k v fs)
        → Under m (field k v fs)
        → deep + depth_fields (field k v fs) ≤ 128
        → 2 * length (write_fields floats true (field k v fs)) ≤ fuel
        → pairs floats fuel deep m (
            escape_into k
            ++ b':' ∷ (write_to floats v ++ (write_fields floats false fs ++ b'}' ∷ rest)))
          ≡ ok (obj (m ⊕ field k v fs), rest)
    reads_fields k v fs m zero deep rest (p, above, ps) u d f =
        absurd (omega (arith, length-write_fields k v fs))
    reads_fields k v end m (suc fuel) deep rest (p, above, ps) (b, u) d f =
        let sum : _ = length-write_fields k v end in
        pairs_last floats fuel deep m k _ rest v b (
          reads_value v fuel deep (b'}' ∷ rest) p (omega arith) (fields_tail-Stops floats end rest)
            (omega arith))
    reads_fields k v (field j w fs) m (suc fuel) deep rest (p, above, ps) (b, u) d f =
        let sum : _ = length-write_fields k v (field j w fs) in
        pairs_more floats fuel deep m k _ _ rest v _ b
          (reads_value v fuel deep _ p (omega arith) (fields_tail-Stops floats (field j w fs) rest)
            (omega arith))
          (ap (pairs floats fuel deep (m ⊕ field k v end)) (fields_text j w fs rest)
            ∙ reads_fields j w fs (m ⊕ field k v end) fuel deep rest ps
                (Under-⊕ k v m (field j w fs) u above) (omega arith) (omega arith)
            ∙ ap (λ r. ok (obj r, rest)) (⊕_assoc k v m (field j w fs)))

  -- A document whose numbers are printable, whose maps have their keys in strict order, and which nests at
  -- most 128 deep is parsed back from what the writer writes.
  pub parse-write_to :
      (v : Json)
      → IsPlain (IsPrintable floats) v
      → depth v ≤ 128
      → parse floats (write_to floats v) ≡ ok v
  unfolding parse finish skip_ws
  parse-write_to v p d =
      let whole : _ = append-nil (write_to floats v) in
      let read : _ =
        subst (λ t. value floats (2 * length (write_to floats v) + 1) 0 t ≡ ok (v, [])) whole
          (reads_value v _ 0 [] p (omega arith) tt (omega arith)) in
      rw (skip_ws-Begins floats _ (subst Begins whole (write_to-Begins floats v [] p)), read) refl
