-- ===== src/Json/Steps.antt =====
-- crates/sutegi-json/src/lib.rs: one step of the parser on what the writer writes.
use sutegi.Base.{
  ℕ, suc, ◌≡◌, ◌≤◌, ◌<◌, refl, sym, ap, ◌∙◌, arith, true, false, ◌||◌, [], ◌∷◌, ◌++◌, Bytes, ◌==◌,
  length, append_assoc, append-nil,
}
use mathlib.Core.Path.{subst}
use sutegi.Json.{
  Floats, Json, null, bool, num, str, arr, obj, Items, nil, cons, Fields, end, field, bytes_lt,
  insert, escape_into, write_bool, write_to, write_items, write_fields,
}
use sutegi.Json.Parse.{
  ok, is_ws, is_numeric, skip_ws, scalar, key_colon, array_of, value_at, value, elements, pairs,
}
use sutegi.Json.Strings.{string-escape_into}
use sutegi.Json.Numbers.{Stops, IsPrintable, skip_ws-cons}
use sutegi.Json.Order.{KeysAbove, IsPlain, PlainItems, bytes_lt_asym}

-- A key above every key of a map.
abbrev pub KeysBelow : Fields → Bytes → Type 0
KeysBelow end k = Unit
KeysBelow (field j v fs) k = (bytes_lt j k ≡ true) × KeysBelow fs k

-- Every key of `fs` is above every key of `m`.
abbrev pub Under : Fields → Fields → Type 0
Under m end = Unit
Under m (field k v fs) = KeysBelow m k × Under m fs

infixr 5 ◌⊕◌
abbrev pub ◌⊕◌ : Fields → Fields → Fields
end ⊕ fs = fs
(field k v m) ⊕ fs = field k v (m ⊕ fs)

pub Under-end : (fs : Fields) → Under end fs
Under-end end = tt
Under-end (field k v fs) = (tt, Under-end fs)

insert_last : (k : Bytes) (v : Json) (m : Fields) → KeysBelow m k → insert k v m ≡ m ⊕ field k v end
unfolding insert
insert_last k v end h = refl
insert_last k v (field j w m) (p, h) =
    let (ne, nl) = bytes_lt_asym j k p in rw (ne, nl, insert_last k v m h)

pub Under-⊕ :
    (k : Bytes) (v : Json) (m fs : Fields)
    → Under m fs
    → KeysAbove k fs
    → Under (m ⊕ field k v end) fs
Under-⊕ k v m end u a = tt
Under-⊕ k v m (field j w fs) (b, u) (p, a) = (KeysBelow-⊕ m b, Under-⊕ k v m fs u a)
  where
    KeysBelow-⊕ : (m : Fields) → KeysBelow m j → KeysBelow (m ⊕ field k v end) j
    KeysBelow-⊕ end b = (p, tt)
    KeysBelow-⊕ (field i x m) (q, b) = (q, KeysBelow-⊕ m b)

pub ⊕_assoc : (k : Bytes) (v : Json) (m fs : Fields) → (m ⊕ field k v end) ⊕ fs ≡ m ⊕ field k v fs
⊕_assoc k v end fs = refl
⊕_assoc k v (field j w m) fs = ap (λ r. field j w r) (⊕_assoc k v m fs)

key_colon-escape_into : (k t : Bytes) → key_colon (skip_ws (escape_into k ++ b':' ∷ t)) ≡ ok (k, t)
unfolding key_colon escape_into skip_ws is_ws
key_colon-escape_into k t = ground (arith, string-escape_into k (b':' ∷ t))

-- A text that an array can go on with.
pub record Begins (s : Bytes) : Type 0 where
  pub first : ℕ
  pub others : Bytes
  pub text : s ≡ first ∷ others
  pub solid : is_ws first ≡ false
  pub inner : (first == b']') ≡ false

module _ (floats : Floats) where
  pub value-scalar :
      (fuel deep c : ℕ) (t : Bytes)
      → is_ws c ≡ false
      → (c == b'{' || c == b'[') ≡ false
      → value floats (suc fuel) deep (c ∷ t) ≡ scalar floats c (c ∷ t)
  unfolding value value_at
  value-scalar fuel deep c t w o = rw (skip_ws-cons c t w, o)

  pub skip_ws-Begins : (s : Bytes) → Begins s → skip_ws s ≡ s
  skip_ws-Begins s b = ap skip_ws b.text ∙ skip_ws-cons b.first b.others b.solid ∙ sym b.text

  pub value_array :
      (fuel deep : ℕ) (s : Bytes)
      → Begins s
      → deep < 128
      → value floats (suc fuel) deep (b'[' ∷ s) ≡ array_of (elements floats fuel (suc deep) s)
  unfolding value value_at skip_ws is_ws
  value_array fuel deep s b h =
      rw (b.text, skip_ws-cons b.first b.others b.solid) (ground (arith, b.inner))

  pub value_empty_array :
      (fuel deep : ℕ) (rest : Bytes)
      → deep < 128
      → value floats (suc fuel) deep (b'[' ∷ b']' ∷ rest) ≡ ok (arr nil, rest)
  unfolding value value_at skip_ws is_ws
  value_empty_array fuel deep rest h = ground arith

  pub value_empty_object :
      (fuel deep : ℕ) (rest : Bytes)
      → deep < 128
      → value floats (suc fuel) deep (b'{' ∷ b'}' ∷ rest) ≡ ok (obj end, rest)
  unfolding value value_at skip_ws is_ws
  value_empty_object fuel deep rest h = ground arith

  pub value_object :
      (fuel deep : ℕ) (k s : Bytes)
      → deep < 128
      → value floats (suc fuel) deep (b'{' ∷ (escape_into k ++ s))
        ≡ pairs floats fuel (suc deep) end (escape_into k ++ s)
  unfolding value value_at skip_ws is_ws escape_into
  value_object fuel deep k s h = ground arith

  pub write_to-Begins :
      (v : Json) (rest : Bytes)
      → IsPlain (IsPrintable floats) v
      → Begins (write_to floats v ++ rest)
  unfolding write_to IsPlain is_ws write_bool escape_into
  write_to-Begins null rest p = record {
    first = b'n';
    others = _;
    text = refl;
    solid = refl;
    inner = refl;
  }
  write_to-Begins (bool true) rest p = record {
    first = b't';
    others = _;
    text = refl;
    solid = refl;
    inner = refl;
  }
  write_to-Begins (bool false) rest p = record {
    first = b'f';
    others = _;
    text = refl;
    solid = refl;
    inner = refl;
  }
  write_to-Begins (num n) rest p = record {
    first = p.first;
    others = p.others ++ rest;
    text = ap (λ t. t ++ rest) p.text;
    solid = let d = p.sign_or_digit in ground arith;
    inner = let d = p.sign_or_digit in ground arith;
  }
  write_to-Begins (str t) rest p = record {
    first = 0x22;
    others = _;
    text = refl;
    solid = refl;
    inner = refl;
  }
  write_to-Begins (arr xs) rest p = record {
    first = b'[';
    others = _;
    text = refl;
    solid = refl;
    inner = refl;
  }
  write_to-Begins (obj fs) rest p = record {
    first = b'{';
    others = _;
    text = refl;
    solid = refl;
    inner = refl;
  }

  pub length-write_to : (v : Json) → IsPlain (IsPrintable floats) v → 1 ≤ length (write_to floats v)
  length-write_to v p =
      let b : Begins (write_to floats v ++ []) = write_to-Begins v [] p in
      let e = b.text in ground (arith, append-nil (write_to floats v))

  pub items_tail-Stops :
      (xs : Items) (rest : Bytes) → Stops (write_items floats false xs ++ b']' ∷ rest)
  unfolding write_items is_numeric
  items_tail-Stops nil rest = refl
  items_tail-Stops (cons v xs) rest = refl

  pub fields_tail-Stops :
      (fs : Fields) (rest : Bytes) → Stops (write_fields floats false fs ++ b'}' ∷ rest)
  unfolding write_fields is_numeric
  fields_tail-Stops end rest = refl
  fields_tail-Stops (field k v fs) rest = refl

  pub items-Begins :
      (v : Json) (xs : Items) (rest : Bytes)
      → PlainItems (IsPrintable floats) (cons v xs)
      → Begins (write_items floats true (cons v xs) ++ b']' ∷ rest)
  unfolding write_items PlainItems
  items-Begins v xs rest (p, ps) =
      subst Begins
        (sym (append_assoc (write_to floats v) (write_items floats false xs) (b']' ∷ rest)))
        (write_to-Begins v (write_items floats false xs ++ b']' ∷ rest) p)

  pub elements_last :
      (fuel deep : ℕ) (s rest : Bytes) (v : Json)
      → value floats fuel deep s ≡ ok (v, b']' ∷ rest)
      → elements floats (suc fuel) deep s ≡ ok (cons v nil, rest)
  unfolding elements skip_ws is_ws
  elements_last fuel deep s rest v e = rw e refl

  pub elements_more :
      (fuel deep : ℕ) (s s' rest : Bytes) (v : Json) (xs : Items)
      → value floats fuel deep s ≡ ok (v, b',' ∷ s')
      → elements floats fuel deep s' ≡ ok (xs, rest)
      → elements floats (suc fuel) deep s ≡ ok (cons v xs, rest)
  unfolding elements
  elements_more fuel deep s s' rest v xs e f =
      rw (e, skip_ws-cons b',' s' (unfold is_ws in refl)) (rw f refl)

  pub pairs_last :
      (fuel deep : ℕ) (m : Fields) (k t rest : Bytes) (v : Json)
      → KeysBelow m k
      → value floats fuel deep t ≡ ok (v, b'}' ∷ rest)
      → pairs floats (suc fuel) deep m (escape_into k ++ b':' ∷ t)
        ≡ ok (obj (m ⊕ field k v end), rest)
  unfolding pairs skip_ws is_ws
  pairs_last fuel deep m k t rest v b e = rw (key_colon-escape_into k t, e, insert_last k v m b)

  pub pairs_more :
      (fuel deep : ℕ) (m : Fields) (k t s rest : Bytes) (v r : Json)
      → KeysBelow m k
      → value floats fuel deep t ≡ ok (v, b',' ∷ s)
      → pairs floats fuel deep (m ⊕ field k v end) s ≡ ok (r, rest)
      → pairs floats (suc fuel) deep m (escape_into k ++ b':' ∷ t) ≡ ok (r, rest)
  unfolding pairs
  pairs_more fuel deep m k t s rest v r b e f =
      rw
        (
          key_colon-escape_into k t,
          e,
          skip_ws-cons b',' s (unfold is_ws in refl),
          insert_last k v m b,
        )
        f
