-- ===== src/Json/Order.antt =====
-- crates/sutegi-json/src/lib.rs: the order of the keys of a map.
use sutegi.Base.{ℕ, ◌≡◌, refl, arith, true, false, [], ◌∷◌, Bytes, bytes_eq, if_rule}
use sutegi.Json.{
  Json, null, bool, num, str, arr, obj, Items, nil, cons, Fields, end, field, bytes_lt, insert,
}

-- A key below every key of a map.
abbrev pub KeysAbove : Bytes → Fields → Type 0
KeysAbove k end = Unit
KeysAbove k (field j v fs) = (bytes_lt k j ≡ true) × KeysAbove k fs

-- The values of the program's own type: the keys of a map are in strict order. `Good` is asked of the numbers.
unfoldable mutual
  pub IsPlain : (ℕ → Type 0) → Json → Type 0
  IsPlain Good null = Unit
  IsPlain Good (bool b) = Unit
  IsPlain Good (num n) = Good n
  IsPlain Good (str s) = Unit
  IsPlain Good (arr xs) = PlainItems Good xs
  IsPlain Good (obj fs) = PlainFields Good fs

  pub PlainItems : (ℕ → Type 0) → Items → Type 0
  PlainItems Good nil = Unit
  PlainItems Good (cons v xs) = IsPlain Good v × PlainItems Good xs

  pub PlainFields : (ℕ → Type 0) → Fields → Type 0
  PlainFields Good end = Unit
  PlainFields Good (field k v fs) = IsPlain Good v × KeysAbove k fs × PlainFields Good fs

pub bytes_lt_asym :
    (j k : Bytes) → bytes_lt j k ≡ true → (bytes_eq k j ≡ false) × (bytes_lt k j ≡ false)
unfolding bytes_lt bytes_eq
bytes_lt_asym [] [] h = cc
bytes_lt_asym [] (b ∷ k) h = (refl, refl)
bytes_lt_asym (a ∷ j) [] h = cc
bytes_lt_asym (a ∷ j) (b ∷ k) h = ground (arith, bytes_lt_asym j k)

bytes_lt_total : (j k : Bytes) → bytes_eq j k ≡ false → bytes_lt j k ≡ false → bytes_lt k j ≡ true
unfolding bytes_lt bytes_eq
bytes_lt_total [] [] e h = cc
bytes_lt_total [] (b ∷ k) e h = cc
bytes_lt_total (a ∷ j) [] e h = refl
bytes_lt_total (a ∷ j) (b ∷ k) e h = ground (arith, bytes_lt_total j k)

bytes_lt_trans : (i j k : Bytes) → bytes_lt i j ≡ true → bytes_lt j k ≡ true → bytes_lt i k ≡ true
unfolding bytes_lt
bytes_lt_trans [] [] k e h = cc
bytes_lt_trans (a ∷ i) [] k e h = cc
bytes_lt_trans [] (b ∷ j) [] e h = cc
bytes_lt_trans [] (b ∷ j) (c ∷ k) e h = refl
bytes_lt_trans (a ∷ i) (b ∷ j) [] e h = cc
bytes_lt_trans (a ∷ i) (b ∷ j) (c ∷ k) e h = ground (arith, bytes_lt_trans i j k)

KeysAbove-trans : (i k : Bytes) (m : Fields) → bytes_lt i k ≡ true → KeysAbove k m → KeysAbove i m
KeysAbove-trans i k end e h = tt
KeysAbove-trans i k (field j w m) e (p, h) = (bytes_lt_trans i k j e p, KeysAbove-trans i k m e h)

KeysAbove-insert :
    (i k : Bytes) (v : Json) (m : Fields)
    → bytes_lt i k ≡ true
    → KeysAbove i m
    → KeysAbove i (insert k v m)
unfolding insert
KeysAbove-insert i k v end e h = (e, tt)
KeysAbove-insert i k v (field j w m) e (p, h) =
    if_rule (KeysAbove i) (bytes_eq k j) _ _ (λ same. (p, h))
      λ other.
        if_rule (KeysAbove i) (bytes_lt k j) _ _ (λ below. (e, (p, h)))
          λ above. (p, KeysAbove-insert i k v m e h)

-- Putting a value under a key keeps the keys of the map in order.
pub insert-PlainFields :
    (Good : ℕ → Type 0) (k : Bytes) (v : Json) (m : Fields)
    → IsPlain Good v
    → PlainFields Good m
    → PlainFields Good (insert k v m)
unfolding insert PlainFields
insert-PlainFields Good k v end p h = (p, tt, tt)
insert-PlainFields Good k v (field j w m) p (q, above, h) =
    if_rule (PlainFields Good) (bytes_eq k j) _ _ (λ same. (p, above, h))
      λ other.
        if_rule (PlainFields Good) (bytes_lt k j) _ _
          (λ below. (p, (below, KeysAbove-trans k j m below above), (q, above, h)))
          λ not_below. (
            q,
            KeysAbove-insert j k v m (bytes_lt_total k j other not_below) above,
            insert-PlainFields Good k v m p h,
          )
