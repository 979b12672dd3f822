-- ===== src/Orm/Ident.antt =====
-- crates/sutegi-orm/src/builder.rs: which names and operators may stand in the text of a query.
use sutegi.Base.{
  ℕ, ◌+◌, Bool, true, false, not, ◌&&◌, ◌||◌, Option, none, some, List, [], ◌∷◌, map, all, any,
  Bytes, codes, leb, ◌==◌, if◌then◌else◌, bytes_eq,
}
use sutegi.Orm.{Error, invalid_identifier, invalid_operator, Value, Result, ok, err}

unfoldable pub is_alphabetic : ℕ → Bool
is_alphabetic c = leb b'a' c && leb c b'z' || leb b'A' c && leb c b'Z'

unfoldable pub is_alphanumeric : ℕ → Bool
is_alphanumeric c = leb b'0' c && leb c b'9' || is_alphabetic c

unfoldable pub is_word : ℕ → Bool
is_word c = is_alphanumeric c || c == b'_'

unfoldable pub is_plain_ident : Bytes → Bool
is_plain_ident [] = false
is_plain_ident (c ∷ rest) = (is_alphabetic c || c == b'_') && all is_word rest

-- What stands before the first dot, and after it.
unfoldable pub split_dot : Bytes → Option (Bytes × Bytes)
split_dot [] = none
split_dot (c ∷ s) =
    let later = split_dot s in
    if c == b'.'
    then some ([], s)
    else elim later [ none ↦ none | some (qual, name) ↦ some (c ∷ qual, name) ]

abbrev is_dot : ℕ → Bool
is_dot c = c == b'.'

unfoldable pub valid_identifier : Bytes → Bool
valid_identifier s = if bytes_eq s (codes "*") then true else elim (split_dot s) [
  | none ↦ is_plain_ident s
  | some (qual, name) ↦
      is_plain_ident qual
      && (bytes_eq name (codes "*") || not (any is_dot name) && is_plain_ident name)
]

unfoldable pub ascii_lower : ℕ → ℕ
ascii_lower c = if leb b'A' c && leb c b'Z' then c + 32 else c

unfoldable pub eq_ignore_ascii_case : Bytes → Bytes → Bool
eq_ignore_ascii_case a b = bytes_eq (map ascii_lower a) (map ascii_lower b)

abbrev pub operators : List Bytes
operators =
    codes "="
    ∷ codes "!="
    ∷ codes "<>"
    ∷ codes "<"
    ∷ codes "<="
    ∷ codes ">"
    ∷ codes ">="
    ∷ codes "LIKE"
    ∷ codes "NOT LIKE"
    ∷ codes "ILIKE"
    ∷ codes "NOT ILIKE"
    ∷ []

unfoldable pub valid_operator : Bytes → Bool
valid_operator op = any (eq_ignore_ascii_case op) operators

-- The first offender is kept.
unfoldable pub check_ident : Bytes → Bytes → Option Error → Option Error
check_ident kind s (some e) = some e
check_ident kind s none = if valid_identifier s then none else some (invalid_identifier kind s)

unfoldable pub check_idents : Bytes → List Bytes → Option Error → Option Error
check_idents kind [] e = e
check_idents kind (s ∷ names) e = check_idents kind names (check_ident kind s e)

unfoldable pub check_op : Bytes → Option Error → Option Error
check_op op (some e) = some e
check_op op none = if valid_operator op then none else some (invalid_operator op)

unfoldable pub first_invalid : List Bytes → Option Bytes
first_invalid [] = none
first_invalid (s ∷ names) =
    let later = first_invalid names in if valid_identifier s then later else some s

abbrev or_column : Option Bytes → Result (Unit {0})
or_column none = ok tt
or_column (some s) = err (invalid_identifier (codes "column") s)

abbrev then_extra : Option Bytes → List Bytes → Result (Unit {0})
then_extra (some s) extra = or_column (some s)
then_extra none extra = or_column (first_invalid extra)

unfoldable pub validate_write_idents : Bytes → List (Bytes × Value) → List Bytes → Result (Unit {0})
validate_write_idents table cols extra =
    if not (valid_identifier table)
    then err (invalid_identifier (codes "table") table)
    else then_extra (first_invalid (map (λ c. c.0) cols)) extra
